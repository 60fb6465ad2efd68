-- ===== src/EndToEnd/Queued.antt =====
-- A session of forms, one after the other, as one of the interleavings on the shared queue.
use cfg_mgr.Base.{map, true, ℕ, ◌<◌, ◌≡◌, List, [], ◌∷◌, some, bind-some}
use mathlib.Core.Path.{subst}
use cfg_mgr.Message.{Msg, CfgMgrStatus}
use cfg_mgr.Env.{Env}
use cfg_mgr.Trace.{Daemon}
use cfg_mgr.Web.Confirm.{Reply}
use cfg_mgr.Web.Dispatch.{dispatch, arrived}
use cfg_mgr.Cgi.{Form}
use cfg_mgr.Cgi.Table.{request_of}
use cfg_mgr.Exchange.{
  Client, asking, waiting, answered, listening, World, world, Step, ask, get, take_request, reply,
  Steps, stay, step_then, askers, fresh,
}
use cfg_mgr.EndToEnd.Routes.{submit}
use cfg_mgr.Params.{IsValid}
use cfg_mgr.Web.Users.Written.{is_ok}
use cfg_mgr.EndToEnd.Sessions.{submit_all, Act, Script, perform_all, view, submit_all-perform_all}

-- The world with one more process, in front of the others.
abbrev beside : {env : Env} → Client → World env → World env
beside c (world cs q s d) = world (c ∷ cs) q s d

module _ {env : Env} {cap polls : ℕ} where
  Step-beside :
      (c : Client) (u v : World env)
      → Step env cap polls u v
      → Step env cap polls (beside c u) (beside c v)
  Step-beside c _ _ (ask before after m q s d room) = ask (c ∷ before) after m q s d room
  Step-beside c _ _ (get before after m x q s d) = get (c ∷ before) after m x q s d
  Step-beside c _ _ (take_request cs x prev q d r e) = take_request (c ∷ cs) x prev q d r e
  Step-beside c _ _ (reply cs out q d room) = reply (c ∷ cs) out q d room

  Steps-beside :
      (c : Client) (u v : World env)
      → Steps env cap polls u v
      → Steps env cap polls (beside c u) (beside c v)
  Steps-beside c _ _ (stay w) = stay (beside c w)
  Steps-beside c _ _ (step_then u v w st rest) =
      step_then (beside c u) (beside c v) (beside c w) (Step-beside c u v st)
        (Steps-beside c v w rest)

  -- While the others have not begun, a process gets the daemon's answer to its request.
  delivered_then :
      (after : List Client) (m prev : Msg) (d : Daemon env) (r : Reply env) (w : World env)
      → 0 < cap
      → dispatch polls m prev (arrived m d) ≡ some r
      → Steps env cap polls (world (answered m r.out ∷ after) [] (listening r.out) r.daemon) w
      → Steps env cap polls (world (asking m ∷ after) [] (listening prev) d) w
  delivered_then after m prev d r w room served rest =
      step_then _ _ w (ask [] after m [] (listening prev) d room) (
        step_then _ _ w (take_request (waiting m ∷ after) m prev [] d r served) (
          step_then _ _ w (reply (waiting m ∷ after) r.out [] r.daemon room)
            (step_then _ _ w (get [] after m r.out [] (listening r.out) r.daemon) rest)))

-- Each process has got the daemon's answer to its own request, and the daemon has served them in
-- this order: the forms, the requests, the statuses and the processes; the daemon's message variable
-- and the daemon at the start, and at the end.
pub data OwnAnswers {env : Env} (temp polls : ℕ)
    : List (Form × Msg)
      → List Msg
      → List CfgMgrStatus
      → List Client
      → Msg
      → Daemon env
      → Msg
      → Daemon env
      → Type 0 where
  nobody : (prev : Msg) (d : Daemon env) → OwnAnswers temp polls [] [] [] [] prev d prev d
  own_answer :
      (form : Form) (m q : Msg) (r : Reply env) (forms : List (Form × Msg)) (qs : List Msg)
      (statuses : List CfgMgrStatus) (cs : List Client) (prev last : Msg) (d e : Daemon env)
      → request_of temp form m ≡ some q
      → dispatch polls q prev (arrived q d) ≡ some r
      → OwnAnswers temp polls forms qs statuses cs r.out r.daemon last e
      → OwnAnswers temp polls
          ((form, m) ∷ forms)
          (q ∷ qs)
          (r.status ∷ statuses)
          (answered q r.out ∷ cs)
          prev
          d
          last
          e

module _ {env : Env} (cap temp polls : ℕ) (room : 0 < cap) where
  -- The processes of an interleaving that does what a session does, and ends as `out` says.
  abbrev pub Interleaves :
      List (Form × Msg) → Msg → Daemon env → List CfgMgrStatus × Daemon env → Type 0
  Interleaves forms prev d out =
      (qs : List Msg) × (cs : List Client) × (last : Msg) × OwnAnswers temp polls forms qs out.0 cs
        prev d last out.1
      × Steps env cap polls (fresh qs prev d) (world cs [] (listening last) out.1)

  -- Any session of forms that are submitted one after the other is an interleaving of as many CGI
  -- processes with the daemon on their queue, if it holds a message: it begins with nobody's request
  -- sent, each process gets the answer to its own request, with the status that the session gives
  -- it, the queue is empty at the end, and the daemon is as the session leaves it.
  pub submit_all-Interleaves :
      (forms : List (Form × Msg)) (prev : Msg) (d : Daemon env)
      (out : List CfgMgrStatus × Daemon env)
      → submit_all temp polls forms prev d ≡ some out
      → Interleaves forms prev d out
  unfolding submit_all
  submit_all-Interleaves [] prev d out h =
      let start : List CfgMgrStatus × Daemon env = ([], d) in
      let same : start ≡ out = cc in
      subst (Interleaves [] prev d) same ([], [], prev, nobody prev d, stay _)
  submit_all-Interleaves ((form, m) ∷ forms) prev d out h =
      let (r, answered_form, h₁) = bind-some (submit temp polls form m prev d) _ _ h in
      let (rest, ran, h₂) = bind-some (submit_all temp polls forms r.out r.daemon) _ _ h₁ in
      let (q, asked, served) =
        bind-some (request_of temp form m) (λ x. dispatch polls x prev (arrived x d)) r
          answered_form in
      let (qs, cs, last, own, run) = submit_all-Interleaves forms r.out r.daemon rest ran in
      let end : List CfgMgrStatus × Daemon env = (r.status ∷ rest.0, rest.1) in
      let same : end ≡ out = cc in
      subst (Interleaves ((form, m) ∷ forms) prev d) same (
        q ∷ qs,
        answered q r.out ∷ cs,
        last,
        own_answer form m q r forms qs rest.0 cs prev last d rest.1 asked served own,
        delivered_then (askers qs) q prev d r _ room served
            (Steps-beside (answered q r.out) _ _ run),
      )

  -- Any session of forms that log in, change, reset or check passwords, one after the other, is an
  -- interleaving of CGI processes with the daemon on their queue, if it holds a message, in which
  -- each process gets the answer to its own request: CFGMGR_OK exactly if the form's act is granted.
  -- The accounts at the end are those that the acts lead to. The forms have names and passwords of 1
  -- to 20 characters, at most 19 for a check; the configuration is well formed at the start and its
  -- file can always be opened for writing.
  pub perform_all-Interleaves :
      (acts : List Act) (forms : List (Form × Msg)) (prev : Msg) (d : Daemon env)
      → ((sys : Env.Sys env) → (Env.fopen_config env sys).0 ≡ true)
      → Script acts forms
      → IsValid d.pa
      → (out : List CfgMgrStatus × Daemon env) × Interleaves forms prev d out
        × (map is_ok out.0 ≡ (perform_all acts (view d.pa)).0)
        × (view out.1.pa ≡ (perform_all acts (view d.pa)).1)
  perform_all-Interleaves acts forms prev d opens script v =
      let (statuses, e, ran, results, accounts, _) =
        submit_all-perform_all {env = env} opens temp polls acts forms prev d script v in
      let out : List CfgMgrStatus × Daemon env = (statuses, e) in
      (out, submit_all-Interleaves forms prev d out ran, results, accounts)
