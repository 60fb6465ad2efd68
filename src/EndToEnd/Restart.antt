-- ===== src/EndToEnd/Restart.antt =====
-- A restart of the daemon after a session of forms: the accounts survive it.
use cfg_mgr.Base.{ℕ, ◌≡◌, refl, ◌∙◌, ap, sym, Bool, List, [], ◌∷◌, All, Option, none, some}
use cfg_mgr.Message.{Msg, CfgMgrStatus}
use cfg_mgr.Env.{Env}
use cfg_mgr.Trace.{Daemon}
use cfg_mgr.Web.Users.Written.{Persists, file}
use cfg_mgr.Web.Dispatch.{start, set_both}
use cfg_mgr.Cgi.{Form}
use cfg_mgr.Config.Load.Traces.{load_traces, trace_all, trace_all-pa}
use cfg_mgr.EndToEnd.Storable.{Storable}
use cfg_mgr.Web.Dispatch.Start.{set_both_pa, start-loaded}
use cfg_mgr.EndToEnd.Sessions.{
  Accounts, Act, perform_all, view, Script, finished, enter, submit_all, submit-Granted,
  submit_all-perform_all,
}
use cfg_mgr.EndToEnd.Stored.{Stored, NewIsWord, submit-Stored}

module _ {env : Env} (temp : ℕ) where
  module _ (holds : Persists env) (temp' polls : ℕ) where
    session-Stored :
        (acts : List Act) (forms : List (Form × Msg)) (prev : Msg) (d : Daemon env)
        → Script acts forms
        → All NewIsWord acts
        → Storable d.pa
        → Stored temp d
        → (statuses : List CfgMgrStatus) × (e : Daemon env) × (submit_all temp' polls forms prev d
            ≡ some (statuses, e))
          × Stored temp e
    unfolding submit_all
    session-Stored _ _ prev d finished w v stored = ([], d, refl, stored)
    session-Stored _ _ prev d (enter act acts form m rest entered later) w v stored =
        let (r, answered, granted) =
          submit-Granted {env = env} holds.opens temp' polls act form m prev d entered v.valid in
        let (stored', v') =
          submit-Stored temp holds temp' polls act form m prev d r entered w.0 answered granted v
            stored in
        let (statuses, e, ran, last) =
          session-Stored acts rest r.out r.daemon later w.1 v' stored' in
        (r.status ∷ statuses, e, rw (answered, ran) refl, last)

    same_end :
        (o : Option (List CfgMgrStatus × Daemon env)) (ss ts : List CfgMgrStatus) (e f : Daemon env)
        → o ≡ some (ss, e)
        → o ≡ some (ts, f)
        → e ≡ f
    same_end o ss ts e f h h' =
        let both : ◌≡◌ {A = Option (List CfgMgrStatus × Daemon env)} (some (ss, e)) (some (ts, f)) =
          sym h ∙ h' in
        cc

    -- The accounts of the daemon behind the start of webProcess, however it ends.
    abbrev pub Begins : Accounts → Option (Bool × Daemon env) → Type 0
    Begins a none = Unit
    Begins a (some (ready, f)) = view f.pa ≡ a

    set_both-Begins :
        (a : Accounts) (up : Daemon env) (o : Option (Bool × Daemon env))
        → set_both polls up ≡ o
        → view up.pa ≡ a
        → Begins a o
    set_both-Begins a up none h accounts = tt
    set_both-Begins a up (some (ready, f)) h accounts =
        ap view (set_both_pa polls up f ready h) ∙ accounts

    -- After a session of forms the daemon is started anew, with what the session has left on the
    -- device: paramLoad reads the file and goes on to set the interfaces, and however that ends, the
    -- accounts are those that the session's acts have led to. The forms have names and passwords of
    -- 1 to 20 characters (at most 19 for a check), and new passwords of printable characters without
    -- blanks; the configuration can be stored, with such texts; the file has been in step with it at
    -- the start, can always be opened, and is kept by the file system, SQLite and the clock.
    pub restart-perform_all :
        (acts : List Act) (forms : List (Form × Msg)) (prev : Msg) (d e boot : Daemon env)
        (statuses : List CfgMgrStatus)
        → Script acts forms
        → All NewIsWord acts
        → Storable d.pa
        → Stored temp d
        → submit_all temp' polls forms prev d ≡ some (statuses, e)
        → boot.sys ≡ e.sys
        → (up : Daemon env) × (start polls temp boot ≡ set_both polls up)
          × Begins (perform_all acts (view d.pa)).1 (start polls temp boot)
    restart-perform_all acts forms prev d e boot statuses script w v stored ran sys =
        let (statuses₁, e₁, ran₁, (doc, p, found, loaded, viewed)) =
          session-Stored acts forms prev d script w v stored in
        let (statuses₂, e₂, ran₂, _, accounts, _) =
          submit_all-perform_all {env = env} holds.opens temp' polls acts forms prev d script
            v.valid in
        let last₁ =
          same_end (submit_all temp' polls forms prev d) statuses₁ statuses e₁ e ran₁ ran in
        let last₂ =
          same_end (submit_all temp' polls forms prev d) statuses₂ statuses e₂ e ran₂ ran in
        let found' : file boot ≡ some doc =
          ap (λ s. (Env.load_file env s).0) (sys ∙ ap (λ (x : Daemon env). x.sys) (sym last₁))
          ∙ found in
        let read : Daemon env = record boot { sys = (Env.load_file env boot.sys).1; pa = p } in
        let up = trace_all (load_traces doc p) read in
        let begun = start-loaded polls temp boot doc p found' loaded in
        let same =
          ap view (trace_all-pa (load_traces doc p) read)
          ∙ viewed
          ∙ ap (λ (x : Daemon env). view x.pa) (last₁ ∙ sym last₂)
          ∙ accounts in
        (up, begun, set_both-Begins _ up (start polls temp boot) (sym begun) same)
