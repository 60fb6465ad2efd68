-- ===== src/Exchange/Users.antt =====
-- What interleavings of requests leave of the configuration.
use cfg_mgr.Base.{ℕ, ◌≡◌, ◌≢◌, refl, ◌∙◌, Bool, true, false, List, [], ◌∷◌, ◌++◌, arith, All}
use cfg_mgr.Message.{Msg, MsgType, filelookup_request, normalusermgr_request, superusermgr_request}
use cfg_mgr.Params.{IsValid}
use cfg_mgr.Env.{Env}
use cfg_mgr.Trace.{Daemon, trace}
use cfg_mgr.Web.Dispatch.{arrived}
use cfg_mgr.Web.Dispatch.Laws.{
  is_user_request, SameUsers, Preserved, dispatch-SameUsers, dispatch-Preserved,
}
use cfg_mgr.Web.Dispatch.Kinds.{response_kind, dispatch-response_kind}
use cfg_mgr.Exchange.{
  Client, asking, waiting, answered, Server, listening, replying, World, world, Step, ask, get,
  take_request, reply, Steps, stay, step_then, askers, fresh,
}

abbrev pub daemon_of : {env : Env} → World env → Daemon env
daemon_of (world cs q s d) = d

-- The requests that change no password and whose answer the daemon makes itself.
abbrev pub is_harmless : MsgType → Bool
is_harmless filelookup_request = false
is_harmless normalusermgr_request = false
is_harmless superusermgr_request = false
is_harmless _ = true

abbrev Harmless : Msg → Type 0
Harmless m = is_harmless m.type ≡ true

-- Every message that is on its way is harmless.
abbrev AllAsking : List Client → Type 0
AllAsking [] = Unit
AllAsking (asking m ∷ cs) = Harmless m × AllAsking cs
AllAsking (waiting m ∷ cs) = AllAsking cs
AllAsking (answered m x ∷ cs) = AllAsking cs

abbrev InHand : Server → Type 0
InHand (listening prev) = Unit
InHand (replying out) = Harmless out

abbrev Quiet : {env : Env} → World env → Type 0
Quiet (world cs q s d) = AllAsking cs × All Harmless q × InHand s

harmless-other : (kind : MsgType) → is_harmless kind ≡ true → is_user_request kind ≡ false
harmless-other filelookup_request h = refl
harmless-other normalusermgr_request h = cc
harmless-other superusermgr_request h = cc
harmless-other _ h = refl

response_kind-harmless : (kind : MsgType) → is_harmless (response_kind kind) ≡ true
response_kind-harmless kind = ground arith

All-snoc {ℓ κ} :
    {A : Type ℓ} (P : A → Type κ) (xs : List A) (x : A) → All P xs → P x → All P (xs ++ (x ∷ []))
All-snoc P [] x h p = (p, tt)
All-snoc P (y ∷ ys) x h p = (h.0, All-snoc P ys x h.1 p)

AllAsking-sent :
    (before after : List Client) (m : Msg)
    → AllAsking (before ++ (asking m ∷ after))
    → Harmless m × AllAsking (before ++ (waiting m ∷ after))
AllAsking-sent [] after m h = h
AllAsking-sent (asking n ∷ cs) after m h =
    let (here, rest) = AllAsking-sent cs after m h.1 in (here, (h.0, rest))
AllAsking-sent (waiting n ∷ cs) after m h = AllAsking-sent cs after m h
AllAsking-sent (answered n x ∷ cs) after m h = AllAsking-sent cs after m h

AllAsking-got :
    (before after : List Client) (m x : Msg)
    → AllAsking (before ++ (waiting m ∷ after))
    → AllAsking (before ++ (answered m x ∷ after))
AllAsking-got [] after m x h = h
AllAsking-got (asking n ∷ cs) after m x h = (h.0, AllAsking-got cs after m x h.1)
AllAsking-got (waiting n ∷ cs) after m x h = AllAsking-got cs after m x h
AllAsking-got (answered n y ∷ cs) after m x h = AllAsking-got cs after m x h

AllAsking-askers : (ms : List Msg) → All Harmless ms → AllAsking (askers ms)
AllAsking-askers [] h = tt
AllAsking-askers (m ∷ ms) h = (h.0, AllAsking-askers ms h.1)

module _ {env : Env} {cap polls : ℕ} where
  Step-Quiet :
      (u v : World env)
      → Step env cap polls u v
      → Quiet u
      → Quiet v × SameUsers (daemon_of u).pa (daemon_of v).pa
  unfolding trace
  Step-Quiet _ _ (ask before after m q s d room) h =
      let (here, rest) = AllAsking-sent before after m h.0 in
      ((rest, All-snoc Harmless q m h.1 here, h.2), (refl, refl))
  Step-Quiet _ _ (get before after m x q s d) h =
      ((AllAsking-got before after m x h.0, h.1.1, h.2), (refl, refl))
  Step-Quiet _ _ (take_request cs x prev q d r e) h =
      let other : x.type ≢ filelookup_request = λ same. cc in
      let kind = dispatch-response_kind polls x prev (arrived x d) r other e in
      (
        (h.0, h.1.1, rw kind (response_kind-harmless x.type)),
        dispatch-SameUsers polls x prev (arrived x d) r (harmless-other x.type h.1.0) e,
      )
  Step-Quiet _ _ (reply cs out q d room) h =
      ((h.0, All-snoc Harmless q out h.1 h.2, tt), (refl, refl))

  Steps-Quiet :
      (u v : World env)
      → Steps env cap polls u v
      → Quiet u
      → SameUsers (daemon_of u).pa (daemon_of v).pa
  Steps-Quiet _ _ (stay w) h = (refl, refl)
  Steps-Quiet _ _ (step_then u v w s rest) h =
      let (quiet, first) = Step-Quiet u v s h in
      let later = Steps-Quiet v w rest quiet in (later.0 ∙ first.0, later.1 ∙ first.1)

  Step-Preserved :
      (u v : World env)
      → Step env cap polls u v
      → IsValid (daemon_of u).pa
      → Preserved (daemon_of u).pa (daemon_of v).pa
  unfolding trace
  Step-Preserved _ _ (ask before after m q s d room) h = (refl, refl, h)
  Step-Preserved _ _ (get before after m x q s d) h = (refl, refl, h)
  Step-Preserved _ _ (take_request cs x prev q d r e) h =
      dispatch-Preserved polls x prev (arrived x d) r h e
  Step-Preserved _ _ (reply cs out q d room) h = (refl, refl, h)

  -- However the CGI processes and the daemon interleave, and whichever messages they get from the
  -- queue, the users keep their names, and no name or password overruns its field.
  pub interleavings-Preserved :
      (u v : World env)
      → Steps env cap polls u v
      → IsValid (daemon_of u).pa
      → Preserved (daemon_of u).pa (daemon_of v).pa
  interleavings-Preserved _ _ (stay w) h = (refl, refl, h)
  interleavings-Preserved _ _ (step_then u v w s rest) h =
      let first = Step-Preserved u v s h in
      let later = interleavings-Preserved v w rest first.2 in
      (later.0 ∙ first.0, later.1 ∙ first.1, later.2)

-- Requests that change no password and look up no files leave both users as they were, however they
-- interleave and although requests and answers are mixed up on the queue: no answer of the daemon
-- can be taken for a request that changes a user.
pub interleavings-SameUsers :
    {env : Env} (cap polls : ℕ) (ms : List Msg) (prev : Msg) (d : Daemon env) (w : World env)
    → All (λ m. is_harmless m.type ≡ true) ms
    → Steps env cap polls (fresh ms prev d) w
    → SameUsers d.pa (daemon_of w).pa
interleavings-SameUsers cap polls ms prev d w harmless run =
    Steps-Quiet (fresh ms prev d) w run (AllAsking-askers ms harmless, tt, tt)
