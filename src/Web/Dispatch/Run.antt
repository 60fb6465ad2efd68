-- ===== src/Web/Dispatch/Run.antt =====
-- Any run of the loop of webProcess, as a sequence of rounds.
use cfg_mgr.Base.{ℕ, ◌≡◌, ◌≢◌, refl, ◌∙◌, sym, Option, none, some, arith, ◌++◌, ◌>>=◌}
use mathlib.Core.Path.{subst}
use cfg_mgr.Base.Text.{codes, fmt_d}
use cfg_mgr.Message.{Msg, type_code}
use cfg_mgr.Params.{IsValid}
use cfg_mgr.Env.{Env, cgi_cfgmgr}
use cfg_mgr.Trace.{Daemon, system, debug_info, trace}
use cfg_mgr.Web.Confirm.{Reply}
use cfg_mgr.Web.Dispatch.{dispatch, turn, answer, serve, Turn, stopped, answered}
use cfg_mgr.Web.Dispatch.Laws.{Preserved, dispatch-Preserved}

module _ {env : Env} where
  -- Rounds that are answered, one after the other.
  pub data Serves (polls : ℕ) : Msg → Daemon env → Msg → Daemon env → Type 0 where
    here : (prev : Msg) (d : Daemon env) → Serves polls prev d prev d
    next :
        (prev out last : Msg) (d e f : Daemon env)
        → turn polls prev d ≡ some (answered out e)
        → Serves polls out e last f
        → Serves polls prev d last f

  answer-pa :
      (r : Reply env) (out : Msg) (e : Daemon env) → answer r ≡ answered out e → e.pa ≡ r.daemon.pa
  unfolding answer
  answer-pa r out e h = ground arith

  answered_by :
      (o : Option (Reply env)) (out : Msg) (e : Daemon env)
      → (o >>= λ r. some (answer r)) ≡ some (answered out e)
      → (r : Reply env) × (o ≡ some r) × (e.pa ≡ r.daemon.pa)
  answered_by none out e h = cc
  answered_by (some r) out e h = (r, refl, answer-pa r out e cc)

  serve-Preserved :
      (polls : ℕ) (m prev out : Msg) (d e : Daemon env)
      → IsValid d.pa
      → serve polls m prev d ≡ some (answered out e)
      → Preserved d.pa e.pa
  unfolding serve trace
  serve-Preserved polls m prev out d e v h =
      let received =
        trace debug_info system
          (codes "msgRecv a message, type " ++ (fmt_d (type_code m.type) ++ codes ".")) d in
      let (r, replied, same) = answered_by (dispatch polls m prev received) out e h in
      subst (Preserved d.pa) (sym same) (dispatch-Preserved polls m prev received r v replied)

  received_by :
      (o : Option Msg) (stop : Daemon env) (rest : Msg → Option (Turn env)) (t : Turn env)
      → (elim o [ none ↦ some (stopped stop) | some m ↦ rest m ]) ≡ some t
      → t ≢ stopped stop
      → (m : Msg) × (rest m ≡ some t)
  received_by none stop rest t h other = let same : t ≡ stopped stop = cc in absurd (other same)
  received_by (some m) stop rest t h other = (m, h)

  turn-Preserved :
      (polls : ℕ) (prev out : Msg) (d e : Daemon env)
      → IsValid d.pa
      → turn polls prev d ≡ some (answered out e)
      → Preserved d.pa e.pa
  unfolding turn
  turn-Preserved polls prev out d e v h =
      let (received, sys') = Env.mq_receive env cgi_cfgmgr d.sys in
      let (m, served) = received_by received _ _ (answered out e) h (λ same. cc) in
      serve-Preserved polls m prev out (record d { sys = sys' }) e v served

  -- However long the daemon answers messages, and whatever they are, the names of its users stay
  -- as they were, and no password or name becomes longer than its field.
  pub Serves-Preserved :
      (polls : ℕ) (prev last : Msg) (d f : Daemon env)
      → IsValid d.pa
      → Serves polls prev d last f
      → Preserved d.pa f.pa
  Serves-Preserved polls prev last d f v (here _ _) = (refl, refl, v)
  Serves-Preserved polls prev last d f v (next _ out _ _ e _ h rest) =
      let first = turn-Preserved polls prev out d e v h in
      let later = Serves-Preserved polls out last e f first.2 rest in
      (later.0 ∙ first.0, later.1 ∙ first.1, later.2)
