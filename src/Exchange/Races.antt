-- ===== src/Exchange/Races.antt =====
-- What may go wrong on the one queue, and what goes right when nobody interferes.
use cfg_mgr.Base.{ℕ, ◌<◌, ◌≡◌, [], ◌∷◌, some}
use cfg_mgr.Message.{Msg}
use cfg_mgr.Env.{Env}
use cfg_mgr.Trace.{Daemon}
use cfg_mgr.Web.Confirm.{Reply}
use cfg_mgr.Web.Dispatch.{dispatch, arrived}
use cfg_mgr.Exchange.{
  asking, waiting, answered, listening, replying, world, ask, get, take_request, reply, Steps, stay,
  step_then, fresh,
}

module _ {env : Env} (cap polls : ℕ) (room : 0 < cap) (prev : Msg) (d : Daemon env) where
  -- A process that is alone with the daemon may get the daemon's answer to its request.
  pub answer_delivered :
      (m : Msg) (r : Reply env)
      → dispatch polls m prev (arrived m d) ≡ some r
      → Steps env cap polls
          (fresh (m ∷ []) prev d)
          (world (answered m r.out ∷ []) [] (listening r.out) r.daemon)
  answer_delivered m r served = step_then _ _ _ (ask [] [] m [] (listening prev) d room) (
      step_then _ _ _ (take_request (waiting m ∷ []) m prev [] d r served) (
        step_then _ _ _ (reply (waiting m ∷ []) r.out [] r.daemon room)
          (step_then _ _ _ (get [] [] m r.out [] (listening r.out) r.daemon) (stay _))))

  -- It may as well receive its own request, before the daemon does.
  pub own_request_received :
      (m : Msg)
      → Steps env cap polls
          (fresh (m ∷ []) prev d)
          (world (answered m m ∷ []) [] (listening prev) d)
  own_request_received m =
      step_then _ _ _ (ask [] [] m [] (listening prev) d room)
        (step_then _ _ _ (get [] [] m m [] (listening prev) d) (stay _))

  -- The daemon may receive its own answer and answer that.
  pub own_answer_served :
      (m : Msg) (r s : Reply env)
      → dispatch polls m prev (arrived m d) ≡ some r
      → dispatch polls r.out r.out (arrived r.out r.daemon) ≡ some s
      → Steps env cap polls
          (fresh (m ∷ []) prev d)
          (world (answered m s.out ∷ []) [] (listening s.out) s.daemon)
  own_answer_served m r s served again = step_then _ _ _ (ask [] [] m [] (listening prev) d room) (
      step_then _ _ _ (take_request (waiting m ∷ []) m prev [] d r served) (
        step_then _ _ _ (reply (waiting m ∷ []) r.out [] r.daemon room) (
          step_then _ _ _ (take_request (waiting m ∷ []) r.out r.out [] r.daemon s again) (
            step_then _ _ _ (reply (waiting m ∷ []) s.out [] s.daemon room)
              (step_then _ _ _ (get [] [] m s.out [] (listening s.out) s.daemon) (stay _))))))

  -- Of two processes the second may get the answer to the first one's request, and the first one
  -- the second's request.
  pub answers_swapped :
      (m n : Msg) (r : Reply env)
      → dispatch polls m prev (arrived m d) ≡ some r
      → Steps env cap polls
          (fresh (m ∷ n ∷ []) prev d)
          (world (answered m n ∷ answered n r.out ∷ []) [] (listening r.out) r.daemon)
  answers_swapped m n r served =
      step_then _ _ _ (ask [] (asking n ∷ []) m [] (listening prev) d room) (
        step_then _ _ _ (take_request (waiting m ∷ asking n ∷ []) m prev [] d r served) (
          step_then _ _ _ (ask (waiting m ∷ []) [] n [] (replying r.out) r.daemon room) (
            step_then _ _ _ (get [] (waiting n ∷ []) m n [] (replying r.out) r.daemon) (
              step_then _ _ _ (reply (answered m n ∷ waiting n ∷ []) r.out [] r.daemon room) (
                step_then _ _ _ (get (answered m n ∷ []) [] n r.out [] (listening r.out) r.daemon)
                  (stay _))))))
