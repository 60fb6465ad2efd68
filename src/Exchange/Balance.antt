-- ===== src/Exchange/Balance.antt =====
-- How many messages there are, and that nobody waits for ever.
use cfg_mgr.Base.{ℕ, suc, ◌+◌, ◌<◌, ◌≡◌, refl, List, [], ◌∷◌, ◌++◌, arith, length, length-append}
use cfg_mgr.Message.{Msg}
use cfg_mgr.Env.{Env}
use cfg_mgr.Trace.{Daemon}
use cfg_mgr.Exchange.{
  Client, asking, waiting, answered, Server, listening, replying, World, world, Step, ask, get,
  take_request, reply, Steps, stay, step_then, askers, fresh,
}

-- The number of processes in msgRecv, and of those that have not sent their request.
abbrev pub waits : List Client → ℕ
waits [] = 0
waits (asking m ∷ cs) = waits cs
waits (waiting m ∷ cs) = suc (waits cs)
waits (answered m x ∷ cs) = waits cs

-- The answer that the daemon has not sent yet.
abbrev pub pending : Server → ℕ
pending (listening prev) = 0
pending (replying out) = 1

-- As many processes wait as there are messages in the queue and in the daemon's hands.
abbrev pub Balanced : {env : Env} → World env → Type 0
Balanced (world cs q s d) = waits cs ≡ length q + pending s

waits-append : (cs es : List Client) → waits (cs ++ es) ≡ waits cs + waits es
waits-append [] es = omega arith
waits-append (asking m ∷ cs) es = waits-append cs es
waits-append (waiting m ∷ cs) es = omega (arith, waits-append cs es)
waits-append (answered m x ∷ cs) es = waits-append cs es

waits-askers : (ms : List Msg) → waits (askers ms) ≡ 0
waits-askers [] = refl
waits-askers (m ∷ ms) = waits-askers ms

module _ {env : Env} {cap polls : ℕ} where
  Step-Balanced : (u v : World env) → Step env cap polls u v → Balanced u → Balanced v
  Step-Balanced _ _ (ask before after m q s d room) h = omega (
    arith,
    waits-append before (asking m ∷ after),
    waits-append before (waiting m ∷ after),
    length-append q (m ∷ []),
    h,
  )
  Step-Balanced _ _ (get before after m x q s d) h = omega (
    arith,
    waits-append before (waiting m ∷ after),
    waits-append before (answered m x ∷ after),
    h,
  )
  Step-Balanced _ _ (take_request cs x prev q d r e) h = omega (arith, h)
  Step-Balanced _ _ (reply cs out q d room) h = omega (arith, length-append q (out ∷ []), h)

  Steps-Balanced : (u v : World env) → Steps env cap polls u v → Balanced u → Balanced v
  Steps-Balanced _ _ (stay w) h = h
  Steps-Balanced _ _ (step_then u v w s rest) h = Steps-Balanced v w rest (Step-Balanced u v s h)

-- However the CGI processes and the daemon interleave, from an empty queue on: at every moment as
-- many processes wait for an answer as there are messages in the queue and in the daemon's hands.
pub fresh-Balanced :
    {env : Env} (cap polls : ℕ) (ms : List Msg) (prev : Msg) (d : Daemon env) (w : World env)
    → Steps env cap polls (fresh ms prev d) w
    → Balanced w
fresh-Balanced cap polls ms prev d w run = Steps-Balanced (fresh ms prev d) w run (waits-askers ms)

module _ {env : Env} (cap polls : ℕ) (room : 0 < cap) where
  -- Steps lead to a state in which nobody waits and the queue is empty.
  abbrev pub Drains : World env → Type 0
  Drains w =
      (cs : List Client) × (s : Server) × (e : Daemon env) × Steps env cap polls w (world cs [] s e)
      × (waits cs ≡ 0)
