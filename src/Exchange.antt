-- ===== src/Exchange.antt =====
-- The one queue between the CGI processes and the daemon (CGI_CFGMGR_MSG_NAME of inc/message.h, with
-- msgSend and msgRecv of message.c): cgiMain sends its request to it and reads its answer from it,
-- and so does the loop of webProcess the other way round. Here the queue is explicit, in place of
-- the environment's mq_send and mq_receive, which are taken to block and not to fail.
pub mod Balance
pub mod Races
pub mod Users
use cfg_mgr.Base.{ℕ, ◌<◌, ◌≡◌, List, [], ◌∷◌, ◌++◌, some, length}
use cfg_mgr.Message.{Msg}
use cfg_mgr.Env.{Env}
use cfg_mgr.Trace.{Daemon}
use cfg_mgr.Web.Confirm.{Reply}
use cfg_mgr.Web.Dispatch.{dispatch, arrived}

-- A CGI process in cgiMain: before msgSend of its request, in msgRecv, and behind it with the
-- message that it prints.
pub data Client : Type 0 where
  asking : Msg → Client
  waiting : Msg → Client
  answered : Msg → Msg → Client

-- The loop of webProcess: in msgRecv, with what sendMsg holds, and before msgSend of an answer.
pub data Server : Type 0 where
  listening : Msg → Server
  replying : Msg → Server

-- The CGI processes, the messages in the queue, the first in front, and the daemon. All messages
-- have the same priority, so that the queue is first in, first out.
pub data World (env : Env) : Type 0 where
  world : List Client → List Msg → Server → Daemon env → World env

-- The steps of the processes, in any order. A queue of `cap` messages blocks msgSend, an empty one
-- msgRecv, and whoever receives gets the first message, whatever it is.
pub data Step (env : Env) (cap polls : ℕ) : World env → World env → Type 0 where
  -- msgSend of cgiMain
  ask :
      (before after : List Client) (m : Msg) (q : List Msg) (s : Server) (d : Daemon env)
      → length q < cap
      → Step env cap polls
          (world (before ++ (asking m ∷ after)) q s d)
          (world (before ++ (waiting m ∷ after)) (q ++ (m ∷ [])) s d)
  -- msgRecv of cgiMain
  get :
      (before after : List Client) (m x : Msg) (q : List Msg) (s : Server) (d : Daemon env)
      → Step env cap polls
          (world (before ++ (waiting m ∷ after)) (x ∷ q) s d)
          (world (before ++ (answered m x ∷ after)) q s d)
  -- msgRecv of webProcess, and the switch
  take_request :
      (cs : List Client) (x prev : Msg) (q : List Msg) (d : Daemon env) (r : Reply env)
      → dispatch polls x prev (arrived x d) ≡ some r
      → Step env cap polls
          (world cs (x ∷ q) (listening prev) d)
          (world cs q (replying r.out) r.daemon)
  -- msgSend of webProcess
  reply :
      (cs : List Client) (out : Msg) (q : List Msg) (d : Daemon env)
      → length q < cap
      → Step env cap polls
          (world cs q (replying out) d)
          (world cs (q ++ (out ∷ [])) (listening out) d)

-- Any number of steps.
pub data Steps (env : Env) (cap polls : ℕ) : World env → World env → Type 0 where
  stay : (w : World env) → Steps env cap polls w w
  step_then :
      (u v w : World env)
      → Step env cap polls u v
      → Steps env cap polls v w
      → Steps env cap polls u w

-- CGI processes with a request each, in front of an empty queue.
abbrev pub askers : List Msg → List Client
askers [] = []
askers (m ∷ ms) = asking m ∷ askers ms

abbrev pub fresh : {env : Env} → List Msg → Msg → Daemon env → World env
fresh ms prev d = world (askers ms) [] (listening prev) d
