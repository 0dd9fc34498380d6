-- ===== src/Server/Workers.antt =====
-- src/server.cpp: the workers of a server side by side, from `start` to the destructor. A handler that
-- holds a lock of its server changes the state in one step; of any other only the single accesses to
-- the state are known, between which the other workers go on.
use memo_coin.Prelude.{ℕ, suc, ◌≡◌, Bool, true, false, if◌then◌else◌, List, [], ◌∷◌, ◌++◌}
use memo_coin.Messages.{ok}
use memo_coin.Wire.{Alpaca, Frames, Handler, serve}

-- A worker in `server_loop`: at the test of `*interrupt`, in `recv_message`, in `message_handler`, or
-- out of the loop.
pub data WorkerPhase : Type 0 where
  testing receiving returned : WorkerPhase
  handling : Frames → WorkerPhase

-- `queued` counts the jobs that no thread has taken; `answered` is the history of the requests and
-- their replies.
pub record ServerState (S : Type 0) : Type 0 where
  pub state : S
  pub interrupt : Bool
  pub queued : ℕ
  pub workers : List WorkerPhase
  pub answered : List (Frames × Frames)

-- The constructor.
abbrev pub init : {S : Type 0} → S → ServerState S
init s = record { state = s; interrupt = false; queued = 0; workers = []; answered = [] }

-- A new server that starts: a job for each of the `size` threads of the pool.
unfoldable pub start : {S : Type 0} → ℕ → S → ServerState S
start size s = record (init s) { queued = size }

-- The first statement of `~Server`; `delete threads` then waits for the workers to return.
abbrev pub destroy : {S : Type 0} → ServerState S → ServerState S
destroy s = record s { interrupt = true }

abbrev pub after_test : Bool → WorkerPhase
after_test interrupt = if interrupt then returned else receiving

-- `locked` tells the requests whose handler holds the lock from its first access to the state to its
-- last, and `alters` what one access of another handler may do.
module _ (alpaca : Alpaca) {S : Type 0} (message_handler : Handler S) (locked : Frames → Bool)
    (alters : Frames → S → S → Type 0) where
  -- One step, with the requests that the proxy hands to a worker in it. There is none where a handler
  -- throws, which ends the process.
  pub data Step (s : ServerState S) : List Frames → ServerState S → Type 0 where
    -- A thread of the pool takes a job.
    begins :
        (n : ℕ)
        → s.queued ≡ suc n
        → Step s [] (record s { queued = n; workers = testing ∷ s.workers })
    tests :
        (ws vs : List WorkerPhase)
        → s.workers ≡ ws ++ testing ∷ vs
        → Step s [] (record s { workers = ws ++ after_test s.interrupt ∷ vs })
    receives :
        (ws vs : List WorkerPhase) (request : Frames)
        → s.workers ≡ ws ++ receiving ∷ vs
        → Step s (request ∷ []) (record s { workers = ws ++ handling request ∷ vs })
    handles :
        (ws vs : List WorkerPhase) (request reply : Frames) (t : S)
        → s.workers ≡ ws ++ handling request ∷ vs
        → locked request ≡ true
        → serve alpaca message_handler request s.state ≡ ok (t, reply)
        → Step s [] (record s {
          state = t;
          workers = ws ++ testing ∷ vs;
          answered = s.answered ++ (request, reply) ∷ [];
        })
    -- One access of a handler that holds no lock all the time.
    accesses :
        (ws vs : List WorkerPhase) (request : Frames) (t : S)
        → s.workers ≡ ws ++ handling request ∷ vs
        → locked request ≡ false
        → alters request s.state t
        → Step s [] (record s { state = t })
    -- Such a handler ends, with some reply, which may have gone out before.
    ends :
        (ws vs : List WorkerPhase) (request reply : Frames)
        → s.workers ≡ ws ++ handling request ∷ vs
        → locked request ≡ false
        → Step s [] (record s {
          workers = ws ++ testing ∷ vs;
          answered = s.answered ++ (request, reply) ∷ [];
        })
    -- The destructor begins.
    interrupts : Step s [] (destroy s)

  -- In some steps from `s`, the requests `rs` handed out, oldest first.
  pub data Reach (s : ServerState S) : List Frames → ServerState S → Type 0 where
    here : Reach s [] s
    next :
        {rs qs : List Frames} {s1 s2 : ServerState S}
        → Reach s rs s1
        → Step s1 qs s2
        → Reach s (rs ++ qs) s2
