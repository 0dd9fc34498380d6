-- ===== src/Tests/Workers.antt =====
-- The workers of the pool's server at concrete inputs.
use memo_coin.Prelude.{◌≤◌, ◌≡◌, refl, true, [], ◌∷◌, length}
use memo_coin.Wire.{Frames}
use memo_coin.Wire.Toy.{toy}
use memo_coin.TxPool.{TxPool, init}
use memo_coin.TxPool.History.{Request, posts, step, run}
use memo_coin.TxPool.Dispatch.{request_handler}
use memo_coin.Server.Pool.{frames_of, serve-step}
use memo_coin.Server.PoolWorkers.{locked, ReadsOnly, locked-frames_of, Reach-messages_of}
use memo_coin.Server.Workers.{
  ServerState, start, Reach, here, next, testing, receiving, returned, handling, begins, tests,
  receives, handles, interrupts,
}
use memo_coin.Server.Linear.{idle, Reach-returned}
use memo_coin.Tests.Inputs.{alice, bob, pay}
use memo_coin.Tests.Network.{Outside, silent, valid}

abbrev one : Request
one = posts true (pay alice bob 1 30)

abbrev two : Request
two = posts true (pay alice bob 2 5)

abbrev message : Request → Frames
message = frames_of toy valid silent

abbrev ready : ServerState (TxPool × Outside)
ready = record (start 2 (init, tt)) { queued = 0; workers = receiving ∷ receiving ∷ [] }

-- Both workers have a message; the one with the second message answers, then the other.
abbrev busy : ServerState (TxPool × Outside)
busy = record ready { workers = handling (message one) ∷ handling (message two) ∷ [] }

abbrev second_answered : ServerState (TxPool × Outside)
second_answered = record busy {
  state = (step init two, tt);
  workers = handling (message one) ∷ testing ∷ [];
  answered = (message two, (serve-step toy valid silent two init tt (refl, refl)).0) ∷ [];
}

answering :
    Reach toy
      (request_handler toy valid silent)
      (locked toy valid silent)
      (ReadsOnly toy valid silent)
      (start 2 (init, tt))
      (message one ∷ message two ∷ [])
      second_answered
unfolding start
answering =
    next
      (next
        (next
          (next
            (next (next (next here (begins 1 refl)) (begins 0 refl)) (tests [] (testing ∷ []) refl))
            (tests (receiving ∷ []) [] refl))
          (receives [] (receiving ∷ []) (message one) refl))
        (receives (handling (message one) ∷ []) [] (message two) refl))
      (handles (handling (message one) ∷ []) [] (message two) _ _ refl
        (locked-frames_of toy valid silent two (refl, refl))
        (serve-step toy valid silent two init tt (refl, refl)).1)

Reach-messages_of_example : second_answered.state ≡ (run init (two ∷ []), tt)
Reach-messages_of_example =
    Reach-messages_of toy valid silent 2 init tt (message one ∷ message two ∷ []) second_answered
      (two ∷ []) answering refl ((refl, refl), tt)

-- Interrupted while the first worker waits: it returns behind one more message.
abbrev waits : ServerState (TxPool × Outside)
waits = record ready { workers = receiving ∷ [] }

abbrev down : ServerState (TxPool × Outside)
down = record waits {
  interrupt = true;
  state = (step init one, tt);
  workers = returned ∷ [];
  answered = (message one, (serve-step toy valid silent one init tt (refl, refl)).0) ∷ [];
}

leaving :
    Reach toy
      (request_handler toy valid silent)
      (locked toy valid silent)
      (ReadsOnly toy valid silent)
      waits
      (message one ∷ [])
      down
unfolding start
leaving =
    next
      (next (next (next here interrupts) (receives [] [] (message one) refl)) (
        handles [] [] (message one) _ _ refl (locked-frames_of toy valid silent one (refl, refl))
          (serve-step toy valid silent one init tt (refl, refl)).1))
      (tests [] [] refl)

Reach-returned_example : idle waits.workers ≤ length (message one ∷ [])
Reach-returned_example =
    Reach-returned toy (request_handler toy valid silent) (locked toy valid silent)
      (ReadsOnly toy valid silent) waits down (message one ∷ []) leaving (refl, tt)
