-- ===== src/Server.antt =====
-- src/server.cpp: what one worker of a server does, and the jobs that a server starts. The sockets of
-- ZeroMQ, and its proxy that hands the requests to the workers, are a list of requests.
pub mod Pool
pub mod Workers
pub mod Linear
pub mod PoolWorkers
use memo_coin.Prelude.{ℕ, zero, suc, Bool, true, false, List, [], ◌∷◌, ◌++◌}
use memo_coin.Messages.{Result, ok, ◌>>=◌}
use memo_coin.Wire.{Alpaca, Frames, Handler, serve}

-- A value of `*interrupt` that the loop reads, and the request that comes if it goes on.
abbrev pub Turn : Type 0
Turn = Bool × Frames

module _ (alpaca : Alpaca) {S : Type 0} where
  -- The state and the replies once the turns are over: after the last one the worker waits in
  -- `recv_message`.
  unfoldable pub server_loop : Handler S → List Turn → S → Result (S × List Frames)
  server_loop message_handler [] s = ok (s, [])
  server_loop message_handler ((true, frames) ∷ turns) s = ok (s, [])
  server_loop message_handler ((false, frames) ∷ turns) s = do
    (s, reply) ← serve alpaca message_handler frames s
    (s, replies) ← server_loop message_handler turns s
    ok (s, reply ∷ replies)
