-- ===== src/Server/PoolWorkers.antt =====
-- src/server.cpp with src/tx_pool.cpp: the workers of the pool's server, and histories of the pool.
use memo_coin.Prelude.{ℕ, ◌≡◌, ap, refl, Bool, true, false, Bytes, List, [], ◌∷◌, All}
use memo_coin.Data.{Transaction}
use memo_coin.Messages.{MessageType, Result, ok, err}
use memo_coin.Wire.{Alpaca, Frames, Message, Server, recv_buffer}
use memo_coin.Wire.RoundTrip.{recv_buffer-send_message}
use memo_coin.TxPool.{TxPool}
use memo_coin.TxPool.History.{Request, run}
use memo_coin.TxPool.Dispatch.{request_handler}
use memo_coin.Server.Pool.{frames_of, Sends, turns_of, server_loop-run}
use memo_coin.Server.Workers.{ServerState, start, Reach}
use memo_coin.Server.Linear.{requests_of, turns, Reach-server_loop}

module _ (alpaca : Alpaca) {E : Type 0} (valid : Transaction → Bool) (asked : Server E) where
  abbrev pub messages_of : List Request → List Frames
  messages_of [] = []
  messages_of (r ∷ rs) = frames_of alpaca valid asked r ∷ messages_of rs

  turns-messages_of : (rs : List Request) → turns (messages_of rs) ≡ turns_of alpaca valid asked rs
  turns-messages_of [] = refl
  turns-messages_of (r ∷ rs) =
      ap (◌∷◌ (false, frames_of alpaca valid asked r)) (turns-messages_of rs)

  -- `add_transaction`, `pop_transactions`, `confirm_transactions` and `query_tx_status` hold `tx_lock`;
  -- `query_tx_count` does not, and only reads.
  abbrev takes_lock : MessageType → Bool
  takes_lock MessageType.query_tx_count = false
  takes_lock type = true

  abbrev holds_lock : Result (Message Bytes) → Bool
  holds_lock (ok m) = takes_lock m.header.type
  holds_lock (err e) = true

  unfoldable pub locked : Frames → Bool
  locked frames = holds_lock (recv_buffer alpaca frames)

  abbrev pub ReadsOnly : Frames → TxPool × E → TxPool × E → Type 0
  ReadsOnly frames s t = s ≡ t

  pub locked-frames_of :
      (r : Request) → Sends alpaca valid asked r → locked (frames_of alpaca valid asked r) ≡ true
  unfolding locked
  locked-frames_of (Request.posts v tx) h =
      rw (recv_buffer-send_message alpaca alpaca.transaction tx MessageType.post_tx h.1) refl
  locked-frames_of Request.pops h =
      rw (recv_buffer-send_message alpaca alpaca.null_message tt MessageType.pop_tx h) refl
  locked-frames_of (Request.confirms b) h =
      rw (recv_buffer-send_message alpaca alpaca.block b MessageType.confirm_block h) refl

  locked_all :
      (rs : List Request)
      → All (Sends alpaca valid asked) rs
      → All (λ f. locked f ≡ true) (messages_of rs)
  locked_all [] v = tt
  locked_all (r ∷ rs) v = (locked-frames_of r v.0, locked_all rs v.1)

  -- However the workers of the pool's server interleave: if what they answered are, in the order in
  -- which they handled them, the messages of some requests, all in range, then the pool is as after
  -- those requests one after another.
  pub Reach-messages_of :
      (size : ℕ) (p : TxPool) (e : E) (handed : List Frames) (s : ServerState (TxPool × E))
      (rs : List Request)
      → Reach alpaca
          (request_handler alpaca valid asked)
          locked
          ReadsOnly
          (start size (p, e))
          handed
          s
      → requests_of s.answered ≡ messages_of rs
      → All (Sends alpaca valid asked) rs
      → s.state ≡ (run p rs, e)
  Reach-messages_of size p e handed s rs r m v =
      let q =
        Reach-server_loop alpaca (request_handler alpaca valid asked) locked ReadsOnly size (p, e)
          handed s (λ f t u k. k) r (rw m (locked_all rs v)) in
      let (replies, f, _) = server_loop-run alpaca valid asked rs p e v in
      let g = rw (m, turns-messages_of rs) at q in cc
