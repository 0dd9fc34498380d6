-- ===== src/Server/Pool.antt =====
-- src/server.cpp with src/tx_pool.cpp: a worker of the pool, and histories of the pool.
use memo_coin.Prelude.{◌≡◌, refl, Bool, true, false, List, [], ◌∷◌, length, All, arith}
use memo_coin.Data.{Transaction}
use memo_coin.Messages.{MessageType, ok}
use memo_coin.Wire.{Alpaca, Frames, Server, send_message, send_reply, serve}
use memo_coin.Wire.RoundTrip.{is_sendable, recv_buffer-send_message, deserialize-serialize}
use memo_coin.TxPool.{TxPool, add_transaction, pop_transactions, confirm_transactions}
use memo_coin.TxPool.History.{Request, step, run}
use memo_coin.TxPool.Dispatch.{request_handler}
use memo_coin.Server.{Turn, server_loop}

module _ (alpaca : Alpaca) {E : Type 0} (valid : Transaction → Bool) (asked : Server E) where
  abbrev pub frames_of : Request → Frames
  frames_of (Request.posts v tx) = send_message alpaca alpaca.transaction tx MessageType.post_tx
  frames_of Request.pops = send_message alpaca alpaca.null_message tt MessageType.pop_tx
  frames_of (Request.confirms b) = send_message alpaca alpaca.block b MessageType.confirm_block

  -- A request whose message is in range; a post comes with the result of its own check.
  abbrev pub Sends : Request → Type 0
  Sends (Request.posts v tx) =
      (v ≡ valid tx) × (is_sendable alpaca alpaca.transaction tx MessageType.post_tx ≡ true)
  Sends Request.pops = is_sendable alpaca alpaca.null_message tt MessageType.pop_tx ≡ true
  Sends (Request.confirms b) = is_sendable alpaca alpaca.block b MessageType.confirm_block ≡ true

  abbrev pub turns_of : List Request → List Turn
  turns_of [] = []
  turns_of (r ∷ rs) = (false, frames_of r) ∷ turns_of rs

  pub serve-step :
      (r : Request) (p : TxPool) (e : E)
      → Sends r
      → (reply : Frames) × (serve alpaca (request_handler alpaca valid asked) (frames_of r) (p, e)
          ≡ ok ((step p r, e), reply))
  unfolding serve request_handler step
  serve-step (Request.posts v tx) p e h = (
    send_reply alpaca (add_transaction (valid tx) tx p).1,
    rw (recv_buffer-send_message alpaca alpaca.transaction tx MessageType.post_tx h.1) (
        rw (deserialize-serialize alpaca alpaca.transaction tx MessageType.post_tx h.1)
          (rw h.0 refl)),
  )
  serve-step Request.pops p e h = (
    send_reply alpaca (pop_transactions p).1,
    rw (recv_buffer-send_message alpaca alpaca.null_message tt MessageType.pop_tx h) refl,
  )
  serve-step (Request.confirms b) p e h = (
    send_reply alpaca (confirm_transactions b p).1,
    rw (recv_buffer-send_message alpaca alpaca.block b MessageType.confirm_block h)
        (rw (deserialize-serialize alpaca alpaca.block b MessageType.confirm_block h) refl),
  )

  -- A worker of the pool that is not interrupted takes the messages of a history of requests,
  -- where they are in range, as the pool takes the requests themselves, and answers each with one
  -- reply.
  pub server_loop-run :
      (rs : List Request) (p : TxPool) (e : E)
      → All Sends rs
      → (replies : List Frames) × (server_loop alpaca
            (request_handler alpaca valid asked)
            (turns_of rs)
            (p, e)
          ≡ ok ((run p rs, e), replies))
        × (length replies ≡ length rs)
  unfolding server_loop run
  server_loop-run [] p e h = ([], refl, refl)
  server_loop-run (r ∷ rs) p e h =
      let (reply, q) = serve-step r p e h.0 in
      let (replies, s, n) = server_loop-run rs (step p r) e h.1 in
      (reply ∷ replies, rw q (rw s refl), omega (arith, n))
