-- ===== src/Metronome/Dispatch.antt =====
-- src/metronome.cpp: `request_handler`, on messages, and the requests to the blockchain.
use memo_coin.Prelude.{ℕ, Bool, Bytes, not, ◌==◌, if◌then◌else◌, add32}
use memo_coin.Data.{Block, BlockHeader}
use memo_coin.Messages.{MessageType, Reply, Result, ok, err, Error, ◌>>=◌, is_good}
use memo_coin.Wire.{Alpaca, Server, Handler, call}
use memo_coin.Metronome.{
  Metronome, bad, init, after_submit, get_difficulty, register_validator, query_validators,
  submit_empty_block, empty_block,
}

module _ (alpaca : Alpaca) {E : Type 0} (blockchain : Server E) where
  -- Whether the blockchain answered with STATUS_GOOD: 0 against -1 in the code.
  unfoldable pub submit_block : Block → E → Result (E × Bool)
  submit_block block e = do
    (e', response) ←
        call alpaca blockchain alpaca.block block MessageType.submit_block alpaca.null_message e
    ok (e', is_good response.header.type)

  unfoldable pub request_last_block : E → Result (E × BlockHeader)
  request_last_block e = do
    (e', response) ←
        call alpaca blockchain alpaca.null_message tt MessageType.query_last_block
          alpaca.block_header e
    ok (e', response.payload)

  -- The constructor.
  unfoldable pub create : ℕ → ℕ → E → Result (E × Metronome)
  create prev curr e = do (e', last) ← request_last_block e; ok (e', init prev curr last)

  -- `submit_empty_block` with its request.
  unfoldable pub send_empty_block : Bytes → ℕ → Metronome → E → Result (Metronome × E)
  send_empty_block hash now m e = do
    (e', accepted) ← submit_block (empty_block hash now m) e
    ok (submit_empty_block accepted hash now m, e')

  -- `handle_block` with its request, which a wrong id prevents.
  unfoldable pub submit : Block → Metronome → E → Result ((Metronome × E) × Reply)
  submit x m e = if not (x.header.id == add32 m.last_block.id 1) then ok ((m, e), bad) else (do
    (e', accepted) ← submit_block x e
    let after = after_submit accepted x m
    ok ((after.0, e'), after.1))

  dispatch : MessageType → Bytes → Metronome → E → Result ((Metronome × E) × Reply)
  dispatch MessageType.submit_block payload m e = submit (alpaca.block.deserialize payload) m e
  dispatch MessageType.query_difficulty payload m e = ok ((m, e), get_difficulty m)
  dispatch MessageType.register_validator payload m e =
      let (m', r) = register_validator m in ok ((m', e), r)
  dispatch MessageType.query_num_validators payload m e = ok ((m, e), query_validators m)
  dispatch type payload m e = err Error.unknown_message

  unfoldable pub request_handler : Handler (Metronome × E)
  unfolding dispatch
  request_handler request (m, e) = dispatch request.header.type request.payload m e
