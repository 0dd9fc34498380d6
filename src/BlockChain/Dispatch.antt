-- ===== src/BlockChain/Dispatch.antt =====
-- src/blockchain.cpp: `request_handler`, on messages.
use memo_coin.Prelude.{Bytes}
use memo_coin.Data.{Block}
use memo_coin.Keys.{Base58}
use memo_coin.Messages.{MessageType, Payload, Reply, Result, ok, err, Error, ◌>>=◌}
use memo_coin.Wire.{Alpaca, Server, Handler, call}
use memo_coin.BlockChain.{
  BlockChain, good, add_block, get_balance, last_block, tx_status, get_num_addr, get_total_coins,
}

module _ (alpaca : Alpaca) (b : Base58) {E : Type 0} (tx_pool : Server E) where
  -- `add_block` with its request to the pool. The reply goes to the client before that request; a
  -- client that is faster than the pool is in Network/Interleaving.
  unfoldable pub submit : Block → BlockChain → E → Result ((BlockChain × E) × Reply)
  submit block c e = do
    (c', reply, sent) ← add_block b block c
    (e', response) ← call alpaca tx_pool alpaca.block sent.block sent.type alpaca.null_message e
    ok ((c', e'), reply)

  dispatch : MessageType → Bytes → BlockChain → E → Result ((BlockChain × E) × Reply)
  dispatch MessageType.query_bal payload c e =
      ok ((c, e), get_balance (alpaca.key.deserialize payload) c)
  dispatch MessageType.submit_block payload c e = submit (alpaca.block.deserialize payload) c e
  dispatch MessageType.query_last_block payload c e = do r ← last_block c; ok ((c, e), r)
  dispatch MessageType.query_tx_status payload c e =
      let tx_key = alpaca.tx_key.deserialize payload in
      ok ((c, e), good (Payload.status (tx_status tx_key.0 tx_key.1 c)))
  dispatch MessageType.query_num_addrs payload c e = ok ((c, e), get_num_addr c)
  dispatch MessageType.query_coins payload c e = ok ((c, e), get_total_coins c)
  dispatch type payload c e = err Error.unknown_message

  unfoldable pub request_handler : Handler (BlockChain × E)
  unfolding dispatch
  request_handler request (c, e) = dispatch request.header.type request.payload c e
