-- ===== src/TxPool/Dispatch.antt =====
-- src/tx_pool.cpp: `request_handler`, on messages. `valid` is the check of a signature.
use memo_coin.Prelude.{ℕ, Bool, Bytes, if◌then◌else◌}
use memo_coin.Data.{Transaction, Status}
use memo_coin.Messages.{MessageType, Payload, Reply, Result, ok, err, Error, ◌>>=◌}
use memo_coin.Wire.{Alpaca, Server, Handler, call}
use memo_coin.TxPool.{
  TxPool, good, probe, add_transaction, pop_transactions, confirm_transactions, query_tx_count,
}
use memo_coin.TxPool.Set.{contains}

module _ (alpaca : Alpaca) {E : Type 0} (valid : Transaction → Bool) (blockchain : Server E) where
  -- `query_tx_status`, which asks the blockchain only if neither set has the transaction.
  unfoldable pub ask_tx_status : Bytes × ℕ → TxPool → E → Result (E × Status)
  ask_tx_status tx_key p e =
      if contains (probe tx_key.0 tx_key.1) p.submitted_set
      then ok (e, Status.submitted)
      else if contains (probe tx_key.0 tx_key.1) p.unconfirmed_set
      then ok (e, Status.unconfirmed)
      else (do
        (e', response) ←
            call alpaca blockchain alpaca.tx_key tx_key MessageType.query_tx_status alpaca.status e
        ok (e', response.payload))

  answer : E → TxPool × Reply → Result ((TxPool × E) × Reply)
  answer e (p, r) = ok ((p, e), r)

  dispatch : MessageType → Bytes → TxPool → E → Result ((TxPool × E) × Reply)
  unfolding answer
  dispatch MessageType.pop_tx payload p e = answer e (pop_transactions p)
  dispatch MessageType.post_tx payload p e =
      let tx = alpaca.transaction.deserialize payload in answer e (add_transaction (valid tx) tx p)
  dispatch MessageType.query_tx_status payload p e = do
    (e', s) ← ask_tx_status (alpaca.tx_key.deserialize payload) p e
    ok ((p, e'), good (Payload.status s))
  dispatch MessageType.query_tx_count payload p e = answer e (p, query_tx_count p)
  dispatch MessageType.confirm_block payload p e =
      answer e (confirm_transactions (alpaca.block.deserialize payload) p)
  dispatch type payload p e = err Error.unknown_message

  unfoldable pub request_handler : Handler (TxPool × E)
  unfolding dispatch
  request_handler request (p, e) = dispatch request.header.type request.payload p e
