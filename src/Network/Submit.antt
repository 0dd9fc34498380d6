-- ===== src/Network/Submit.antt =====
-- What a client's request to a server does, through the messages, to the servers behind it.
use memo_coin.Prelude.{◌-◌, ◌≡◌, refl, Bool, true, false, ◌==◌, take, add32, arith}
use memo_coin.Data.{Transaction, Block, block_size}
use memo_coin.Keys.{Base58}
use memo_coin.Messages.{MessageType, Payload, ok, is_good}
use memo_coin.Wire.{Alpaca, Codec, Server, call, send_reply, send_message}
use memo_coin.Wire.RoundTrip.{is_sendable, message_of, call-serve, deserialize-serialize}
use memo_coin.TxPool.{TxPool, good, add_transaction, pop_transactions, confirm_transactions}
use memo_coin.TxPool.Pop.{pop_transactions_lem}
use memo_coin.BlockChain.{BlockChain}
use memo_coin.BlockChain.Chain.{IsBlock, with_block, add_block-with_block}
use memo_coin.BlockChain.Storage.{StoredBlock, encode_block}
use memo_coin.BlockChain.Storage.RoundTrip.{stored_block}
use memo_coin.Metronome.{Metronome, bad, handle_block}
use memo_coin.TxPool.Dispatch as Pool
use memo_coin.BlockChain.Dispatch as Chain
use memo_coin.Metronome.Dispatch as Clock
use memo_coin.Clients.{submit_transaction, submit_block}
use memo_coin.Network.{tx_pool, blockchain, metronome}

module _ (alpaca : Alpaca) (b : Base58) {E : Type 0} where
  module _ (valid : Transaction → Bool) (asked : Server E) where
    abbrev pub Sendable : {A : Type 0} → Codec A → A → MessageType → Type 0
    Sendable codec message type = is_sendable alpaca codec message type ≡ true

    -- Replies with no payload.
    pub record Acknowledges : Type 0 where
      pub good : Sendable alpaca.null_message tt MessageType.status_good
      pub bad : Sendable alpaca.null_message tt MessageType.status_bad

    posted :
        (v : Bool) (tx : Transaction) (p : TxPool)
        → Acknowledges
        → (send_reply alpaca (add_transaction v tx p).1
            ≡ send_message alpaca alpaca.null_message tt (add_transaction v tx p).1.type)
          × Sendable alpaca.null_message tt (add_transaction v tx p).1.type
          × (is_good (add_transaction v tx p).1.type ≡ v)
    unfolding add_transaction send_reply is_good
    posted false tx p a = (refl, a.bad, refl)
    posted true tx p a = (refl, a.good, refl)

    -- A transaction that a client posts reaches the pool through the messages: the pool does what
    -- `add_transaction` does, and the client learns whether the signature is valid.
    pub submit_transaction-add_transaction :
        (tx : Transaction) (p : TxPool) (e : E)
        → Acknowledges
        → Sendable alpaca.transaction tx MessageType.post_tx
        → submit_transaction alpaca (tx_pool alpaca b valid asked) tx (p, e)
          ≡ ok (((add_transaction (valid tx) tx p).0, e), valid tx)
    unfolding submit_transaction Pool.request_handler
    submit_transaction-add_transaction tx p e a h =
        let (r, k, g) = posted (valid tx) tx p a in
        let c =
          call-serve alpaca (Pool.request_handler alpaca valid asked) alpaca.transaction
            alpaca.null_message tx MessageType.post_tx (p, e)
            ((add_transaction (valid tx) tx p).0, e) (add_transaction (valid tx) tx p).1 tt h k r
            (rw (deserialize-serialize alpaca alpaca.transaction tx MessageType.post_tx h) refl) in
        rw c (rw g refl)

    pop_reply :
        (p : TxPool)
        → (pop_transactions p).1
          ≡ good (Payload.transactions (take (block_size - 1) p.submitted_queue))
    pop_reply p = (pop_transactions_lem p).0

    pub pops :
        (p : TxPool) (e : E)
        → Sendable alpaca.null_message tt MessageType.pop_tx
        → Sendable alpaca.transactions
            (take (block_size - 1) p.submitted_queue)
            MessageType.status_good
        → call alpaca
            (tx_pool alpaca b valid asked)
            alpaca.null_message
            tt
            MessageType.pop_tx
            alpaca.transactions
            (p, e)
          ≡ ok (
            ((pop_transactions p).0, e),
            message_of alpaca alpaca.transactions
                (take (block_size - 1) p.submitted_queue)
                MessageType.status_good,
          )
    unfolding Pool.request_handler
    pops p e h k =
        let txs = take (block_size - 1) p.submitted_queue in
        call-serve alpaca (Pool.request_handler alpaca valid asked) alpaca.null_message
          alpaca.transactions tt MessageType.pop_tx (p, e) ((pop_transactions p).0, e)
          (good (Payload.transactions txs)) txs h k (unfold send_reply in refl)
          (rw (pop_reply p) refl)

    -- The pool's part of an added block.
    confirms :
        (x : Block) (p : TxPool) (e : E)
        → Acknowledges
        → Sendable alpaca.block x MessageType.confirm_block
        → call alpaca
            (tx_pool alpaca b valid asked)
            alpaca.block
            x
            MessageType.confirm_block
            alpaca.null_message
            (p, e)
          ≡ ok (
            ((confirm_transactions x p).0, e),
            message_of alpaca alpaca.null_message tt MessageType.status_good,
          )
    unfolding Pool.request_handler
    confirms x p e a h =
        call-serve alpaca (Pool.request_handler alpaca valid asked) alpaca.block alpaca.null_message
          x MessageType.confirm_block (p, e) ((confirm_transactions x p).0, e) (good Payload.null)
          tt h a.good (unfold send_reply in refl)
          (rw (deserialize-serialize alpaca alpaca.block x MessageType.confirm_block h)
            (unfold confirm_transactions in refl))

    -- The blockchain's part of an accepted block, the pool's included.
    adds :
        (x : Block) (node : StoredBlock) (c : BlockChain) (p : TxPool) (e : E)
        → IsBlock x
        → encode_block b x ≡ ok node
        → Acknowledges
        → Sendable alpaca.block x MessageType.confirm_block
        → Sendable alpaca.block x MessageType.submit_block
        → call alpaca
            (blockchain alpaca b valid asked)
            alpaca.block
            x
            MessageType.submit_block
            alpaca.null_message
            (c, (p, e))
          ≡ ok (
            (with_block x node c, ((confirm_transactions x p).0, e)),
            message_of alpaca alpaca.null_message tt MessageType.status_good,
          )
    unfolding Chain.request_handler Chain.submit
    adds x node c p e v n a h k =
        call-serve alpaca (Chain.request_handler alpaca b (tx_pool alpaca b valid asked))
          alpaca.block alpaca.null_message x MessageType.submit_block (c, (p, e))
          (with_block x node c, ((confirm_transactions x p).0, e)) (good Payload.null) tt k a.good
          (unfold send_reply in refl)
          (rw (deserialize-serialize alpaca alpaca.block x MessageType.submit_block k)
            (rw (add_block-with_block b x c node v.transfers n) (rw (confirms x p e a h) refl)))

    -- The metronome's part, where the blockchain accepts.
    takes :
        (x : Block) (m : Metronome) (s s' : BlockChain × (TxPool × E))
        → x.header.id ≡ add32 m.last_block.id 1
        → Clock.submit_block alpaca (blockchain alpaca b valid asked) x s ≡ ok (s', true)
        → Clock.submit alpaca (blockchain alpaca b valid asked) x m s
          ≡ ok (((handle_block true x m).0, s'), good Payload.null)
    unfolding Clock.submit handle_block
    takes x m s s' i q =
        let g : (x.header.id == add32 m.last_block.id 1) ≡ true = ground arith in rw g (rw q refl)

    accepted :
        (x : Block) (node : StoredBlock) (c : BlockChain) (p : TxPool) (e : E)
        → IsBlock x
        → encode_block b x ≡ ok node
        → Acknowledges
        → Sendable alpaca.block x MessageType.confirm_block
        → Sendable alpaca.block x MessageType.submit_block
        → Clock.submit_block alpaca (blockchain alpaca b valid asked) x (c, (p, e))
          ≡ ok ((with_block x node c, ((confirm_transactions x p).0, e)), true)
    unfolding Clock.submit_block is_good
    accepted x node c p e v n a h k = rw (adds x node c p e v n a h k) refl

    -- A block that a validator submits, with the id after the metronome's last block: through the
    -- messages the metronome takes it, the blockchain adds, settles and stores it, the pool
    -- confirms its transactions, and the validator learns that it was accepted.
    pub submit_block-with_block :
        (x : Block) (m : Metronome) (c : BlockChain) (p : TxPool) (e : E)
        → IsBlock x
        → x.header.id ≡ add32 m.last_block.id 1
        → Acknowledges
        → Sendable alpaca.block x MessageType.confirm_block
        → Sendable alpaca.block x MessageType.submit_block
        → (node : StoredBlock) × (encode_block b x ≡ ok node)
          × (submit_block alpaca (metronome alpaca b valid asked) x (m, (c, (p, e)))
              ≡ ok (
                (
                  (handle_block true x m).0,
                  (with_block x node c, ((confirm_transactions x p).0, e)),
                ),
                true,
              ))
    unfolding submit_block Clock.request_handler Clock.submit
    submit_block-with_block x m c p e v i a h k =
        let (node, n, _) = stored_block b x v.sized in
        let q = accepted x node c p e v n a h k in
        let r =
          call-serve alpaca (Clock.request_handler alpaca (blockchain alpaca b valid asked))
            alpaca.block alpaca.null_message x MessageType.submit_block (m, (c, (p, e)))
            ((handle_block true x m).0, (with_block x node c, ((confirm_transactions x p).0, e)))
            (good Payload.null) tt k a.good (unfold send_reply in refl)
            (rw (deserialize-serialize alpaca alpaca.block x MessageType.submit_block k)
              (takes x m (c, (p, e)) _ i q)) in
        (node, n, rw r (unfold is_good in refl))

    -- A block with another id is refused through the messages: no server's state changes.
    pub submit_block_refused :
        (x : Block) (m : Metronome) (s : BlockChain × (TxPool × E))
        → (x.header.id == add32 m.last_block.id 1) ≡ false
        → Acknowledges
        → Sendable alpaca.block x MessageType.submit_block
        → submit_block alpaca (metronome alpaca b valid asked) x (m, s) ≡ ok ((m, s), false)
    unfolding submit_block Clock.request_handler Clock.submit
    submit_block_refused x m s i a k =
        let r =
          call-serve alpaca (Clock.request_handler alpaca (blockchain alpaca b valid asked))
            alpaca.block alpaca.null_message x MessageType.submit_block (m, s) (m, s) bad tt k a.bad
            (unfold send_reply in refl)
            (rw (deserialize-serialize alpaca alpaca.block x MessageType.submit_block k)
              (rw i refl)) in
        rw r (unfold is_good in refl)
