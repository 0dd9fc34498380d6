-- ===== src/Network/Lifecycle.antt =====
-- A transaction from the client that posts it to the block that confirms it.
use memo_coin.Prelude.{
  ℕ, zero, suc, ◌-◌, ◌<◌, ◌≡◌, refl, inl, inr, Bool, true, false, some, List, [], ◌∷◌, ◌++◌, Bytes,
  length, take, arith,
}
use memo_coin.Data.{Transaction, Block, BlockHeader, Status, block_size}
use memo_coin.Keys.{Base58}
use memo_coin.Messages.{MessageType, ok}
use memo_coin.Wire.{Alpaca, Server}
use memo_coin.Consensus.{Solution}
use memo_coin.TxPool.{TxPool, add_transaction}
use memo_coin.BlockChain.{BlockChain, back, tx_status}
use memo_coin.BlockChain.Chain.{IsBlock}
use memo_coin.BlockChain.Queries.{Holds, tx_status-with_block}
use memo_coin.Metronome.{Metronome}
use memo_coin.Clients.{submit_transaction}
use memo_coin.Validator.{is_new, is_null_hash, create_block, deadline}
use memo_coin.Validator.Loop.{Surroundings, iterate}
use memo_coin.Network.{tx_pool}
use memo_coin.Network.Submit.{Sendable, submit_transaction-add_transaction}
use memo_coin.Network.Round.{validator, built, Reaches, iterate-with_block}

Holds-append :
    (src : Bytes) (id : ℕ) (ts us : List Transaction) → Holds src id ts → Holds src id (ts ++ us)
Holds-append src id [] us h = absurd h
Holds-append src id (t ∷ ts) us (inl e) = inl e
Holds-append src id (t ∷ ts) us (inr h) = inr (Holds-append src id ts us h)

Holds-take :
    (t : Transaction) (n : ℕ) (ts : List Transaction)
    → length ts < n
    → Holds t.src t.id (take n (ts ++ t ∷ []))
Holds-take t zero ts h = absurd (omega arith)
Holds-take t (suc n) [] h = inl (refl, refl)
Holds-take t (suc n) (u ∷ ts) h = inr (Holds-take t n ts (omega arith))

queued :
    (t : Transaction) (p : TxPool)
    → (add_transaction true t p).0.submitted_queue ≡ p.submitted_queue ++ t ∷ []
unfolding add_transaction
queued t p = refl

module _ (alpaca : Alpaca) (b : Base58) {E : Type 0} where
  module _ (valid : Transaction → Bool) (asked : Server E) (pub_key : Bytes) where
    -- The messages being in range: a transaction with a valid signature, posted while fewer than
    -- `block_size - 1` others wait, is accepted, and where a validator then finds the last block
    -- of the chain new, solves its problem and builds a block of transfers, and the metronome has
    -- that block for its last, the validator's round ends with the transaction confirmed by the
    -- blockchain.
    pub submit_transaction-tx_status :
        (t : Transaction) (m : Metronome) (c : BlockChain) (p : TxPool) (e : E) (g : Surroundings)
        (last : Block) (solution : Solution) (n : ℕ) (curr_block : BlockHeader)
        → valid t ≡ true
        → length p.submitted_queue < block_size - 1
        → Sendable alpaca b valid asked alpaca.transaction t MessageType.post_tx
        → Reaches alpaca b valid asked pub_key m c (add_transaction true t p).0 e g last solution
        → g.requests ≡ suc n
        → back c.blocks ≡ some last
        → is_new curr_block last.header ≡ true
        → g.solve last.header.hash m.difficulty (deadline last.header) ≡ ok solution
        → is_null_hash solution.hash ≡ false
        → last.header.id ≡ m.last_block.id
        → IsBlock (
            built alpaca b valid asked pub_key m c
              (add_transaction true t p).0
              e
              g
              last.header
              solution)
        → (p1 : TxPool) × (m' : Metronome) × (c' : BlockChain) × (p' : TxPool) × (submit_transaction
              alpaca
              (tx_pool alpaca b valid asked)
              t
              (p, e)
            ≡ ok ((p1, e), true))
          × (iterate alpaca (validator alpaca b valid asked pub_key) g curr_block (m, (c, (p1, e)))
              ≡ ok ((m', (c', (p', e))), last.header))
          × (tx_status t.src t.id c' ≡ Status.confirmed)
    unfolding create_block
    submit_transaction-tx_status t m c p e g last solution n curr_block v l k r f h w s z i d =
        let p1 = (add_transaction true t p).0 in
        let (node, _, q) =
          iterate-with_block alpaca b valid asked pub_key m c p1 e g last solution r n curr_block f
            h w s z i d in
        let x = built alpaca b valid asked pub_key m c p1 e g last.header solution in
        let o : Holds t.src t.id x.transactions =
          rw (queued t p)
            (Holds-append t.src t.id _ _ (Holds-take t (block_size - 1) p.submitted_queue l)) in
        (
          p1,
          _,
          _,
          _,
          rw (submit_transaction-add_transaction alpaca b valid asked t p e r.acknowledges k)
              (rw v refl),
          q,
          tx_status-with_block t.src t.id x node c o,
        )
