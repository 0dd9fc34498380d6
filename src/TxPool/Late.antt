-- ===== src/TxPool/Late.antt =====
-- src/tx_pool.cpp: a pop between a block and its confirmation. `add_block` of src/blockchain.cpp
-- replies before it asks the pool to confirm, so that validators can pop in between.
use memo_coin.Prelude.{
  ℕ, zero, suc, ◌-◌, ◌≡◌, ◌∙◌, ap, ap₂, refl, true, false, List, [], ◌∷◌, ◌++◌, take, drop, All,
  arith,
}
use memo_coin.Data.{Transaction, Block, block_size}
use memo_coin.TxPool.{TxPool, pop_transactions, confirm_transactions}
use memo_coin.TxPool.Set.{contains, Distinct-drop, contains_parts}
use memo_coin.TxPool.Sync.{InSync, pop_transactions-InSync}
use memo_coin.TxPool.Pop.{pop_transactions_lem}
use memo_coin.TxPool.Confirm.{leftover, confirm_transactions_drains}

pub leftover-append :
    (c ts us : List Transaction) → leftover c (ts ++ us) ≡ leftover c ts ++ leftover c us
leftover-append c [] us = refl
leftover-append c (t ∷ ts) us = ground (arith, leftover-append c ts us)

leftover-take :
    (c : List Transaction) (n : ℕ) (ts : List Transaction)
    → All (λ t. contains t c ≡ false) ts
    → leftover c (take n ts) ≡ take n ts
leftover-take c zero ts h = refl
leftover-take c (suc n) [] h = refl
leftover-take c (suc n) (t ∷ ts) h = ground (arith, h.0, leftover-take c n ts h.1)

-- A pop between a block of earlier handed out transactions and a reward, and its confirmation: while
-- the pool is in sync, holds no transaction of the reward's sender and id, and none of the block is
-- still submitted, all transactions that this pop handed out are submitted again at the end, behind
-- those that wait and the older ones that the block does not hold, and none is unconfirmed.
pub confirm_transactions-pop_transactions :
    (x : Block) (p : TxPool) (reward : Transaction)
    → InSync p
    → contains reward x.transactions ≡ true
    → contains reward (p.submitted_queue ++ p.unconfirmed_queue) ≡ false
    → All (λ t. contains t x.transactions ≡ false) p.submitted_queue
    → ((confirm_transactions x (pop_transactions p).0).0.unconfirmed_queue ≡ [])
      × ((confirm_transactions x (pop_transactions p).0).0.submitted_queue
          ≡ drop (block_size - 1) p.submitted_queue
            ++ (leftover x.transactions p.unconfirmed_queue
                ++ take (block_size - 1) p.submitted_queue))
confirm_transactions-pop_transactions x p reward v m n o =
    let (r, s, u) = pop_transactions_lem p in
    let d =
      Distinct-drop (pop_transactions p).0.submitted_queue (pop_transactions p).0.unconfirmed_queue
        (pop_transactions-InSync p v).distinct in
    let (n0, n1) = contains_parts reward (block_size - 1) p.submitted_queue p.unconfirmed_queue n in
    let c = confirm_transactions_drains x (pop_transactions p).0 reward d m (rw u n1) in
    (
      c.0,
      c.1
          ∙ ap₂ ◌++◌ s (
              ap (leftover x.transactions) u
              ∙ leftover-append x.transactions p.unconfirmed_queue
                  (take (block_size - 1) p.submitted_queue)
              ∙ ap (◌++◌ (leftover x.transactions p.unconfirmed_queue))
                  (leftover-take x.transactions (block_size - 1) p.submitted_queue o)),
    )
