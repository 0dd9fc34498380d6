-- ===== src/Network/Balances.antt =====
-- src/blockchain.cpp beside validators: the balances when the pool is empty.
use memo_coin.Prelude.{
  ℕ, ◌+◌, ◌%◌, ◌<◌, ◌≡◌, ◌∙◌, ap, refl, none, List, [], ◌∷◌, ◌++◌, Bytes, if◌then◌else◌, length,
  u32_mod, All, arith,
}
use memo_coin.Data.{Transaction, Block}
use memo_coin.Keys.{Base58}
use memo_coin.Messages.{ok, Payload}
use memo_coin.TxPool.Set.{Distinct}
use memo_coin.TxPool.Kept.{held, posted}
use memo_coin.TxPool.History.{Request}
use memo_coin.BlockChain.{good, start, get_balance}
use memo_coin.BlockChain.Ledger.Balances.{IsTransfer, is_reward, received_by, sent_by}
use memo_coin.BlockChain.Chain.{IsBlock, all_txs}
use memo_coin.BlockChain.Unordered.{received_by-perm, sent_by-perm}
use memo_coin.Network.Answers.{Reach-Answers}
use memo_coin.Network.Payments.{IsPaid, payments, payments-append, paid}
use memo_coin.Network.Once.{Fresh}
use memo_coin.Network.Exactly.{Run-Perm}
use memo_coin.Network.Validators.{Unpending, Mining, Run, Run-Reach}

abbrev pub rewards : List Transaction → List Transaction
rewards [] = []
rewards (t ∷ ts) = if is_reward t then t ∷ rewards ts else rewards ts

payments-all_txs : (xs : List Block) → payments (all_txs xs) ≡ paid xs
payments-all_txs [] = refl
payments-all_txs (x ∷ xs) =
    payments-append x.transactions (all_txs xs)
    ∙ ap (◌++◌ (payments x.transactions)) (payments-all_txs xs)

module _ (k : Bytes) where
  received_by-append :
      (ts us : List Transaction) → received_by k (ts ++ us) ≡ received_by k ts + received_by k us
  received_by-append [] us = omega arith
  received_by-append (t ∷ ts) us = ground (arith, received_by-append ts us)

  sent_by-append : (ts us : List Transaction) → sent_by k (ts ++ us) ≡ sent_by k ts + sent_by k us
  sent_by-append [] us = omega arith
  sent_by-append (t ∷ ts) us = ground (arith, sent_by-append ts us)

  -- Payments and rewards apart.
  received_by-payments :
      (ts : List Transaction)
      → received_by k ts ≡ received_by k (payments ts) + received_by k (rewards ts)
  received_by-payments [] = omega arith
  received_by-payments (t ∷ ts) = ground (arith, received_by-payments ts)

  sent_by-payments : (ts : List Transaction) → sent_by k ts ≡ sent_by k (payments ts)
  sent_by-payments [] = refl
  sent_by-payments (t ∷ ts) = ground (arith, sent_by-payments ts)

-- Any number of validators beside the servers, from an empty pool with no block pending, a waiting
-- metronome whose last block is the chain's, and no header taken and no block built yet, the chain
-- being a fresh one, where the transactions of the genesis block and of the taken blocks are
-- transfers, no two transactions that were posted with a valid signature share sender and id and
-- none has the zero key for its sender, the ids of blocks stay below 2 ^ 32, and no validator
-- builds a block between the time a block is taken and the time the pool has confirmed it:
-- whenever the pool is empty and no block is pending, the blockchain answers for every key the
-- number below 2 ^ 32 that is, modulo 2 ^ 32, what the key received in the genesis block, in the
-- posted transactions and in the rewards of the taken blocks, less what it sent in the genesis
-- block and in the posted transactions.
pub Run-get_balance :
    {b : Base58} {w0 w : Mining} {rs : List Request} {xs : List Block} (junk : ℕ) (genesis : Block)
    (k : Bytes)
    → start b junk genesis none ≡ ok w0.servers.chain
    → All IsTransfer genesis.transactions
    → All IsBlock xs
    → Fresh w0 genesis
    → Distinct (posted rs)
    → All IsPaid (posted rs)
    → genesis.header.id + length xs < u32_mod
    → Run b Unpending w0 rs xs w
    → w.servers.pending ≡ none
    → held w.servers.pool ≡ []
    → (n : ℕ) × (get_balance k w.servers.chain ≡ good (Payload.number n))
      × (n < u32_mod)
      × ((n + (sent_by k genesis.transactions + sent_by k (posted rs))) % u32_mod
          ≡ (received_by k genesis.transactions
              + (received_by k (posted rs) + received_by k (rewards (all_txs xs))))
            % u32_mod)
Run-get_balance {rs = rs} {xs = xs} junk genesis k s g v f d y l r p e =
    let (_, q) = Run-Reach r in
    let (n, h, m, a) = (Reach-Answers junk genesis s g v q).balance k in
    let u = Run-Perm genesis f d y l r p e in
    let ts = all_txs xs in
    let c = payments-all_txs xs in
    (
      n,
      h,
      m,
      omega (
        arith,
        a,
        sent_by-append k genesis.transactions ts,
        received_by-append k genesis.transactions ts,
        sent_by-payments k ts,
        received_by-payments k ts,
        ap (sent_by k) c,
        ap (received_by k) c,
        sent_by-perm k u,
        received_by-perm k u,
      ),
    )
