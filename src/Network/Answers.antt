-- ===== src/Network/Answers.antt =====
-- src/blockchain.cpp in the whole system: what the queries answer while the servers run.
use memo_coin.Prelude.{ℕ, ◌+◌, ◌%◌, ◌<◌, ◌≡◌, ◌↔◌, none, List, ◌∷◌, Bytes, u32_mod, All}
use memo_coin.Data.{Transaction, Block, Status}
use memo_coin.Keys.{Base58}
use memo_coin.Messages.{ok, Payload}
use memo_coin.BlockChain.{BlockChain, good, start, get_balance, get_total_coins, tx_status}
use memo_coin.BlockChain.Ledger.Balances.{IsTransfer, received_by, sent_by}
use memo_coin.BlockChain.Ledger.Totals.{minted}
use memo_coin.BlockChain.Chain.{IsBlock, all_txs, history}
use memo_coin.BlockChain.Queries.{
  Holds, txs, get_balance-history, get_total_coins-history, tx_status-history,
}
use memo_coin.TxPool.History.{Request}
use memo_coin.Network.Interleaving.{System, Reach}
use memo_coin.Network.Recovery.{Reach-add_blocks}

-- The queries answer what the transactions `ts` amount to.
pub record Answers (ts : List Transaction) (c : BlockChain) : Type 0 where
  pub balance :
      (k : Bytes)
      → (n : ℕ) × (get_balance k c ≡ good (Payload.number n))
        × (n < u32_mod)
        × ((n + sent_by k ts) % u32_mod ≡ received_by k ts % u32_mod)
  pub coins : get_total_coins c ≡ good (Payload.number (minted ts % u32_mod))
  pub confirmed : (src : Bytes) (id : ℕ) → (tx_status src id c ≡ Status.confirmed) ↔ Holds src id ts
  pub unknown : (src : Bytes) (id : ℕ) → (tx_status src id c ≡ Status.unknown) ↔ (¬ Holds src id ts)

module _ (b : Base58) (junk : ℕ) (genesis : Block) (xs : List Block) where
  history-Answers :
      (c : BlockChain)
      → All IsTransfer genesis.transactions
      → All IsBlock xs
      → history b junk genesis xs ≡ ok c
      → Answers (txs b junk genesis xs) c
  history-Answers c g v e = record {
    balance = λ k.
        let (c1, n, f, h, l, s) = get_balance-history b junk genesis xs g v k in
        let u : c1 ≡ c = cc in (n, rw (← u) h, l, s);
    coins =
        let (c1, f, h) = get_total_coins-history b junk genesis xs g v in
        let u : c1 ≡ c = cc in rw (← u) h;
    confirmed = λ src id.
        let (c1, f, h, _) = tx_status-history b junk genesis xs g v src id in
        let u : c1 ≡ c = cc in rw (← u) h;
    unknown = λ src id.
        let (c1, f, _, h) = tx_status-history b junk genesis xs g v src id in
        let u : c1 ≡ c = cc in rw (← u) h;
  }

-- Whatever the interleaving, from a fresh chain: where the taken blocks are of transfers, the
-- blockchain's queries answer at any time for the transactions of the genesis block and of the taken
-- blocks, those of the pending block included. A balance is the number below 2 ^ 32 that is what the
-- key received less what it sent, modulo 2 ^ 32; the total of the coins is the sum of the rewards,
-- modulo 2 ^ 32; the status is `confirmed` exactly for the sender and id of one of the transactions,
-- and `unknown` for all others.
pub Reach-Answers :
    {b : Base58} {s0 s : System} {n : ℕ} {rs : List Request} {xs : List Block} (junk : ℕ)
    (genesis : Block)
    → start b junk genesis none ≡ ok s0.chain
    → All IsTransfer genesis.transactions
    → All IsBlock xs
    → Reach b s0 n rs xs s
    → Answers (all_txs (genesis ∷ xs)) s.chain
Reach-Answers {b = b} {s = s} {xs = xs} junk genesis e g v r =
    history-Answers b junk genesis xs s.chain g v (unfold history in rw e (Reach-add_blocks r))
