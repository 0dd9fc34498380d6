-- ===== src/Network/Origin.antt =====
-- src/validator.cpp beside the servers: what every posted transaction satisfies, the payments of the
-- chain satisfy.
use memo_coin.Prelude.{
  ℕ, ◌-◌, ◌≡◌, ◌∙◌, ap, sym, Bool-cases, inl, inr, Option, List, [], ◌∷◌, ◌++◌, append-nil, Bytes,
  take, All, All-append, All-take, All-of-append,
}
use memo_coin.Data.{Transaction, Block, block_size}
use memo_coin.Keys.{Base58}
use memo_coin.Transactions.{create_reward_transaction}
use memo_coin.TxPool.{init}
use memo_coin.TxPool.Pop.{pop_transactions_lem}
use memo_coin.TxPool.Kept.{posted, posted_by}
use memo_coin.TxPool.History.{Request, posts, pops, confirms}
use memo_coin.TxPool.Typed.{AllHeld, step-AllHeld}
use memo_coin.BlockChain.Ledger.Balances.{is_reward}
use memo_coin.Metronome.{empty_block}
use memo_coin.Validator.{create_block}
use memo_coin.Validator.Rounds.{popped}
use memo_coin.Network.Interleaving.{System, ticks, settles, submits, hands_out}
use memo_coin.Network.Interleaving as Servers
use memo_coin.Network.Alone.{is_reward-create}
use memo_coin.Network.Drain.{posted-append}
use memo_coin.Network.Payments.{payments, payments-append, paid, paid-snoc}
use memo_coin.Network.Ready.{Step-Takes}
use memo_coin.Network.Once.{All-at}
use memo_coin.Network.Validators.{
  Mining, Step, Run, here, next, serves, looks, builds, commits, empties,
}

-- The transactions of the pool, of the built blocks and of the chain satisfy `P`, rewards aside.
pub record AllOf (P : Transaction → Type 0) (w : Mining) (xs : List Block) : Type 0 where
  pub pool : AllHeld P w.servers.pool
  pub built : All (λ x. All P (payments x.transactions)) w.built
  pub chain : All P (paid xs)

module _ (P : Transaction → Type 0) where
  payments-All : (ts : List Transaction) → All P ts → All P (payments ts)
  payments-All [] v = tt
  payments-All (t ∷ ts) v = elim (Bool-cases (is_reward t)) [
    | inl e ↦ rw e (payments-All ts v.1)
    | inr e ↦ rw e (v.0, payments-All ts v.1)
  ]

  reward-All :
      (txs : List Transaction) (pub_key : Bytes) (now : ℕ)
      → All P txs
      → All P (payments (txs ++ create_reward_transaction pub_key now ∷ []))
  reward-All txs pub_key now v =
      let reward = create_reward_transaction pub_key now in
      rw
        (payments-append txs (reward ∷ []), is_reward-create pub_key now, append-nil (payments txs))
        (payments-All txs v)

  serves-All :
      {b : Base58} {s s1 : System} {qs : List Request}
      → All P (posted qs)
      → AllHeld P s.pool
      → Servers.Step b s qs [] s1
      → AllHeld P s1.pool
  serves-All v a (ticks s t) = a
  serves-All v a (settles s x e) = step-AllHeld P s.pool (confirms x) tt a
  serves-All v a (submits s valid tx) =
      step-AllHeld P s.pool (posts valid tx) (rw (append-nil (posted_by (posts valid tx))) at v) a
  serves-All v a (hands_out s) = step-AllHeld P s.pool pops tt a

  taken-AllOf :
      {w : Mining} {xs : List Block} (x : Block) (s : System)
      → s.pool ≡ w.servers.pool
      → All P (payments x.transactions)
      → AllOf P w xs
      → AllOf P (record w { servers = s }) (xs ++ x ∷ [])
  taken-AllOf {xs = xs} x s e v a = record {
    pool = rw e a.pool;
    built = a.built;
    chain = rw (paid-snoc xs x) (All-append P (paid xs) (payments x.transactions) a.chain v);
  }

  Step-AllOf :
      {b : Base58} {may : Option Block → Type 0} {w w1 : Mining} {qs : List Request}
      {xs ys : List Block}
      → All P (posted qs)
      → AllOf P w xs
      → Step b may w qs ys w1
      → AllOf P w1 (xs ++ ys)
  unfolding create_block empty_block
  Step-AllOf {xs = xs} v a (serves w t) =
      rw (append-nil xs) record { pool = serves-All v a.pool t; built = a.built; chain = a.chain }
  Step-AllOf {xs = xs} v a (looks w z e) =
      rw (append-nil xs) record { pool = a.pool; built = a.built; chain = a.chain }
  Step-AllOf {xs = xs} v a
        (builds w before after h pub_key txs reward_time now input solution d e m f) =
      let q = w.servers.pool.submitted_queue in
      let n = block_size - 1 in
      let t : txs ≡ take n q =
        popped txs (take n q) (sym f ∙ (pop_transactions_lem w.servers.pool).0) in
      rw (append-nil xs) record {
        pool = step-AllHeld P w.servers.pool pops tt a.pool;
        built =
            (reward-All txs pub_key reward_time (rw t (All-take P n q a.pool.submitted)), a.built);
        chain = a.chain;
      }
  Step-AllOf {xs = xs} v a (commits w before after x e t) =
      taken-AllOf x _ (Step-Takes t).pool (All-at _ before after x w.built e a.built) a
  Step-AllOf {xs = xs} v a (empties w x hash now e t) =
      let n : x.transactions ≡ [] = ap (λ y. y.transactions) e in
      taken-AllOf x _ (Step-Takes t).pool (rw n tt) a

  pub Run-AllOf :
      {b : Base58} {may : Option Block → Type 0} {w0 w : Mining} {rs : List Request}
      {xs : List Block}
      → w0.servers.pool ≡ init
      → w0.built ≡ []
      → All P (posted rs)
      → Run b may w0 rs xs w
      → AllOf P w xs
  unfolding init
  Run-AllOf e f v here = record {
    pool = rw e record { submitted = tt; unconfirmed = tt };
    built = rw f tt;
    chain = tt;
  }
  Run-AllOf e f v (next {rs = rs} {qs = qs} r t) =
      let u = All-of-append P (posted rs) (posted qs) (rw (posted-append rs qs) at v) in
      Step-AllOf u.1 (Run-AllOf e f u.0 r) t
