-- ===== src/Network/Outcomes.antt =====
-- What clients can rely on after any interleaving of the metronome, the blockchain and the pool.
use memo_coin.Prelude.{
  ℕ, ◌≡◌, ◌∙◌, ap, refl, sym, ◌⊎◌, inl, inr, true, ◌||◌, none, some, List, [], ◌∷◌, ◌++◌, Bytes,
  bytes_eq_iff, if◌then◌else◌, Bool-cases, arith,
}
use memo_coin.Data.{Transaction, Block, Status, tx_eq, tx_eq_iff}
use memo_coin.Keys.{Base58}
use memo_coin.TxPool.{init, query_tx_status, probe}
use memo_coin.TxPool.Set.{contains, contains_congr, contains-append}
use memo_coin.TxPool.Kept.{held, posted, confirmed, contains-run-init}
use memo_coin.TxPool.Sync.{InSync}
use memo_coin.BlockChain.{back, in_block, in_blocks, tx_status}
use memo_coin.Metronome.Accepted.{Linked, last_header, Reach-Linked}
use memo_coin.TxPool.History.{Request, posts, pops, confirms, run, NewAlong, run-init-InSync}
use memo_coin.Network.Interleaving.{System, Reach}
use memo_coin.Network.Accounts.{pending_blocks, settled, Reach-Accounted, Reach-clock}
use memo_coin.Metronome.Steps as Clock

module _ {b : Base58} {s0 s : System} {n : ℕ} {rs : List Request} {xs : List Block} where
  -- Whatever the interleaving, from a start with no block pending: the pool is as after the same
  -- requests one after another, and the chain grew by exactly the blocks that the pool confirmed, in
  -- that order, and then the pending one if there is one.
  pub Reach-run :
      s0.pending ≡ none
      → Reach b s0 n rs xs s
      → (s.pool ≡ run s0.pool rs)
        × (s.chain.blocks ≡ s0.chain.blocks ++ (settled rs ++ pending_blocks s.pending))
  Reach-run e r =
      let a = Reach-Accounted r in
      let o = rw e at a.order in (a.pool, a.blocks ∙ ap (◌++◌ s0.chain.blocks) (sym o))

in_blocks_append :
    (src : Bytes) (id : ℕ) (xs ys : List Block)
    → in_blocks src id (xs ++ ys) ≡ (in_blocks src id xs || in_blocks src id ys)
unfolding in_blocks
in_blocks_append src id [] ys = refl
in_blocks_append src id (x ∷ xs) ys = ground (arith, in_blocks_append src id xs ys)

back-cons :
    (x : Block) (xs : List Block)
    → (z : Block) × (back (x ∷ xs) ≡ some z) × (z.header ≡ last_header x.header xs)
back-cons x [] = (x, refl, refl)
back-cons x (y ∷ xs) = back-cons y xs

back-append :
    (ys xs : List Block) (last : Block)
    → back ys ≡ some last
    → (z : Block) × (back (ys ++ xs) ≡ some z) × (z.header ≡ last_header last.header xs)
back-append [] xs last e = absurd cc
back-append (y ∷ []) xs last e = let k : y ≡ last = cc in rw (← k) (back-cons y xs)
back-append (y ∷ z ∷ ys) xs last e = back-append (z ∷ ys) xs last e

-- What is confirmed stays confirmed.
tx_status_grows :
    {b : Base58} {s s' : System} {n : ℕ} {rs : List Request} {xs : List Block} (src : Bytes)
    (id : ℕ)
    → Reach b s n rs xs s'
    → tx_status src id s.chain ≡ Status.confirmed
    → tx_status src id s'.chain ≡ Status.confirmed
unfolding tx_status
tx_status_grows {s = s} {xs = xs} src id r e =
    rw ((Reach-Accounted r).blocks, in_blocks_append src id s.chain.blocks xs)
      (elim (Bool-cases (in_blocks src id s.chain.blocks)) [
        | inl k ↦ rw k refl
        | inr k ↦ absurd (let d = rw k at e in cc)
      ])

contains-in_block :
    (t : Transaction) (ts : List Transaction) → contains t ts ≡ in_block t.src t.id ts
unfolding contains in_block
contains-in_block t [] = refl
contains-in_block t (u ∷ ts) =
    ground (arith, tx_eq_iff t u, bytes_eq_iff u.src t.src, contains-in_block t ts)

-- A transaction that the pool was told is confirmed stands in a settled block.
in_blocks-settled :
    (t : Transaction) (rs : List Request)
    → in_blocks t.src t.id (settled rs) ≡ contains t (confirmed rs)
unfolding in_blocks contains
in_blocks-settled t [] = refl
in_blocks-settled t (posts valid tx ∷ rs) = in_blocks-settled t rs
in_blocks-settled t (pops ∷ rs) = in_blocks-settled t rs
in_blocks-settled t (confirms x ∷ rs) = ground (
  arith,
  contains-append t x.transactions (confirmed rs),
  contains-in_block t x.transactions,
  in_blocks-settled t rs,
)

module _ {b : Base58} {s0 s : System} {n : ℕ} {rs : List Request} {xs : List Block} where
  -- Whatever the interleaving, from a start where the metronome waits and its last block is the
  -- chain's: the chain grew by blocks of consecutive ids, modulo 2 ^ 32, and the metronome's last
  -- block is again the chain's, also while a block is pending.
  pub Reach-back :
      (last : Block)
      → s0.phase ≡ Clock.waiting
      → s0.pending ≡ none
      → back s0.chain.blocks ≡ some last
      → last.header ≡ s0.clock.last_block
      → Reach b s0 n rs xs s
      → (s.chain.blocks ≡ s0.chain.blocks ++ xs)
        × Linked last.header xs
        × ((z : Block) × (back s.chain.blocks ≡ some z) × (z.header ≡ s.clock.last_block))
  Reach-back last f e k h r =
      let (_, c) = Reach-clock f r in
      let (l, d) = Reach-Linked c in
      let a = Reach-Accounted r in
      let (z, i, j) = back-append s0.chain.blocks xs last k in
      (a.blocks, rw h l, (z, rw a.blocks i, j ∙ rw h (sym d)))

  -- Whatever the interleaving, from an empty pool with no block pending: a transaction that was posted
  -- with a valid signature is held by the pool, or the blockchain answers that it is confirmed.
  pub Reach-posted :
      (t : Transaction)
      → s0.pending ≡ none
      → s0.pool ≡ init
      → Reach b s0 n rs xs s
      → contains t (posted rs) ≡ true
      → (contains t (held s.pool) ≡ true) ⊎ (tx_status t.src t.id s.chain ≡ Status.confirmed)
  unfolding tx_status
  Reach-posted t e i r h =
      let (p, c) = Reach-run e r in
      elim (Bool-cases (contains t (held s.pool))) [
        | inl k ↦ inl k
        | inr k ↦
            let q = contains-run-init t rs in
            let u = in_blocks-settled t rs in
            let v = rw (p, i) at k in
            let w : contains t (confirmed rs) ≡ true = ground arith in
            inr (
              rw
                (
                  c,
                  in_blocks_append t.src t.id s0.chain.blocks
                      (settled rs ++ pending_blocks s.pending),
                  in_blocks_append t.src t.id (settled rs) (pending_blocks s.pending),
                  u,
                  w,
                )
                (ground arith))
      ]

  -- Whatever the interleaving, from an empty pool with no block pending, and where no transaction is
  -- posted while the pool holds one of the same sender and id: a status query about a transaction
  -- that was posted with a valid signature answers `submitted` or `unconfirmed` for the queue where
  -- it waits and `confirmed` if it is in none, whatever the metronome and the blockchain do while the
  -- pool, locked, waits for the blockchain's answer.
  pub Reach-query_tx_status :
      {s' : System} {m : ℕ} {ys : List Block} (t : Transaction)
      → s0.pending ≡ none
      → s0.pool ≡ init
      → NewAlong init rs
      → Reach b s0 n rs xs s
      → contains t (posted rs) ≡ true
      → Reach b s m [] ys s'
      → query_tx_status (tx_status t.src t.id s'.chain) t.src t.id s.pool ≡ (
          if contains t s.pool.submitted_queue
          then Status.submitted
          else if contains t s.pool.unconfirmed_queue
          then Status.unconfirmed
          else Status.confirmed)
  unfolding query_tx_status
  Reach-query_tx_status {s' = s'} {ys = ys} t e i w r h r' =
      let p = Reach-run e r in
      let v : InSync s.pool = rw (p.0, i) (run-init-InSync rs w) in
      let k : tx_eq (probe t.src t.id) t ≡ true = (tx_eq_iff (probe t.src t.id) t).1 (refl, refl) in
      let q = probe t.src t.id in
      rw
        (
          v.submitted q,
          v.unconfirmed q,
          contains_congr q t s.pool.submitted_queue k,
          contains_congr q t s.pool.unconfirmed_queue k,
        )
        (elim (Reach-posted t e i r h) [
          | inl o ↦
              ground (arith, contains-append t s.pool.submitted_queue s.pool.unconfirmed_queue)
          | inr o ↦ rw (tx_status_grows t.src t.id r' o) refl
        ])
