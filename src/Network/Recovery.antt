-- ===== src/Network/Recovery.antt =====
-- src/blockchain.cpp in the whole system: a restart of the blockchain between two
-- steps.
use memo_coin.Prelude.{
  ℕ, ◌+◌, ◌%◌, ◌<◌, ◌≡◌, ◌≢◌, ◌∙◌, ap, refl, sym, subst, inl, inr, none, some, List, [], ◌∷◌, ◌++◌,
  append-nil, length, All, add32, u32_mod, map, arith,
}
use memo_coin.Data.{Block, BlockHeader}
use memo_coin.Keys.{Base58}
use memo_coin.Messages.{ok, Reply, Sent, Result-cases}
use memo_coin.BlockChain.{BlockChain, add_block, start}
use memo_coin.BlockChain.Ledger.Balances.{IsTransfer}
use memo_coin.BlockChain.Storage.RoundTrip.{TxNarrow, reread}
use memo_coin.BlockChain.Chain.{IsBlock, add_blocks, history, history_total}
use memo_coin.BlockChain.Restart.{DistinctIds, start-history}
use memo_coin.Metronome.Accepted.{Linked, Reach-Linked}
use memo_coin.TxPool.History.{Request}
use memo_coin.Network.Interleaving.{
  System, ticks, commits, settles, submits, hands_out, Reach, here, next,
}
use memo_coin.Network.Accounts.{Reach-clock}
use memo_coin.Metronome.Steps as Clock

add_blocks_snoc :
    (b : Base58) (xs : List Block) (x : Block) (c d e : BlockChain) (reply : Reply) (sent : Sent)
    → add_blocks b xs c ≡ ok d
    → add_block b x d ≡ ok (e, reply, sent)
    → add_blocks b (xs ++ x ∷ []) c ≡ ok e
unfolding add_blocks
add_blocks_snoc b [] x c d e reply sent f g = let k : c ≡ d = cc in rw (k, g) refl
add_blocks_snoc b (y ∷ xs) x c d e reply sent f g = elim (Result-cases (add_block b y c)) [
  | inr (_, h) ↦ absurd (let k = rw h at f in cc)
  | inl (r, h) ↦ rw h (add_blocks_snoc b xs x r.0 d e reply sent (rw h at f) g)
]

-- The chain of a run is the chain grown by the blocks one after another.
pub Reach-add_blocks :
    {b : Base58} {s0 s : System} {n : ℕ} {rs : List Request} {xs : List Block}
    → Reach b s0 n rs xs s
    → add_blocks b xs s0.chain ≡ ok s.chain
unfolding add_blocks
Reach-add_blocks here = refl
Reach-add_blocks (next {xs = xs} r (ticks s t)) = rw (append-nil xs) (Reach-add_blocks r)
Reach-add_blocks {b = b} {s0 = s0}
      (next {xs = xs} r (commits s x {c = c} {reply = reply} {sent = sent} t p f)) =
    add_blocks_snoc b xs x s0.chain s.chain c reply sent (Reach-add_blocks r) f
Reach-add_blocks (next {xs = xs} r (settles s x p)) = rw (append-nil xs) (Reach-add_blocks r)
Reach-add_blocks (next {xs = xs} r (submits s valid tx)) = rw (append-nil xs) (Reach-add_blocks r)
Reach-add_blocks (next {xs = xs} r (hands_out s)) = rw (append-nil xs) (Reach-add_blocks r)

-- The ids behind a header that is `d` behind `base` do not come back to `base`.
ids_differ :
    (base d : ℕ) (h : BlockHeader) (xs : List Block)
    → Linked h xs
    → base < u32_mod
    → h.id ≡ (base + d) % u32_mod
    → d + length xs < u32_mod
    → All (λ y. y.header.id ≢ base) xs
ids_differ base d h [] l k e s = tt
ids_differ base d h (x ∷ xs) l k e s =
    let f : x.header.id ≡ (base + (d + 1)) % u32_mod = unfold add32 in omega (arith, l.0, e) in
    (λ z. omega (arith, f, z, k, s), ids_differ base (d + 1) x.header xs l.1 k f (omega (arith, s)))

Linked-DistinctIds :
    (h : BlockHeader) (xs : List Block) → Linked h xs → length xs < u32_mod → DistinctIds xs
Linked-DistinctIds h [] l s = tt
Linked-DistinctIds h (x ∷ xs) l s =
    let k : x.header.id < u32_mod = unfold add32 in omega (arith, l.0) in
    (
      ids_differ x.header.id 0 x.header xs l.1 k (omega (arith, k)) (omega (arith, s)),
      Linked-DistinctIds x.header xs l.1 (omega (arith, s)),
    )

-- Whatever the interleaving, from a fresh chain and a waiting metronome: where the taken blocks are
-- fewer than 2 ^ 32, of transfers, and with ids of transactions below 2 ^ 32, the blockchain can be
-- stopped between any two steps and started from its file: that does not throw and recovers the
-- ledger that it had, the pending block's transactions included, and the blocks in their order but
-- for two fields: each has its own hash for the previous one, and an id that is not read.
pub Reach-start :
    {b : Base58} {s0 s : System} {n : ℕ} {rs : List Request} {xs : List Block} (junk : ℕ)
    (genesis : Block)
    → s0.phase ≡ Clock.waiting
    → start b junk genesis none ≡ ok s0.chain
    → All IsTransfer genesis.transactions
    → All IsBlock xs
    → All (λ x. All TxNarrow x.transactions) xs
    → length xs < u32_mod
    → Reach b s0 n rs xs s
    → (c : BlockChain) × (start b junk genesis (some s.chain.file) ≡ ok c)
      × (c.ledger ≡ s.chain.ledger)
      × (c.blocks ≡ genesis ∷ map (reread junk) xs)
unfolding history
Reach-start {b = b} {s = s} {xs = xs} junk genesis f e g v w k r =
    let (l, _) = Reach-Linked (Reach-clock f r).1 in
    let d = Linked-DistinctIds _ xs l k in
    let (c, c', h, i, m, o) = start-history b junk genesis xs g v d w in
    let (c1, h1, _, q) = history_total b junk genesis xs g v in
    let a : history b junk genesis xs ≡ ok s.chain = unfold history in rw e (Reach-add_blocks r) in
    let u : c ≡ s.chain = cc in
    let u1 : c1 ≡ s.chain = cc in
    (
      c',
      subst (λ z. start b junk genesis (some z.file) ≡ ok c') u i,
      m ∙ sym q ∙ ap (λ z. z.ledger) u1,
      o,
    )
