-- ===== src/BlockChain/Restart.antt =====
-- src/blockchain.cpp: a restart from the file that the last `write_block` left.
use memo_coin.Prelude.{
  ℕ, ◌≡◌, ◌≢◌, ◌∙◌, ap, ap₂, refl, sym, some, List, [], ◌∷◌, ◌++◌, append_assoc, append-nil, map,
  All, arith,
}
use memo_coin.Data.{Block}
use memo_coin.Keys.{Base58}
use memo_coin.Messages.{ok}
use memo_coin.BlockChain.{BlockChain, load_genesis, load_blocks, start}
use memo_coin.BlockChain.Ledger.Balances.{IsTransfer, settle}
use memo_coin.BlockChain.Storage.{block_name, other_name, Stored, StoredBlock, put, encode_block}
use memo_coin.BlockChain.Storage.RoundTrip.{TxNarrow, reread, stored_block}
use memo_coin.BlockChain.Chain.{
  IsBlock, all_txs, with_block, add_blocks, add_block-with_block, push_block-settle, history,
  settle-append,
}

-- No entry has the id of the block.
abbrev pub Absent : Block → Stored → Type 0
Absent x = All (λ e. e.0 ≢ block_name x.header.id)

-- No two blocks have the same id.
abbrev pub DistinctIds : List Block → Type 0
DistinctIds [] = Unit
DistinctIds (x ∷ xs) = All (λ y. y.header.id ≢ x.header.id) xs × DistinctIds xs

-- The entries are those of the blocks, in order.
abbrev Stores : Base58 → List Block → Stored → Type 0
Stores b [] s = s ≡ []
Stores b (x ∷ xs) s =
    (node : StoredBlock) × (rest : Stored) × (s ≡ (block_name x.header.id, node) ∷ rest)
    × (encode_block b x ≡ ok node)
    × Stores b xs rest

put-Absent :
    (x : Block) (node : StoredBlock) (s : Stored)
    → Absent x s
    → put x.header.id node s ≡ s ++ (block_name x.header.id, node) ∷ []
unfolding put
put-Absent x node [] a = refl
put-Absent x node ((other_name n, old) ∷ s) a =
    ap (◌∷◌ (other_name n, old)) (put-Absent x node s a.1)
put-Absent x node ((block_name n, old) ∷ s) a = ground (arith, a.0, put-Absent x node s a.1)

Absent-append :
    (x y : Block) (node : StoredBlock) (s : Stored)
    → Absent y s
    → y.header.id ≢ x.header.id
    → Absent y (s ++ (block_name x.header.id, node) ∷ [])
Absent-append x y node [] a n = (λ e. n (ground arith), tt)
Absent-append x y node (e ∷ s) a n = (a.0, Absent-append x y node s a.1 n)

AllAbsent-append :
    (x : Block) (node : StoredBlock) (s : Stored) (ys : List Block)
    → All (λ y. Absent y s) ys
    → All (λ y. y.header.id ≢ x.header.id) ys
    → All (λ y. Absent y (s ++ (block_name x.header.id, node) ∷ [])) ys
AllAbsent-append x node s [] a n = tt
AllAbsent-append x node s (y ∷ ys) a n =
    (Absent-append x y node s a.0 n.0, AllAbsent-append x node s ys a.1 n.1)

-- What the added blocks leave in the file, behind what was stored.
add_blocks-Stores :
    (b : Base58) (xs : List Block) (c : BlockChain)
    → All IsBlock xs
    → DistinctIds xs
    → All (λ y. Absent y c.stored_chain) xs
    → c.file ≡ c.stored_chain
    → (c' : BlockChain) × (s : Stored) × (add_blocks b xs c ≡ ok c')
      × (c'.file ≡ c.stored_chain ++ s)
      × Stores b xs s
unfolding add_blocks
add_blocks-Stores b [] c v d a f = (c, [], refl, f ∙ sym (append-nil c.stored_chain), refl)
add_blocks-Stores b (x ∷ xs) c v d a f =
    let (node, e, _) = stored_block b x v.0.sized in
    let p = put-Absent x node c.stored_chain a.0 in
    let (c', s, g, h, st) =
      add_blocks-Stores b xs (with_block x node c) v.1 d.1
        (rw p (AllAbsent-append x node c.stored_chain xs a.1 d.0)) refl in
    (
      c',
      (block_name x.header.id, node) ∷ s,
      rw (add_block-with_block b x c node v.0.transfers e) g,
      h ∙ ap (λ t. t ++ s) p ∙ append_assoc c.stored_chain ((block_name x.header.id, node) ∷ []) s,
      (node, s, refl, e, st),
    )

load_blocks-Stores :
    (b : Base58) (junk : ℕ) (xs : List Block) (s : Stored) (c : BlockChain)
    → Stores b xs s
    → All IsBlock xs
    → All (λ x. All TxNarrow x.transactions) xs
    → load_blocks b junk s c
      ≡ ok (record c {
        blocks = c.blocks ++ map (reread junk) xs;
        ledger = settle (all_txs xs) c.ledger;
      })
unfolding load_blocks settle
load_blocks-Stores b junk [] s c e v w =
    rw (e, load_blocks) (ap (λ bs. ok (record c { blocks = bs })) (sym (append-nil c.blocks)))
load_blocks-Stores b junk (x ∷ xs) s c (node, rest, e, f, st) v w =
    let (node', f', d) = stored_block b x v.0.sized in
    let n : node' ≡ node = cc in
    let step = rw n at (d w.0 junk) in
    let c1 : BlockChain = record c {
      blocks = c.blocks ++ reread junk x ∷ [];
      ledger = settle x.transactions c.ledger;
    } in
    rw (e, load_blocks)
      (rw (step, push_block-settle b (reread junk x) c v.0.transfers)
        (load_blocks-Stores b junk xs rest c1 st v.1 w.1
          ∙ ap₂ (λ bs l. ok (record c { blocks = bs; ledger = l }))
              (append_assoc c.blocks (reread junk x ∷ []) (map (reread junk) xs))
              (sym (settle-append x.transactions (all_txs xs) c.ledger))))

All-Absent : (xs : List Block) → All (λ y. Absent y []) xs
All-Absent [] = tt
All-Absent (x ∷ xs) = (tt, All-Absent xs)

-- After the genesis block and any blocks of transfers with different ids, whose transactions have
-- ids below 2 ^ 32, a restart from the written file does not throw. It recovers the ledger and,
-- behind the genesis block, the blocks in their order, each with its own hash for the previous one
-- and with an id that is not read.
pub start-history :
    (b : Base58) (junk : ℕ) (genesis : Block) (xs : List Block)
    → All IsTransfer genesis.transactions
    → All IsBlock xs
    → DistinctIds xs
    → All (λ x. All TxNarrow x.transactions) xs
    → (c c' : BlockChain) × (history b junk genesis xs ≡ ok c)
      × (start b junk genesis (some c.file) ≡ ok c')
      × (c'.ledger ≡ settle (all_txs (genesis ∷ xs)) [])
      × (c'.blocks ≡ genesis ∷ map (reread junk) xs)
unfolding history start load_genesis
start-history b junk genesis xs g v d w =
    let fresh : BlockChain = record {
      blocks = genesis ∷ [];
      ledger = settle genesis.transactions [];
      stored_chain = [];
      file = [];
    } in
    let (c, s, e, f, st) = add_blocks-Stores b xs fresh v d (All-Absent xs) refl in
    (
      c,
      record {
        blocks = genesis ∷ map (reread junk) xs;
        ledger = settle (all_txs xs) (settle genesis.transactions []);
        stored_chain = s;
        file = s;
      },
      rw (push_block-settle b genesis (record fresh { blocks = []; ledger = [] }) g) e,
      rw f (
          rw
            (push_block-settle b genesis
              (record { blocks = []; ledger = []; stored_chain = s; file = s }) g)
            (load_blocks-Stores b junk xs s (record fresh { stored_chain = s; file = s }) st v w)),
      sym (settle-append genesis.transactions (all_txs xs) []),
      refl,
    )
