-- ===== src/BlockChain/Queries.antt =====
-- src/blockchain.cpp: what the queries answer after any history of added blocks.
use memo_coin.Prelude.{
  ℕ, ◌+◌, ◌%◌, ◌<◌, ◌≡◌, ◌↔◌, ◌⊎◌, inl, inr, ◌∙◌, ap, refl, Bool, true, false, ◌||◌, Option, none,
  some, Option-cases, List, [], ◌∷◌, ◌++◌, Bytes, bytes_eq_iff, if◌then◌else◌, add32, sub32,
  add32-lt, sub32-lt, u32_mod, All, All-append, Bool-cases, arith,
}
use memo_coin.Data.{Transaction, Block, Status}
use memo_coin.Keys.{Base58}
use memo_coin.Messages.{ok, Payload}
use memo_coin.BlockChain.{
  BlockChain, good, get_balance, get_total_coins, add_entries, in_block, in_blocks, tx_status,
}
use memo_coin.BlockChain.Storage.{StoredBlock}
use memo_coin.BlockChain.Ledger.{
  Ledger, find, assign, emplace, credit, debit, apply_tx, value_of, total,
}
use memo_coin.BlockChain.Ledger.Balances.{
  IsTransfer, is_reward, settle, settle-value_of, received_by, sent_by,
}
use memo_coin.BlockChain.Ledger.Totals.{minted, settle-total}
use memo_coin.BlockChain.Chain.{
  IsBlock, all_txs, all_txs-transfers, history, history_total, with_block,
}

-- Every balance fits its type.
abbrev pub Fits : Ledger → Type 0
Fits = All (λ e. e.1 < u32_mod)

assign-Fits : (k : Bytes) (v : ℕ) (l : Ledger) → v < u32_mod → Fits l → Fits (assign k v l)
unfolding assign
assign-Fits k v [] h f = (h, tt)
assign-Fits k v ((j, w) ∷ l) h f = ground (arith, assign-Fits k v l h f.1)

emplace-Fits : (k : Bytes) (v : ℕ) (l : Ledger) → v < u32_mod → Fits l → Fits (emplace k v l)
unfolding emplace
emplace-Fits k v l h f = elim (Option-cases (find k l)) [
  | inl e ↦ rw (e, emplace) (h, f)
  | inr (w, e) ↦ rw (e, emplace) f
]

credit-Fits : (t : Transaction) (l : Ledger) → t.amount < u32_mod → Fits l → Fits (credit t l)
unfolding credit
credit-Fits t l h f = elim (Option-cases (find t.dest l)) [
  | inl e ↦ rw (e, credit) (emplace-Fits t.dest t.amount l h f)
  | inr (v, e) ↦ rw (e, credit) (assign-Fits t.dest (add32 v t.amount) l (add32-lt v t.amount) f)
]

debit-Fits : (found : Option ℕ) (t : Transaction) (l : Ledger) → Fits l → Fits (debit found t l)
unfolding debit
debit-Fits none t l f = emplace-Fits t.src (sub32 0 t.amount) l (sub32-lt 0 t.amount) f
debit-Fits (some _) t l f =
    let v = value_of t.src l in assign-Fits t.src (sub32 v t.amount) l (sub32-lt v t.amount) f

pub settle-Fits :
    (ts : List Transaction) (l : Ledger) → All IsTransfer ts → Fits l → Fits (settle ts l)
unfolding settle apply_tx
settle-Fits [] l v f = f
settle-Fits (t ∷ ts) l v f =
    settle-Fits ts (apply_tx (is_reward t) t l) v.1 (elim (Bool-cases (is_reward t)) [
      | inl e ↦ rw e (credit-Fits t l v.0.small f)
      | inr e ↦ rw e (debit-Fits (find t.src l) t (credit t l) (credit-Fits t l v.0.small f))
    ])

pub value_of-lt : (k : Bytes) (l : Ledger) → Fits l → value_of k l < u32_mod
unfolding value_of find
value_of-lt k [] f = omega arith
value_of-lt k ((j, v) ∷ l) f = ground (arith, value_of-lt k l f.1)

pub value_of_nil : (k : Bytes) → value_of k [] ≡ 0
unfolding value_of find
value_of_nil k = refl

pub add_entries-total :
    (s : ℕ) (l : Ledger) → s < u32_mod → add_entries s l ≡ (s + total l) % u32_mod
unfolding add_entries total add32
add_entries-total s [] h = omega arith
add_entries-total s ((k, v) ∷ l) h =
    omega (arith, add_entries-total ((s + v) % u32_mod) l (omega arith))

-- A transaction of that sender and id stands in the list.
abbrev pub Holds : Bytes → ℕ → List Transaction → Type 0
Holds src id [] = ⊥
Holds src id (t ∷ ts) = ((t.src ≡ src) × (t.id ≡ id)) ⊎ Holds src id ts

in_block_iff :
    (src : Bytes) (id : ℕ) (ts : List Transaction) → (in_block src id ts ≡ true) ↔ Holds src id ts
unfolding in_block
in_block_iff src id [] = (λ e. cc, λ h. absurd h)
in_block_iff src id (t ∷ ts) = ground (arith, bytes_eq_iff t.src src, in_block_iff src id ts)

pub in_block-append :
    (src : Bytes) (id : ℕ) (ts us : List Transaction)
    → in_block src id (ts ++ us) ≡ (in_block src id ts || in_block src id us)
unfolding in_block
in_block-append src id [] us = refl
in_block-append src id (t ∷ ts) us = ground (arith, in_block-append src id ts us)

in_blocks-all_txs :
    (src : Bytes) (id : ℕ) (xs : List Block) → in_blocks src id xs ≡ in_block src id (all_txs xs)
unfolding in_blocks in_block
in_blocks-all_txs src id [] = refl
in_blocks-all_txs src id (x ∷ xs) =
    ground (arith, in_blocks-all_txs src id xs, in_block-append src id x.transactions (all_txs xs))

in_blocks-append :
    (src : Bytes) (id : ℕ) (xs : List Block) (x : Block)
    → in_block src id x.transactions ≡ true
    → in_blocks src id (xs ++ x ∷ []) ≡ true
unfolding in_blocks
in_blocks-append src id [] x h = ground (arith, h)
in_blocks-append src id (y ∷ xs) x h = ground (arith, in_blocks-append src id xs x h)

-- The transactions of a block that the chain has taken are confirmed.
pub tx_status-with_block :
    (src : Bytes) (id : ℕ) (x : Block) (node : StoredBlock) (c : BlockChain)
    → Holds src id x.transactions
    → tx_status src id (with_block x node c) ≡ Status.confirmed
unfolding tx_status
tx_status-with_block src id x node c h =
    rw (in_blocks-append src id c.blocks x ((in_block_iff src id x.transactions).1 h)) refl

abbrev status_of : Bool → Status
status_of found = if found then Status.confirmed else Status.unknown

status_iff :
    {P : Type 0} (found : Bool) → (found ≡ true) ↔ P → (status_of found ≡ Status.confirmed) ↔ P
status_iff true h = (λ e. h.0 refl, λ p. refl)
status_iff false h = (λ e. cc, λ p. cc (h.1 p))

unknown_iff :
    {P : Type 0} (found : Bool) → (found ≡ true) ↔ P → (status_of found ≡ Status.unknown) ↔ (¬ P)
unknown_iff true h = (λ e p. cc, λ n. absurd (n (h.0 refl)))
unknown_iff false h = (λ e p. cc (h.1 p), λ n. refl)

module _ (b : Base58) (junk : ℕ) (genesis : Block) (xs : List Block) where
  abbrev pub txs : List Transaction
  txs = all_txs (genesis ∷ xs)

  module _ (g : All IsTransfer genesis.transactions) (v : All IsBlock xs) where
    transfers : All IsTransfer txs
    transfers = All-append IsTransfer genesis.transactions (all_txs xs) g (all_txs-transfers xs v)

    -- After the genesis block and any blocks of transfers, no handler having thrown, `get_balance`
    -- answers the number below 2 ^ 32 that is what the key received less what it sent, modulo
    -- 2 ^ 32, over all transactions of the chain.
    pub get_balance-history :
        (k : Bytes)
        → (c : BlockChain) × (n : ℕ) × (history b junk genesis xs ≡ ok c)
          × (get_balance k c ≡ good (Payload.number n))
          × (n < u32_mod)
          × ((n + sent_by k txs) % u32_mod ≡ received_by k txs % u32_mod)
    unfolding get_balance
    get_balance-history k =
        let (c, e, _, l) = history_total b junk genesis xs g v in
        (
          c,
          value_of k c.ledger,
          e,
          refl,
          rw l (value_of-lt k (settle txs []) (settle-Fits txs [] transfers tt)),
          rw l (omega (arith, settle-value_of k txs [] transfers, value_of_nil k)),
        )

    -- After the genesis block and any blocks of transfers, no handler having thrown,
    -- `get_total_coins` answers the sum of all rewards of the chain, modulo 2 ^ 32.
    pub get_total_coins-history :
        (c : BlockChain) × (history b junk genesis xs ≡ ok c)
        × (get_total_coins c ≡ good (Payload.number (minted txs % u32_mod)))
    unfolding get_total_coins total
    get_total_coins-history =
        let (c, e, _, l) = history_total b junk genesis xs g v in
        (
          c,
          e,
          rw l (
              ap (λ n. good (Payload.number n))
                (omega (
                  arith,
                  add_entries-total 0 (settle txs []) (omega arith),
                  settle-total txs [] transfers,
                ))),
        )

    -- After the genesis block and any blocks of transfers, no handler having thrown, `tx_status`
    -- answers `confirmed` exactly for the sender and id of a transaction in some block of the chain,
    -- and `unknown` for all others.
    pub tx_status-history :
        (src : Bytes) (id : ℕ)
        → (c : BlockChain) × (history b junk genesis xs ≡ ok c)
          × ((tx_status src id c ≡ Status.confirmed) ↔ Holds src id txs)
          × ((tx_status src id c ≡ Status.unknown) ↔ (¬ Holds src id txs))
    unfolding tx_status
    tx_status-history src id =
        let (c, e, bs, _) = history_total b junk genesis xs g v in
        let i = ap (in_blocks src id) bs ∙ in_blocks-all_txs src id (genesis ∷ xs) in
        let h = in_block_iff src id txs in
        (
          c,
          e,
          rw i (status_iff (in_block src id txs) h),
          rw i (unknown_iff (in_block src id txs) h),
        )
