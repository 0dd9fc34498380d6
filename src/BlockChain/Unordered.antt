-- ===== src/BlockChain/Unordered.antt =====
-- src/blockchain.cpp: what the order of the transactions does not change.
use mathlib.Core.List.{Perm, Permᴰ}
use mathlib.Core.Logic.{∥∥₁_elim}
use memo_coin.Prelude.{
  ℕ, ◌+◌, ◌%◌, ◌<◌, ◌≡◌, ◌∙◌, ap, refl, sym, List, ◌∷◌, Bytes, u32_mod, All, arith,
}
use memo_coin.Data.{Transaction, Block}
use memo_coin.Keys.{Base58}
use memo_coin.Messages.{ok, Payload}
use memo_coin.BlockChain.{BlockChain, good, get_balance, get_total_coins}
use memo_coin.BlockChain.Ledger.{Ledger, total}
use memo_coin.BlockChain.Ledger.Balances.{IsTransfer, received_by, sent_by}
use memo_coin.BlockChain.Ledger.Totals.{minted}
use memo_coin.BlockChain.Chain.{IsBlock, history}
use memo_coin.BlockChain.Queries.{
  txs, get_balance-history, get_total_coins-history, add_entries-total,
}

-- A sum over a list is the same in every order.
module _ {A : Type 0} (s : List A → ℕ) (w : A → ℕ)
    (law : (a : A) (l : List A) → s (a ∷ l) ≡ w a + s l) where
  sum-Permᴰ : {l r : List A} → Permᴰ l r → s l ≡ s r
  sum-Permᴰ Permᴰ.nil = refl
  sum-Permᴰ (Permᴰ.cons {a = a} {b = b} {l₁ = l} {l₂ = r} e d) =
      law a l ∙ rw (e, sum-Permᴰ d) (sym (law b r))
  sum-Permᴰ (Permᴰ.swap {a = a} {b = b} {a' = c} {b' = d} {l = l} e f) =
      rw (e, f) (omega (arith, law d (c ∷ l), law c l, law c (d ∷ l), law d l))
  sum-Permᴰ (Permᴰ.trans d e) = sum-Permᴰ d ∙ sum-Permᴰ e

  sum-perm : {l r : List A} → Perm l r → s l ≡ s r
  sum-perm p = ∥∥₁_elim p (hlevel) (λ d. sum-Permᴰ d)

pub received_by-perm :
    (k : Bytes) {ts us : List Transaction} → Perm ts us → received_by k ts ≡ received_by k us
received_by-perm k p = sum-perm (received_by k) _ (λ t ts. refl) p

pub sent_by-perm : (k : Bytes) {ts us : List Transaction} → Perm ts us → sent_by k ts ≡ sent_by k us
sent_by-perm k p = sum-perm (sent_by k) _ (λ t ts. refl) p

minted-perm : {ts us : List Transaction} → Perm ts us → minted ts ≡ minted us
minted-perm p = sum-perm minted _ (λ t ts. refl) p

-- Two numbers below 2 ^ 32 that a balance is congruent to.
same_balance :
    (n m sent received : ℕ)
    → n < u32_mod
    → m < u32_mod
    → (n + sent) % u32_mod ≡ received % u32_mod
    → (m + sent) % u32_mod ≡ received % u32_mod
    → n ≡ m
same_balance n m sent received h k e f = omega arith

total-perm : {l r : Ledger} → Perm l r → total l ≡ total r
unfolding total
total-perm p = sum-perm total (λ e. e.1) (λ e l. refl) p

-- The order in which the `unordered_map` lists its entries does not change the total that is answered.
pub get_total_coins-perm :
    (c : BlockChain) (l : Ledger)
    → Perm c.ledger l
    → get_total_coins (record c { ledger = l }) ≡ get_total_coins c
unfolding get_total_coins
get_total_coins-perm c l p =
    let z : 0 < u32_mod = omega arith in
    rw (add_entries-total 0 l z, add_entries-total 0 c.ledger z, total-perm p) refl

module _ (b : Base58) (junk junk' : ℕ) (genesis genesis' : Block) (xs ys : List Block) where
  -- Two chains of transfers whose transactions are the same, in whatever order and however they are
  -- split into blocks: no handler throws in either, and every balance and the total that they answer
  -- are equal.
  pub get_balance-perm :
      All IsTransfer genesis.transactions
      → All IsTransfer genesis'.transactions
      → All IsBlock xs
      → All IsBlock ys
      → Perm (txs b junk genesis xs) (txs b junk' genesis' ys)
      → (c : BlockChain) × (c' : BlockChain) × (history b junk genesis xs ≡ ok c)
        × (history b junk' genesis' ys ≡ ok c')
        × ((k : Bytes) → get_balance k c ≡ get_balance k c')
        × (get_total_coins c ≡ get_total_coins c')
  get_balance-perm g g' v v' p =
      let (c, e, t) = get_total_coins-history b junk genesis xs g v in
      let (c', e', t') = get_total_coins-history b junk' genesis' ys g' v' in
      (
        c,
        c',
        e,
        e',
        λ k. balance k c c' e e',
        t ∙ ap (λ n. good (Payload.number (n % u32_mod))) (minted-perm p) ∙ sym t',
      )
    where
      balance :
          (k : Bytes) (c c' : BlockChain)
          → history b junk genesis xs ≡ ok c
          → history b junk' genesis' ys ≡ ok c'
          → get_balance k c ≡ get_balance k c'
      balance k c c' e e' =
          let (d, n, f, q, l, r) = get_balance-history b junk genesis xs g v k in
          let (d', n', f', q', l', r') = get_balance-history b junk' genesis' ys g' v' k in
          let i : d ≡ c = cc in
          let i' : d' ≡ c' = cc in
          let j : n ≡ n' =
            same_balance n n' _ _ l l' r (rw (← sent_by-perm k p, ← received_by-perm k p) at r') in
          rw (← i, ← i') (q ∙ rw j (sym q'))
