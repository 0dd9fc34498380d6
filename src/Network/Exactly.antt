-- ===== src/Network/Exactly.antt =====
-- src/validator.cpp beside the servers: what the chain holds when the pool is empty.
use mathlib.Core.List.{Perm, perm_middle}
use mathlib.Core.List.Perm
use memo_coin.Prelude.{
  ◌+◌, ◌<◌, ◌≡◌, ◌∙◌, refl, sym, subst, ◌⊎◌, inl, inr, true, false, Bool-cases, none, List, [], ◌∷◌,
  ◌++◌, append-nil, length, u32_mod, All, bytes_eq_iff, arith,
}
use memo_coin.Data.{Transaction, Block, tx_eq}
use memo_coin.Keys.{Base58, zero_key}
use memo_coin.TxPool.{init}
use memo_coin.TxPool.Set.{
  Distinct, contains, contains-append, contains_congr, Distinct-append_cons, tx_eq_refl,
}
use memo_coin.TxPool.Kept.{held, posted, confirmed, contains-run-init}
use memo_coin.TxPool.History.{Request, posts, pops, confirms, run}
use memo_coin.BlockChain.Ledger.Balances.{is_reward}
use memo_coin.Network.Accounts.{settled, Reach-Accounted}
use memo_coin.Network.Payments.{IsPaid, payments, paid}
use memo_coin.Network.Origin.{Run-AllOf}
use memo_coin.Network.Once.{Fresh, Run-Distinct}
use memo_coin.Network.Validators.{Unpending, Mining, Run, Run-Reach}

-- `t` itself stands in the list.
abbrev Has : List Transaction → Transaction → Type 0
Has [] t = ⊥
Has (u ∷ us) t = (u ≡ t) ⊎ Has us t

All-Has : (us : List Transaction) → All (Has us) us
All-Has us = within us (λ t h. h)
  where
    within : (ts : List Transaction) → ((t : Transaction) → Has ts t → Has us t) → All (Has us) ts
    within [] h = tt
    within (t ∷ ts) h = (h t (inl refl), within ts (λ u k. h u (inr k)))

Has-split :
    (us : List Transaction) (t : Transaction)
    → Has us t
    → (a : List Transaction) × (c : List Transaction) × (us ≡ a ++ t ∷ c)
Has-split [] t h = absurd h
Has-split (u ∷ us) t (inl e) = ([], us, rw e refl)
Has-split (u ∷ us) t (inr h) = let (a, c, e) = Has-split us t h in (u ∷ a, c, rw e refl)

-- An element that is not the one in the middle stands beside it.
Has-beside :
    (a c : List Transaction) (t u : Transaction)
    → tx_eq t u ≡ false
    → Has (a ++ t ∷ c) u
    → Has (a ++ c) u
Has-beside [] c t u n (inl e) = absurd (let k = rw e at n in cc (tx_eq_refl u))
Has-beside [] c t u n (inr h) = h
Has-beside (v ∷ a) c t u n (inl e) = inl e
Has-beside (v ∷ a) c t u n (inr h) = inr (Has-beside a c t u n h)

beside :
    (a c ts : List Transaction) (t : Transaction)
    → contains t ts ≡ false
    → All (Has (a ++ t ∷ c)) ts
    → All (Has (a ++ c)) ts
unfolding contains
beside a c [] t n v = tt
beside a c (u ∷ ts) t n v =
    (Has-beside a c t u (ground arith) v.0, beside a c ts t (ground arith) v.1)

empty_nil : (us : List Transaction) → ((t : Transaction) → contains t us ≡ false) → us ≡ []
unfolding contains
empty_nil [] h = refl
empty_nil (u ∷ us) h = absurd (ground (arith, h u, tx_eq_refl u))

-- Lists without repetition, the first within the second and the second's keys within the first's.
perm :
    (ts us : List Transaction)
    → Distinct ts
    → Distinct us
    → All (Has us) ts
    → ((t : Transaction) → contains t us ≡ true → contains t ts ≡ true)
    → Perm ts us
unfolding contains
perm [] us d e v h = rw (empty_nil us (λ t. ground (arith, h t))) Perm.nil
perm (t ∷ ts) us d e v h =
    let (a, c, k) = Has-split us t v.0 in
    let (n, e1) = Distinct-append_cons a t c (rw k at e) in
    let p =
      perm ts (a ++ c) d.1 e1 (beside a c ts t d.0 (subst (λ z. All (Has z) ts) k v.1)) (λ u m.
        ground (
          arith,
          subst (λ z. contains u z ≡ true → contains u (t ∷ ts) ≡ true) k (h u),
          contains-append u a c,
          contains-append u a (t ∷ c),
          contains_congr u t (a ++ c),
        )) in
    rw k (Perm.trans (Perm.cons t p) (Perm.symm (perm_middle a c)))

unpaid :
    (t : Transaction) (ts : List Transaction)
    → is_reward t ≡ true
    → All IsPaid ts
    → contains t ts ≡ false
unfolding contains tx_eq
unpaid t [] e v = refl
unpaid t (u ∷ ts) e v = ground (
  arith,
  v.0,
  bytes_eq_iff t.src u.src,
  bytes_eq_iff t.src zero_key,
  bytes_eq_iff u.src zero_key,
  unpaid t ts e v.1,
)

contains-payments :
    (t : Transaction) (ts : List Transaction)
    → is_reward t ≡ false
    → contains t ts ≡ true
    → contains t (payments ts) ≡ true
unfolding contains tx_eq
contains-payments t [] e m = m
contains-payments t (u ∷ ts) e m = ground (
  arith,
  bytes_eq_iff t.src u.src,
  bytes_eq_iff t.src zero_key,
  bytes_eq_iff u.src zero_key,
  contains-payments t ts e,
)

-- What the pool was told to confirm are the payments of the blocks, for a payment.
confirmed-settled :
    (t : Transaction) (rs : List Request)
    → is_reward t ≡ false
    → contains t (confirmed rs) ≡ true
    → contains t (paid (settled rs)) ≡ true
unfolding contains
confirmed-settled t [] e m = m
confirmed-settled t (posts valid tx ∷ rs) e m = confirmed-settled t rs e m
confirmed-settled t (pops ∷ rs) e m = confirmed-settled t rs e m
confirmed-settled t (confirms x ∷ rs) e m = ground (
  arith,
  contains-append t x.transactions (confirmed rs),
  contains-append t (payments x.transactions) (paid (settled rs)),
  contains-payments t x.transactions e,
  confirmed-settled t rs e,
)

-- Any number of validators beside the servers, from an empty pool with no block pending, a waiting
-- metronome whose last block is the chain's, and no header taken and no block built yet, where no
-- two transactions that were posted with a valid signature share sender and id and none has the
-- zero key for its sender, the ids of blocks stay below 2 ^ 32, and no validator builds a block
-- between the time a block is taken and the time the pool has confirmed it: whenever the pool is
-- empty and no block is pending, the transactions of the taken blocks, rewards aside, are exactly
-- those that were posted with a valid signature, in some order.
pub Run-Perm :
    {b : Base58} {w0 w : Mining} {rs : List Request} {xs : List Block} (last : Block)
    → Fresh w0 last
    → Distinct (posted rs)
    → All IsPaid (posted rs)
    → last.header.id + length xs < u32_mod
    → Run b Unpending w0 rs xs w
    → w.servers.pending ≡ none
    → held w.servers.pool ≡ []
    → Perm (paid xs) (posted rs)
unfolding contains
Run-Perm {rs = rs} {xs = xs} last f d v l r p e =
    let (n, q) = Run-Reach r in
    let a = Reach-Accounted q in
    let o : settled rs ≡ xs = sym (append-nil (settled rs)) ∙ (rw (p, f.pending) at a.order) in
    let h : held (run init rs) ≡ [] = rw (← f.pool, ← a.pool) e in
    perm (paid xs) (posted rs) (Run-Distinct last f d v l r).0 d
      (Run-AllOf (Has (posted rs)) f.pool f.built (All-Has (posted rs)) r).chain
      (λ t m. elim (Bool-cases (is_reward t)) [
        | inl k ↦ absurd (let z = unpaid t (posted rs) k v in cc)
        | inr k ↦
            let c = contains-run-init t rs in
            let m1 : contains t (confirmed rs) ≡ true =
              let c1 = rw h at c in ground (arith, c1, m) in
            rw (← o) (confirmed-settled t rs k m1)
      ])
