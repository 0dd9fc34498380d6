-- ===== src/Transactions/Signed.antt =====
-- src/transaction.cpp: what the bytes that are signed tell of a transaction.
use memo_coin.Prelude.{
  ℕ, zero, suc, ◌/◌, ◌^◌, ◌<◌, ◌≡◌, ◌∙◌, refl, sym, List, [], ◌∷◌, ◌++◌, Bytes, length, arith,
}
use memo_coin.Data.{Transaction}
use memo_coin.Consensus.{le_bytes}
use memo_coin.Transactions.{tx_bytes, clear_signature, no_signature}

-- Two appended lists whose first parts have one length.
append_split {ℓ} :
    {A : Type ℓ} (xs ys : List A) (us vs : List A)
    → length xs ≡ length ys
    → xs ++ us ≡ ys ++ vs
    → (xs ≡ ys) × (us ≡ vs)
append_split [] [] us vs l e = (refl, e)
append_split [] (y ∷ ys) us vs l e = absurd (omega arith)
append_split (x ∷ xs) [] us vs l e = absurd (omega arith)
append_split (x ∷ xs) (y ∷ ys) us vs l e = ground (arith, append_split xs ys us vs)

length-le_bytes : (k n : ℕ) → length (le_bytes k n) ≡ k
unfolding le_bytes
length-le_bytes zero n = refl
length-le_bytes (suc k) n = omega (arith, length-le_bytes k (n / 256))

le_bytes_inj : (k m n : ℕ) → m < 256 ^ k → n < 256 ^ k → le_bytes k m ≡ le_bytes k n → m ≡ n
unfolding le_bytes
le_bytes_inj zero m n h g e = omega arith
le_bytes_inj (suc k) m n h g e = ground (arith, le_bytes_inj k (m / 256) (n / 256))

-- The sizes and the ranges of the members.
pub record Sized (t : Transaction) : Type 0 where
  pub src : length t.src ≡ 32
  pub dest : length t.dest ≡ 32
  pub id : t.id < 256 ^ 8
  pub amount : t.amount < 256 ^ 4
  pub timestamp : t.timestamp < 256 ^ 8

-- All members but the signature.
pub record SameTerms (t u : Transaction) : Type 0 where
  pub src : t.src ≡ u.src
  pub dest : t.dest ≡ u.dest
  pub id : t.id ≡ u.id
  pub amount : t.amount ≡ u.amount
  pub timestamp : t.timestamp ≡ u.timestamp

same_size {ℓ} :
    {A : Type ℓ} (n : ℕ) (xs ys : List A) → length xs ≡ n → length ys ≡ n → length xs ≡ length ys
same_size n xs ys e f = e ∙ sym f

same_word : (k m n : ℕ) → length (le_bytes k m) ≡ length (le_bytes k n)
same_word k m n = length-le_bytes k m ∙ sym (length-le_bytes k n)

-- Where the padding is alike, the signed bytes of two transactions are equal only if all of
-- their members but the signature are: no member can change under a signature.
pub tx_bytes-SameTerms :
    (padding : Bytes) (t u : Transaction)
    → Sized t
    → Sized u
    → tx_bytes padding (clear_signature t) ≡ tx_bytes padding (clear_signature u)
    → SameTerms t u
unfolding tx_bytes clear_signature
tx_bytes-SameTerms padding t u v w e =
    let (src, e1) = append_split t.src u.src _ _ (same_size 32 t.src u.src v.src w.src) e in
    let (dest, e2) = append_split t.dest u.dest _ _ (same_size 32 t.dest u.dest v.dest w.dest) e1 in
    let (_, e3) = append_split no_signature no_signature _ _ refl e2 in
    let (id, e4) =
      append_split (le_bytes 8 t.id) (le_bytes 8 u.id) _ _ (same_word 8 t.id u.id) e3 in
    let (amount, e5) =
      append_split (le_bytes 4 t.amount) (le_bytes 4 u.amount) _ _ (same_word 4 t.amount u.amount)
        e4 in
    let (_, e6) = append_split padding padding _ _ refl e5 in
    record {
      src = src;
      dest = dest;
      id = le_bytes_inj 8 t.id u.id v.id w.id id;
      amount = le_bytes_inj 4 t.amount u.amount v.amount w.amount amount;
      timestamp = le_bytes_inj 8 t.timestamp u.timestamp v.timestamp w.timestamp e6;
    }
