-- ===== src/TxPool/Hash.antt =====
-- The hash functions of src/keys.hpp and src/tx_pool.hpp, which the ledger and the sets of the pool
-- use. `std::hash<uint64_t>` is a parameter.
use memo_coin.Prelude.{ℕ, zero, suc, ◌+◌, ◌*◌, ◌/◌, ◌%◌, ◌≡◌, ap, ap₂, true, ◌∷◌, Bytes}
use memo_coin.Data.{Transaction, tx_eq, tx_eq_iff}

-- The exclusive or of the lowest bits, 64 of a `size_t`.
unfoldable pub xor_bits : ℕ → ℕ → ℕ → ℕ
xor_bits zero a b = 0
xor_bits (suc n) a b = (a + b) % 2 + 2 * xor_bits n (a / 2) (b / 2)

module _ (hasher : ℕ → ℕ) where
  -- The first four bytes of a key alone count; a key has 32.
  unfoldable pub key_hash : Bytes → ℕ
  key_hash (v0 ∷ v1 ∷ v2 ∷ v3 ∷ v) =
      xor_bits 64 (xor_bits 64 (xor_bits 64 (hasher v0) (hasher v1)) (hasher v2)) (hasher v3)
  key_hash v = 0

  unfoldable pub tx_hash : Transaction → ℕ
  tx_hash t = xor_bits 64 (key_hash t.src) (hasher t.id)

  -- Transactions that `operator==` takes for one have one hash, as an unordered set requires.
  pub tx_hash-tx_eq : (t u : Transaction) → tx_eq t u ≡ true → tx_hash t ≡ tx_hash u
  unfolding tx_hash
  tx_hash-tx_eq t u h =
      let (s, i) = (tx_eq_iff t u).0 h in ap₂ (xor_bits 64) (ap key_hash s) (ap hasher i)
