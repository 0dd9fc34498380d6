-- ===== src/Consensus/ProofOfMemory.antt =====
-- src/pom.cpp: `gen_hashes`, `solve_hash` and `verify_solution` of the proof of memory.
use memo_coin.Prelude.{
  ℕ, zero, suc, ◌+◌, ◌/◌, ◌≤◌, ◌≡◌, ◌∙◌, refl, sym, Bool, true, false, Option, ◌⊎◌, inl, inr, some,
  none, List, [], ◌∷◌, Bytes, length, arith, get_elem?,
}
use mathlib.Core.List.{Perm}
use memo_coin.Data.{HashInput}
use memo_coin.Messages.{Result, ok, err, Error, ◌>>=◌}
use memo_coin.Config.{Wallet}
use memo_coin.Consensus.{Blake3, Solution, input_bytes, null_hash, null_input}
use memo_coin.Consensus.Prefix.{check_prefix}
use memo_coin.Consensus.Lex.{place, sort, IsSorted, sort-IsSorted, sort-perm}
use memo_coin.Consensus.Search.{prefix_binary_search, SameSize, Sound, prefix_binary_search-Sound}

pub record ProofOfMemory : Type 0 where
  pub fingerprint : Bytes
  pub public_key : Bytes
  pub hashes : List Bytes

-- The constructor.
unfoldable pub init : Wallet → Bytes → ProofOfMemory
init wallet fingerprint = record {
  fingerprint = fingerprint;
  public_key = wallet.pub_key;
  hashes = [];
}

abbrev pub input_at : ProofOfMemory → ℕ → HashInput
input_at p n = record { fingerprint = p.fingerprint; public_key = p.public_key; nonce = n }

module _ (b : Blake3) where
  -- `count` hashes, of the nonces from `i` on.
  unfoldable pub hashes_from : ProofOfMemory → ℕ → ℕ → List Bytes
  hashes_from p zero i = []
  hashes_from p (suc count) i = b.digest (input_bytes (input_at p i)) ∷ hashes_from p count (i + 1)

  unfoldable pub gen_hashes : ℕ → ProofOfMemory → ProofOfMemory
  gen_hashes memory p = record p { hashes = sort (hashes_from p (memory / 32) 0) }

  abbrev solution_at : ProofOfMemory → Option ℕ → Result Solution
  solution_at p none = ok (record { input = null_input; hash = null_hash })
  solution_at p (some idx) = elim (get_elem? p.hashes idx) [
    | none ↦ err Error.undefined_behaviour
    | some h ↦ ok (record { input = input_at p 69; hash = h })
  ]

  unfoldable pub solve_hash : ProofOfMemory → Bytes → ℕ → Result Solution
  solve_hash p prev_hash difficulty =
      prefix_binary_search p.hashes (b.digest prev_hash) difficulty >>= solution_at p

  unfoldable pub verify_solution : HashInput → Bytes → Bytes → ℕ → Result Bool
  verify_solution input curr_hash prev_hash difficulty =
      check_prefix (b.digest (input_bytes input)) (b.digest prev_hash) difficulty

  hashes_from-size :
      (p : ProofOfMemory) (n i : ℕ) (t : Bytes) → length t ≡ 32 → SameSize t (hashes_from p n i)
  unfolding hashes_from
  hashes_from-size p zero i t e = tt
  hashes_from-size p (suc n) i t e = (b.digest_size _ ∙ sym e, hashes_from-size p n (i + 1) t e)

  place-size :
      (t x : Bytes) (ys : List Bytes)
      → length x ≡ length t
      → SameSize t ys
      → SameSize t (place x ys)
  unfolding place
  place-size t x [] e v = (e, tt)
  place-size t x (y ∷ ys) e v = ground (arith, place-size t x ys e)

  sort-size : (t : Bytes) (xs : List Bytes) → SameSize t xs → SameSize t (sort xs)
  unfolding sort
  sort-size t [] v = tt
  sort-size t (x ∷ xs) v = place-size t x (sort xs) v.0 (sort-size t xs v.1)

  -- `gen_hashes` leaves the hashes of the nonces below `memory / 32` of this fingerprint and key,
  -- sorted by their bytes.
  pub gen_hashes-IsSorted :
      (memory : ℕ) (p : ProofOfMemory)
      → IsSorted (gen_hashes memory p).hashes
        × Perm (gen_hashes memory p).hashes (hashes_from p (memory / 32) 0)
  unfolding gen_hashes
  gen_hashes-IsSorted memory p =
      (sort-IsSorted (hashes_from p (memory / 32) 0), sort-perm (hashes_from p (memory / 32) 0))

  -- The null hash, or an array of the table that has the prefix of the target.
  abbrev pub Answers : ProofOfMemory → Bytes → ℕ → Result Solution → Type 0
  Answers p prev_hash d (err e) = ⊥
  Answers p prev_hash d (ok s) =
      (s.hash ≡ null_hash)
      ⊎ ((idx : ℕ) × (get_elem? p.hashes idx ≡ some s.hash)
          × (check_prefix s.hash (b.digest prev_hash) d ≡ ok true))

  solution_found :
      (p : ProofOfMemory) (idx : ℕ) (h : Bytes)
      → get_elem? p.hashes idx ≡ some h
      → solution_at p (some idx) ≡ ok (record { input = input_at p 69; hash = h })
  solution_found p idx h g = rw (g, solution_at)

  Answers-at :
      (p : ProofOfMemory) (prev_hash : Bytes) (d : ℕ) (r : Result (Option ℕ))
      → Sound p.hashes (b.digest prev_hash) d r
      → Answers p prev_hash d (r >>= solution_at p)
  Answers-at p prev_hash d (err e) s = s
  Answers-at p prev_hash d (ok none) s = inl refl
  Answers-at p prev_hash d (ok (some idx)) (h, g, c) =
      rw (solution_found p idx h g) (inr (idx, g, c))

  -- After `gen_hashes` and for a difficulty of 256 at most, the proof of memory returns, and what
  -- it returns is the null hash or a hash of its table that shares the first bits with the target.
  pub solve_hash-Answers :
      (memory : ℕ) (p : ProofOfMemory) (prev_hash : Bytes) (d : ℕ)
      → d ≤ 256
      → Answers (gen_hashes memory p) prev_hash d (solve_hash (gen_hashes memory p) prev_hash d)
  unfolding solve_hash
  solve_hash-Answers memory p prev_hash d h =
      let t = b.digest prev_hash in
      Answers-at (gen_hashes memory p) prev_hash d _ (
        prefix_binary_search-Sound (gen_hashes memory p).hashes t d
          (unfold gen_hashes in
            sort-size t (hashes_from p (memory / 32) 0)
              (hashes_from-size p (memory / 32) 0 t (b.digest_size prev_hash)))
          (rw (b.digest_size prev_hash) h))

  -- A found solution carries the nonce 69, and verification hashes that nonce and does not look at
  -- the found hash: where the hash of nonce 69 lacks the prefix, every solution that is found is
  -- refused.
  pub solve_hash_refused :
      (p : ProofOfMemory) (prev_hash : Bytes) (d idx : ℕ) (h : Bytes)
      → prefix_binary_search p.hashes (b.digest prev_hash) d ≡ ok (some idx)
      → get_elem? p.hashes idx ≡ some h
      → check_prefix (b.digest (input_bytes (input_at p 69))) (b.digest prev_hash) d ≡ ok false
      → (s : Solution) × (solve_hash p prev_hash d ≡ ok s)
        × (s.hash ≡ h)
        × (verify_solution s.input s.hash prev_hash d ≡ ok false)
  unfolding solve_hash verify_solution
  solve_hash_refused p prev_hash d idx h f g c =
      (record { input = input_at p 69; hash = h }, rw f (solution_found p idx h g), refl, c)
