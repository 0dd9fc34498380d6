-- ===== src/Consensus/ProofOfWork.antt =====
-- src/pow.cpp: `solve_hash` and `verify_solution` of the proof of work.
use memo_coin.Prelude.{
  ℕ, ◌+◌, ◌*◌, ◌%◌, ◌≤◌, ◌≡◌, ◌⊎◌, inl, inr, refl, Bool, true, false, ltb, leb, Bool-cases, List,
  [], ◌∷◌, ◌++◌, Bytes, length, arith,
}
use memo_coin.Data.{HashInput}
use memo_coin.Messages.{Result, ok, err, Error}
use memo_coin.Consensus.{Blake3, Solution, le_bytes, null_hash, null_input}
use memo_coin.Consensus.Prefix.{check_leading_zeros, scan_zeros}

-- `input[i] = base[i] + nonce_buf[i]` for the bytes of the nonce; the others are those of `base`.
unfoldable pub add_bytes : Bytes → Bytes → Bytes
add_bytes [] ns = []
add_bytes (x ∷ xs) [] = x ∷ xs
add_bytes (x ∷ xs) (n ∷ ns) = (x + n) % 256 ∷ add_bytes xs ns

-- The array that the nonce gives.
unfoldable pub attempt : Bytes → ℕ → Bytes
unfolding add_bytes
attempt base nonce = add_bytes base (le_bytes 8 nonce)

module _ (b : Blake3) (base prev_hash : Bytes) (difficulty end_time : ℕ) where
  -- One call of `get_timestamp` for each round, `nonce` counting the rounds modulo 2 ^ 64.
  unfoldable pub solve_loop : List ℕ → ℕ → Result Solution
  solve_loop [] nonce = err Error.out_of_fuel
  solve_loop (now ∷ times) nonce = elim (ltb now end_time) [
    | false ↦ ok (record { input = null_input; hash = null_hash })
    | true ↦ elim (check_leading_zeros (b.digest (prev_hash ++ attempt base nonce)) difficulty) [
      | err e ↦ err e
      | ok true ↦ ok (record { input = null_input; hash = attempt base nonce })
      | ok false ↦ solve_loop times ((nonce + 1) % 0x1_0000_0000_0000_0000)
    ]
  ]

  -- `times` are the readings of the clock.
  unfoldable pub solve_hash : List ℕ → Result Solution
  solve_hash times = solve_loop times 0

unfoldable pub verify_solution : Blake3 → HashInput → Bytes → Bytes → ℕ → Result Bool
verify_solution b input curr_hash prev_hash difficulty =
    check_leading_zeros (b.digest (prev_hash ++ curr_hash)) difficulty

-- Some reading is not before the end.
abbrev pub Expires : ℕ → List ℕ → Type 0
Expires end_time [] = ⊥
Expires end_time (now ∷ times) = (end_time ≤ now) ⊎ Expires end_time times

later :
    (end_time now : ℕ) (times : List ℕ)
    → ltb now end_time ≡ true
    → Expires end_time (now ∷ times)
    → Expires end_time times
later end_time now times f (inl h) = absurd (ground arith)
later end_time now times f (inr h) = h

check_total :
    (hash : Bytes) (d : ℕ)
    → d ≤ length hash * 8
    → check_leading_zeros hash d ≡ ok (leb d (scan_zeros hash 0))
unfolding check_leading_zeros
check_total hash d h = ground arith

module _ (b : Blake3) (base prev_hash : Bytes) (difficulty end_time : ℕ) where
  -- A solution: the null hash, or an array that verifies.
  abbrev pub Solves : Result Solution → Type 0
  Solves (err e) = ⊥
  Solves (ok s) =
      (s.hash ≡ null_hash) ⊎ (verify_solution b s.input s.hash prev_hash difficulty ≡ ok true)

  tried :
      (nonce : ℕ) (c : Bool) (rest : Result Solution)
      → check_leading_zeros (b.digest (prev_hash ++ attempt base nonce)) difficulty ≡ ok c
      → (c ≡ false → Solves rest)
      → Solves
          (elim (check_leading_zeros (b.digest (prev_hash ++ attempt base nonce)) difficulty)
            as (λ _. Result Solution) [
              | err e ↦ err e
              | ok true ↦ ok (record { input = null_input; hash = attempt base nonce })
              | ok false ↦ rest
            ])
  tried nonce true rest k r = rw k (inr (unfold verify_solution in k))
  tried nonce false rest k r = rw k (r refl)

  solve_loop-Solves :
      (times : List ℕ) (nonce : ℕ)
      → difficulty ≤ 256
      → Expires end_time times
      → Solves (solve_loop b base prev_hash difficulty end_time times nonce)
  unfolding solve_loop
  solve_loop-Solves [] nonce h e = absurd e
  solve_loop-Solves (now ∷ times) nonce h e = elim (Bool-cases (ltb now end_time)) [
    | inr f ↦ rw (f, solve_loop) (inl refl)
    | inl f ↦
        let size = b.digest_size (prev_hash ++ attempt base nonce) in
        rw (f, solve_loop)
          (tried nonce _ (solve_loop b base prev_hash difficulty end_time times _)
            (check_total (b.digest (prev_hash ++ attempt base nonce)) difficulty
              (rw size (omega arith)))
            (λ _.
              solve_loop-Solves times ((nonce + 1) % 0x1_0000_0000_0000_0000) h
                (later end_time now times f e)))
  ]

  -- For a difficulty of 256 at most, and a clock that reaches the end, the proof of work returns,
  -- and what it returns is the null hash or an array that `verify_solution` accepts.
  pub solve_hash-Solves :
      (times : List ℕ)
      → difficulty ≤ 256
      → Expires end_time times
      → Solves (solve_hash b base prev_hash difficulty end_time times)
  unfolding solve_hash
  solve_hash-Solves times h e = solve_loop-Solves times 0 h e
