-- ===== src/Consensus/Model.antt =====
-- src/consensus.hpp: what a validator asks of its consensus model, and the two models.
use memo_coin.Prelude.{
  ℕ, ◌≤◌, ◌≡◌, ◌≢◌, ◌⊎◌, inl, inr, true, false, some, List, Bool, Bytes, get_elem?,
}
use memo_coin.Data.{HashInput}
use memo_coin.Messages.{Result, ok, err}
use memo_coin.Config.{Wallet}
use memo_coin.Consensus.{Blake3, Solution, null_hash, input_bytes}
use memo_coin.Consensus.Prefix.{check_prefix}
use memo_coin.Consensus.ProofOfWork.{Expires, Solves, solve_hash-Solves}
use memo_coin.Consensus.ProofOfMemory.{
  ProofOfMemory, init, gen_hashes, input_at, solve_hash_refused,
}
use memo_coin.Consensus.Search.{prefix_binary_search}
use memo_coin.Consensus.ProofOfWork as Work
use memo_coin.Consensus.ProofOfMemory as Memory

-- Hash, difficulty and end time; then input, found hash, previous hash and difficulty.
pub record IConsensusModel : Type 0 where
  pub solve_hash : Bytes → ℕ → ℕ → Result Solution
  pub verify_solution : HashInput → Bytes → Bytes → ℕ → Result Bool

-- `base` are the random bytes of the search, `times` the readings of the clock.
abbrev pub pow : Blake3 → Bytes → List ℕ → IConsensusModel
pow b base times = record {
  solve_hash = λ hash difficulty end_time. Work.solve_hash b base hash difficulty end_time times;
  verify_solution = Work.verify_solution b;
}

-- With the table of `run_validator`: `pom.gen_hashes(memory)` after the constructor.
abbrev pub table : Blake3 → Wallet → Bytes → ℕ → ProofOfMemory
table b wallet fingerprint memory = gen_hashes b memory (init wallet fingerprint)

abbrev pub pom : Blake3 → Wallet → Bytes → ℕ → IConsensusModel
pom b wallet fingerprint memory = record {
  solve_hash = λ hash difficulty end_time.
      Memory.solve_hash b (table b wallet fingerprint memory) hash difficulty;
  verify_solution = Memory.verify_solution b;
}

module _ (c : IConsensusModel) where
  abbrev pub Accepts : Bytes → ℕ → Result Solution → Type 0
  Accepts hash difficulty (err e) = ⊥
  Accepts hash difficulty (ok s) =
      (s.hash ≡ null_hash) ⊎ (c.verify_solution s.input s.hash hash difficulty ≡ ok true)

  -- The model returns for these arguments, and its own check accepts what it found, if anything.
  abbrev pub IsSound : Bytes → ℕ → ℕ → Type 0
  IsSound hash difficulty end_time = Accepts hash difficulty (c.solve_hash hash difficulty end_time)

module _ (b : Blake3) (base hash : Bytes) (times : List ℕ) (difficulty end_time : ℕ) where
  accepted :
      (r : Result Solution)
      → Solves b base hash difficulty end_time r
      → Accepts (pow b base times) hash difficulty r
  accepted (err e) h = h
  accepted (ok s) h = h

  -- For a difficulty of 256 at most and a clock that reaches the end, the proof of work is sound.
  pub pow-IsSound :
      difficulty ≤ 256
      → Expires end_time times
      → IsSound (pow b base times) hash difficulty end_time
  pow-IsSound small late =
      accepted _ (solve_hash-Solves b base hash difficulty end_time times small late)

-- The proof of memory is not: where its search finds a hash that is not null, and the hash of its
-- nonce 69 lacks the prefix, its own check refuses what it found.
pub pom_is_unsound :
    (b : Blake3) (wallet : Wallet) (fingerprint : Bytes) (memory : ℕ) (hash : Bytes)
    (difficulty end_time idx : ℕ) (h : Bytes)
    → prefix_binary_search (table b wallet fingerprint memory).hashes (b.digest hash) difficulty
      ≡ ok (some idx)
    → get_elem? (table b wallet fingerprint memory).hashes idx ≡ some h
    → h ≢ null_hash
    → check_prefix
        (b.digest (input_bytes (input_at (table b wallet fingerprint memory) 69)))
        (b.digest hash)
        difficulty
      ≡ ok false
    → ¬ IsSound (pom b wallet fingerprint memory) hash difficulty end_time
pom_is_unsound b wallet fingerprint memory hash difficulty end_time idx h f g n c v =
    let (s, e, i, r) =
      solve_hash_refused b (table b wallet fingerprint memory) hash difficulty idx h f g c in
    elim (rw e at v) [ inl z ↦ n (cc) | inr a ↦ cc ]
