-- ===== src/Consensus.antt =====
-- src/consensus.hpp, src/pow.cpp and src/pom.cpp: the two consensus models. The hash of
-- external/blake3, the clock and the random numbers are parameters.
pub mod Prefix
pub mod Lex
pub mod Search
pub mod ProofOfWork
pub mod ProofOfMemory
pub mod Model
use memo_coin.Prelude.{
  ℕ, zero, suc, ◌+◌, ◌*◌, ◌/◌, ◌%◌, ◌^◌, ◌≡◌, Bool, true, false, ◌==◌, ◌&&◌, List, [], ◌∷◌, ◌++◌,
  Bytes, length, replicate,
}
use memo_coin.Data.{HashInput}

-- `init`, `update` for each part and `finalize`: the hash of the parts one after another.
pub record Blake3 : Type 0 where
  pub digest : Bytes → Bytes
  -- BLAKE3_OUT_LEN.
  pub digest_size : (data_bytes : Bytes) → length (digest data_bytes) ≡ 32

-- The bytes of a `uint64_t` in memory, the lowest first.
unfoldable pub le_bytes : ℕ → ℕ → Bytes
le_bytes zero n = []
le_bytes (suc k) n = n % 256 ∷ le_bytes k (n / 256)

-- The bytes of a `HashInput`, which has no padding.
unfoldable pub input_bytes : HashInput → Bytes
unfolding le_bytes
input_bytes i = i.fingerprint ++ i.public_key ++ le_bytes 8 i.nonce

unfoldable pub null_hash : Bytes
null_hash = replicate 32 0

unfoldable pub null_input : HashInput
null_input = record { fingerprint = replicate 16 0; public_key = replicate 32 0; nonce = 0 }

-- What `solve_hash` returns.
pub record Solution : Type 0 where
  pub input : HashInput
  pub hash : Bytes
