-- ===== src/Tests/Proofs.antt =====
-- src/pow.cpp and src/pom.cpp at concrete inputs.
use memo_coin.Prelude.{◌≡◌, ◌≢◌, refl, true, none, List, [], ◌∷◌, Bytes, replicate, arith}
use memo_coin.Messages.{ok}
use memo_coin.Consensus.Prefix.{check_prefix, scan_prefix, scan_byte, bit_at}
use memo_coin.Consensus.Lex.{lex_lt, IsSorted}
use memo_coin.Consensus.Search.{
  Sound, prefix_binary_search, search_loop, prefix_binary_search-Sound,
}
use memo_coin.Consensus.Search.Complete.{prefix_binary_search-Complete}
use memo_coin.Consensus.ProofOfMemory.{
  ProofOfMemory, Answers, gen_hashes, hashes_from, gen_hashes-IsSorted, solve_hash-Answers,
}
use memo_coin.Consensus.ProofOfMemory
use memo_coin.Tests.Inputs.{blurred}

abbrev table : List Bytes
table = replicate 32 1 ∷ replicate 32 2 ∷ []

abbrev target : Bytes
target = replicate 32 0

runs : Unit {0}
unfolding check_prefix scan_prefix scan_byte bit_at lex_lt search_loop prefix_binary_search
runs = tt

prefix_binary_search-Sound_example : Sound table target 8 (prefix_binary_search table target 8)
prefix_binary_search-Sound_example =
    prefix_binary_search-Sound table target 8 (refl, (refl, tt)) (omega arith)

no_byte_shared : prefix_binary_search table target 8 ≡ ok none
unfolding runs
no_byte_shared = refl

table-IsSorted : IsSorted table
unfolding lex_lt
table-IsSorted = ((refl, tt), (tt, tt))

prefix_binary_search-Complete_example : check_prefix (replicate 32 2) target 8 ≢ ok true
prefix_binary_search-Complete_example =
    prefix_binary_search-Complete table target 1 (refl, (refl, tt)) (omega arith) table-IsSorted
      (omega arith) (omega arith) no_byte_shared 1 (replicate 32 2) refl

abbrev prover : ProofOfMemory
prover = record { fingerprint = replicate 16 1; public_key = target; hashes = table }

solve_hash-Answers_example :
    Answers blurred
      (gen_hashes blurred 64 prover)
      target
      4
      (ProofOfMemory.solve_hash blurred (gen_hashes blurred 64 prover) target 4)
solve_hash-Answers_example = solve_hash-Answers blurred 64 prover target 4 (omega arith)
