-- ===== src/Tests/Rounds.antt =====
-- src/validator.cpp at concrete inputs.
use memo_coin.Prelude.{
  ℕ, ◌≡◌, refl, true, inl, inr, Option, some, List, [], ◌∷◌, All, Bytes, replicate, arith,
}
use memo_coin.Data.{Block, BlockHeader}
use memo_coin.Messages.{ok}
use memo_coin.TxPool.{TxPool}
use memo_coin.Consensus.{le_bytes, null_hash, null_input}
use memo_coin.Consensus.Prefix.{check_leading_zeros, scan_zeros, scan_zeros_byte, bit_at}
use memo_coin.Consensus.Model.{pow}
use memo_coin.Consensus.ProofOfWork.{solve_hash, solve_loop, attempt, Expires}
use memo_coin.Validator.{
  create_block, from_bytes, is_new, is_null_hash, request_new_block_header, round, deadline,
}
use memo_coin.Validator.Rounds.{some_new}
use memo_coin.Validator.Submits.{Verifies, round-Verifies}
use memo_coin.Tests.Inputs.{alice, bob, pay, header_at, blurred}

-- The digest of what follows this hash begins with two bits 0.
abbrev fourth : BlockHeader
fourth = record (header_at 4) { hash = replicate 32 4 }

abbrev answers : List BlockHeader
answers = header_at 3 ∷ fourth ∷ []

fourth_is_new : some_new (header_at 3) answers ≡ true
unfolding is_new
fourth_is_new = refl

abbrev pub posted : TxPool
posted = record {
  submitted_queue = pay alice bob 2 5 ∷ [];
  unconfirmed_queue = pay alice bob 1 30 ∷ [];
  submitted_set = pay alice bob 2 5 ∷ [];
  unconfirmed_set = pay alice bob 1 30 ∷ [];
}

-- One attempt before the deadline, and a reading behind it.
abbrev readings : List ℕ
readings = 5 ∷ 7000000 ∷ []

readings-Expires : All (λ h. Expires (deadline h) readings) answers
readings-Expires = (inr (inl (omega arith)), (inr (inl (omega arith)), tt))

abbrev base : Bytes
base = replicate 32 2

round-Verifies_example :
    (h : BlockHeader) × (ob : Option Block) × (round bob
        (λ hash d end_time. solve_hash blurred base hash d end_time readings)
        answers
        1
        (pay alice bob 2 5 ∷ [])
        9
        10
        (header_at 3)
      ≡ ok (h, ob))
    × Verifies (pow blurred base readings) bob (pay alice bob 2 5 ∷ []) 9 h 1 ob
round-Verifies_example =
    round-Verifies blurred base bob (pay alice bob 2 5 ∷ []) readings answers 9 10 1 (header_at 3)
      (omega arith) readings-Expires fourth_is_new

-- This round submits a block.
submits_block :
    round bob
      (λ hash d end_time. solve_hash blurred base hash d end_time readings)
      answers
      1
      (pay alice bob 2 5 ∷ [])
      9
      10
      (header_at 3)
    ≡ ok (
      fourth,
      some (create_block bob (pay alice bob 2 5 ∷ []) 9 10 fourth null_input (replicate 32 2) 1),
    )
unfolding round solve_hash is_new request_new_block_header is_null_hash solve_loop attempt
    check_leading_zeros scan_zeros scan_zeros_byte bit_at from_bytes null_hash null_input
    create_block le_bytes
submits_block = refl
