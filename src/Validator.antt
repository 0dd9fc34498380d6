-- ===== src/Validator.antt =====
-- src/validator.cpp: the rounds of a validator. The answers of the other servers, the clock and
-- the consensus model are arguments.
pub mod NullHash
pub mod Rounds
pub mod Created
pub mod Submits
pub mod Loop
use memo_coin.Prelude.{
  ℕ, ◌+◌, ◌*◌, ◌-◌, ◌%◌, Bool, true, false, ◌&&◌, ◌||◌, ◌==◌, ltb, if◌then◌else◌, Option, none,
  some, List, [], ◌∷◌, ◌++◌, Bytes, add32, u32_mod, take, drop,
}
use memo_coin.Data.{Transaction, Block, BlockHeader, HashInput, block_time}
use memo_coin.Messages.{Result, ok, err, Error, ◌>>=◌}
use memo_coin.Consensus.{Solution}
use memo_coin.Transactions.{create_reward_transaction}

-- A `uint64_t` read from the bytes in memory, the lowest first.
unfoldable pub from_bytes : Bytes → ℕ
from_bytes [] = 0
from_bytes (x ∷ xs) = x + 256 * from_bytes xs

-- `bytes[0]`, the pointer being the rest of the array.
abbrev pub word_is_zero : Bytes → Bool
word_is_zero hash = from_bytes (take 8 hash) == 0

unfoldable pub is_null_hash : Bytes → Bool
is_null_hash hash =
    let rest1 = drop 8 hash in
    let rest2 = drop 8 rest1 in
    let rest3 = drop 8 rest2 in
    word_is_zero hash && word_is_zero rest1 && word_is_zero rest2 && word_is_zero rest3

-- `txs` are the transactions that the pool hands out.
unfoldable pub create_block :
    Bytes → List Transaction → ℕ → ℕ → BlockHeader → HashInput → Bytes → ℕ → Block
create_block pub_key txs reward_time now prev_block input solution difficulty = record {
  header = record {
    input = input;
    hash = solution;
    prev_hash = prev_block.hash;
    difficulty = difficulty;
    timestamp = now;
    id = add32 prev_block.id 1;
  };
  transactions = txs ++ create_reward_transaction pub_key reward_time ∷ [];
}

-- The test on the blockchain's answer.
unfoldable pub is_new : BlockHeader → BlockHeader → Bool
is_new curr_block answer = ltb curr_block.id answer.id || curr_block.id == u32_mod - 1

-- The loop, on the blockchain's answers to one request after another: the header that it takes,
-- and the answers to the requests still to come.
unfoldable pub request_new_block_header :
    List BlockHeader → BlockHeader → Result (BlockHeader × List BlockHeader)
request_new_block_header [] curr_block = err Error.out_of_fuel
request_new_block_header (answer ∷ answers) curr_block =
    let later = request_new_block_header answers curr_block in
    if is_new curr_block answer then ok (answer, answers) else later

-- `solve_hash` of the consensus model: hash, difficulty, end time.
abbrev pub Solver : Type 0
Solver = Bytes → ℕ → ℕ → Result Solution

abbrev pub to_submit : Bytes → List Transaction → ℕ → ℕ → ℕ → BlockHeader → Solution → Option Block
to_submit pub_key txs reward_time now difficulty header s =
    if is_null_hash s.hash
    then none
    else some (create_block pub_key txs reward_time now header s.input s.hash difficulty)

-- `curr_block.timestamp + BLOCK_TIME * 1000000`.
abbrev pub deadline : BlockHeader → ℕ
deadline h = (h.timestamp + block_time * 1000000) % 0x1_0000_0000_0000_0000

-- One round of the loop of `start`: the header that becomes `curr_block`, and the block that is
-- submitted, if there is one.
unfoldable pub round :
    Bytes
    → Solver
    → List BlockHeader
    → ℕ
    → List Transaction
    → ℕ
    → ℕ
    → BlockHeader
    → Result (BlockHeader × Option Block)
round pub_key solve answers difficulty txs reward_time now curr_block = do
  new ← request_new_block_header answers curr_block
  s ← solve new.0.hash difficulty (deadline new.0)
  ok (new.0, to_submit pub_key txs reward_time now difficulty new.0 s)
