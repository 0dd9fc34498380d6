-- ===== src/Metronome.antt =====
-- src/metronome.cpp: the metronome's state, its handlers on decoded payloads, and the steps of
-- the loop of `start`. An `int` is its bit pattern.
pub mod Steps
pub mod Difficulty
pub mod Accepted
pub mod Dispatch
pub mod Timeout
use memo_coin.Prelude.{
  ℕ, ◌+◌, ◌-◌, ◌*◌, ◌/◌, ◌%◌, Bool, true, false, ◌||◌, not, ◌==◌, leb, ltb, if◌then◌else◌, Option,
  none, some, [], Bytes, replicate, add32, sub32, u32_mod,
}
use memo_coin.Data.{BlockHeader, Block, min_difficulty, block_time}
use memo_coin.Messages.{MessageType, Payload, Reply}

pub record Metronome : Type 0 where
  pub sleeping : Bool
  pub prev_solved_time : ℕ
  pub curr_solved_time : ℕ
  pub difficulty : ℕ
  pub last_block : BlockHeader
  pub active_validators : ℕ

-- The constructor, where `last` is the blockchain's answer; it leaves both times as they are.
unfoldable pub init : ℕ → ℕ → BlockHeader → Metronome
init prev curr last = record {
  sleeping = true;
  prev_solved_time = prev;
  curr_solved_time = curr;
  difficulty = min_difficulty;
  last_block = last;
  active_validators = 0;
}

abbrev pub u64_mod : ℕ
u64_mod = 0x1_0000_0000_0000_0000

-- `int solved_time = curr_solved_time - prev_solved_time`.
unfoldable pub solved_time : Metronome → ℕ
solved_time m = (m.curr_solved_time + u64_mod - m.prev_solved_time) % u64_mod % u32_mod

-- An `int` of this pattern is below the number `n`: it is negative, or small.
abbrev pub int_ltb : ℕ → ℕ → Bool
int_ltb w n = leb 0x8000_0000 w || ltb w n

unfoldable pub update_difficulty : Bool → Metronome → Metronome
unfolding solved_time
update_difficulty true m =
    if leb m.difficulty min_difficulty then m else record m { difficulty = sub32 m.difficulty 1 }
update_difficulty false m =
    if int_ltb (solved_time m) (block_time / 2 * 1000000)
    then record m { difficulty = add32 m.difficulty 1 }
    else m

-- `hash` is the random one, `now` the time.
unfoldable pub empty_block : Bytes → ℕ → Metronome → Block
empty_block hash now m = record {
  header = record {
    input = record { fingerprint = replicate 16 0; public_key = replicate 32 0; nonce = 0 };
    hash = hash;
    prev_hash = m.last_block.hash;
    difficulty = m.difficulty;
    timestamp = now;
    id = add32 m.last_block.id 1;
  };
  transactions = [];
}

-- The update after a block that the blockchain took.
unfoldable pub solved : BlockHeader → Metronome → Metronome
solved h m = record m {
  prev_solved_time = m.curr_solved_time;
  curr_solved_time = h.timestamp;
  last_block = h;
}

-- `accepted` tells whether the blockchain answered the block with STATUS_GOOD.
unfoldable pub submit_empty_block : Bool → Bytes → ℕ → Metronome → Metronome
submit_empty_block false hash now m = m
submit_empty_block true hash now m = solved (empty_block hash now m).header m

abbrev pub good : Payload → Reply
good p = record { type = MessageType.status_good; payload = p }

abbrev pub bad : Reply
bad = record { type = MessageType.status_bad; payload = Payload.null }

abbrev pub after_submit : Bool → Block → Metronome → Metronome × Reply × Option Block
after_submit false x m = (m, bad, some x)
after_submit true x m = (record (solved x.header m) { sleeping = false }, good Payload.null, some x)

-- The last component is the block that was sent to the blockchain.
unfoldable pub handle_block : Bool → Block → Metronome → Metronome × Reply × Option Block
unfolding solved
handle_block accepted x m =
    if not (x.header.id == add32 m.last_block.id 1)
    then (m, bad, none)
    else after_submit accepted x m

unfoldable pub get_difficulty : Metronome → Reply
get_difficulty m = good (Payload.number m.difficulty)

unfoldable pub register_validator : Metronome → Metronome × Reply
register_validator m =
    (record m { active_validators = add32 m.active_validators 1 }, good Payload.null)

unfoldable pub query_validators : Metronome → Reply
query_validators m = good (Payload.number m.active_validators)
