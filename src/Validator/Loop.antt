-- ===== src/Validator/Loop.antt =====
-- src/validator.cpp: the loop of `start` with its requests to the servers.
use memo_coin.Prelude.{ℕ, zero, suc, Bool, Bytes, if◌then◌else◌, u32_mod, ◌+◌, ◌-◌}
use memo_coin.Data.{BlockHeader, HashInput}
use memo_coin.Messages.{MessageType, Result, ok, err, Error, ◌>>=◌}
use memo_coin.Wire.{Alpaca, Server, call}
use memo_coin.Clients.{register_with_metronome, request_difficulty, request_txs, submit_block}
use memo_coin.Consensus.{null_hash, null_input}
use memo_coin.Validator.{Solver, is_new, is_null_hash, create_block, deadline}

-- The addresses of a validator, as the servers themselves, and its wallet's key.
pub record Validator (S : Type 0) : Type 0 where
  pub blockchain : Server S
  pub metronome : Server S
  pub tx_pool : Server S
  pub pub_key : Bytes

-- What a round gets from outside: how many requests for a header it makes at most, the consensus
-- model with its clock and random numbers, and the readings of the clock for the reward and the block.
pub record Surroundings : Type 0 where
  pub requests : ℕ
  pub solve : Solver
  pub reward_time : ℕ
  pub now : ℕ

module _ (alpaca : Alpaca) {S : Type 0} (v : Validator S) where
  -- `request_new_block_header`: the header that it takes.
  unfoldable pub request_header : ℕ → BlockHeader → S → Result (S × BlockHeader)
  request_header zero curr_block s = err Error.out_of_fuel
  request_header (suc requests) curr_block s = do
    (s, response) ←
        call alpaca v.blockchain alpaca.null_message tt MessageType.query_last_block
          alpaca.block_header s
    if is_new curr_block response.payload
        then ok (s, response.payload)
        else request_header requests curr_block s

  -- `create_block`, whose transactions come from the pool, and `submit_block`.
  unfoldable pub submit_solution :
      Surroundings → BlockHeader → HashInput → Bytes → ℕ → S → Result (S × Bool)
  submit_solution g curr_block input solution difficulty s = do
    (s, txs) ← request_txs alpaca v.tx_pool s
    submit_block alpaca v.metronome
        (create_block v.pub_key txs g.reward_time g.now curr_block input solution difficulty) s

  -- One round: the servers, and the header that becomes `curr_block`.
  unfoldable pub iterate : Surroundings → BlockHeader → S → Result (S × BlockHeader)
  iterate g curr_block s = do
    (s, curr_block) ← request_header g.requests curr_block s
    (s, difficulty) ← request_difficulty alpaca v.metronome s
    solution ← g.solve curr_block.hash difficulty (deadline curr_block)
    if is_null_hash solution.hash then ok (s, curr_block) else (do
      (s, accepted) ← submit_solution g curr_block solution.input solution.hash difficulty s
      ok (s, curr_block))

  -- The first rounds of the endless loop, from round `i` on.
  unfoldable pub rounds : (ℕ → Surroundings) → ℕ → ℕ → BlockHeader → S → Result (S × BlockHeader)
  rounds g i zero curr_block s = ok (s, curr_block)
  rounds g i (suc n) curr_block s = do
    (s, curr_block) ← iterate (g i) curr_block s
    rounds g (i + 1) n curr_block s

  -- `BlockHeader curr_block { .id = UINT32_MAX }`: every other member is 0.
  abbrev pub first_header : BlockHeader
  first_header = record {
    input = null_input;
    hash = null_hash;
    prev_hash = null_hash;
    difficulty = 0;
    timestamp = 0;
    id = u32_mod - 1;
  }

  -- `start` for a number of rounds.
  unfoldable pub start : (ℕ → Surroundings) → ℕ → S → Result (S × BlockHeader)
  start g n s = do
    (s, registered) ← register_with_metronome alpaca v.metronome s
    rounds g 0 n first_header s
