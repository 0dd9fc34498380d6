-- ===== src/Metronome/Difficulty.antt =====
-- src/metronome.cpp: how the difficulty moves.
use memo_coin.Prelude.{
  ℕ, suc, ◌+◌, ◌≤◌, ◌<◌, ◌≡◌, ◌⊎◌, inl, inr, refl, Bool, true, false, List, add32, sub32, u32_mod,
  arith,
}
use memo_coin.Data.{Block, BlockHeader, min_difficulty}
use memo_coin.Metronome.{
  Metronome, init, update_difficulty, submit_empty_block, handle_block, register_validator, u64_mod,
}
use memo_coin.Metronome.Steps.{
  Step, wakes, times_out, updates, submits, handles, registers, Reach, here, next, Phase,
}

-- Within `n` of the least difficulty, and not below it.
abbrev pub Near : ℕ → Metronome → Type 0
Near n m = (min_difficulty ≤ m.difficulty) × (m.difficulty ≤ min_difficulty + n)

update_difficulty-Near :
    (n : ℕ) (timed_out : Bool) (m : Metronome)
    → min_difficulty + suc n < u32_mod
    → Near n m
    → Near (suc n) (update_difficulty timed_out m)
unfolding update_difficulty add32 sub32
update_difficulty-Near n true m h v = ground arith
update_difficulty-Near n false m h v = ground arith

Step-Near :
    (n : ℕ) {m m' : Metronome} {f g : Phase} {xs : List Block}
    → min_difficulty + suc n < u32_mod
    → Step f m xs g m'
    → Near n m
    → Near (suc n) m'
unfolding submit_empty_block handle_block register_validator
Step-Near n h (wakes m e) v = omega arith
Step-Near n h (times_out m) v = omega arith
Step-Near n h (updates timed_out m) v = update_difficulty-Near n timed_out m h v
Step-Near n h (submits true hash now m) v = omega arith
Step-Near n h (submits false hash now m) v = omega arith
Step-Near n h (handles f true x m) v = ground arith
Step-Near n h (handles f false x m) v = ground arith
Step-Near n h (registers f m) v = omega arith

Reach-Near :
    {m m' : Metronome} {n : ℕ} {xs : List Block} {f : Phase}
    → min_difficulty + n < u32_mod
    → m.difficulty ≡ min_difficulty
    → Reach m n xs f m'
    → Near n m'
Reach-Near h e here = omega arith
Reach-Near h e (next {n = n} r s) = Step-Near n h s (Reach-Near (omega arith) e r)

-- In fewer than 2 ^ 32 - 20 steps from the constructor, whatever the blocks, the timeouts and the
-- interleaving, the difficulty stays at least `min_difficulty`, and exceeds it by at most the
-- number of the steps.
pub Reach-init-difficulty :
    {n : ℕ} {xs : List Block} {f : Phase} {m : Metronome} (prev curr : ℕ) (last : BlockHeader)
    → min_difficulty + n < u32_mod
    → Reach (init prev curr last) n xs f m
    → (min_difficulty ≤ m.difficulty) × (m.difficulty ≤ min_difficulty + n)
unfolding init
Reach-init-difficulty prev curr last h r = Reach-Near h refl r

-- A block that carries an earlier time than the one before it, by 2 ^ 31 microseconds at most, or
-- a time later by 2 ^ 31 microseconds and less than 2 ^ 32, counts as solved too fast:
-- `solved_time` wraps to a negative `int`, and the difficulty goes up by one, modulo 2 ^ 32.
pub update_difficulty_wraps :
    (m : Metronome)
    → m.curr_solved_time < u64_mod
    → m.prev_solved_time < u64_mod
    → ((m.curr_solved_time < m.prev_solved_time)
        × (m.prev_solved_time ≤ m.curr_solved_time + 0x8000_0000))
      ⊎ ((m.prev_solved_time + 0x8000_0000 ≤ m.curr_solved_time)
          × (m.curr_solved_time < m.prev_solved_time + u32_mod))
    → (update_difficulty false m).difficulty ≡ add32 m.difficulty 1
unfolding update_difficulty
update_difficulty_wraps m h k (inl (a, b)) = ground arith
update_difficulty_wraps m h k (inr (a, b)) = ground arith
