-- ===== src/Metronome/Steps.antt =====
-- src/metronome.cpp: the loop of `start` and the handlers as interleaved steps. What stands under
-- one lock of `block_mutex` is one step; so is the call of `update_difficulty`, which is the
-- only writer of the difficulty.
use memo_coin.Prelude.{
  ℕ, zero, suc, ◌≡◌, Bool, true, false, Option, some, none, List, [], ◌∷◌, ◌++◌, Bytes,
}
use memo_coin.Data.{Block}
use memo_coin.Metronome.{
  Metronome, update_difficulty, empty_block, submit_empty_block, handle_block, register_validator,
}

-- Where the loop of `start` stands; `updating true` is after a wait that ended in a timeout.
pub data Phase : Type 0 where
  waiting : Phase
  updating : Bool → Phase
  submitting : Phase

abbrev pub after_update : Bool → Phase
after_update true = submitting
after_update false = waiting

-- The block that the blockchain took, of one that was sent.
abbrev pub taken : Bool → Option Block → List Block
taken true (some x) = x ∷ []
taken true none = []
taken false x = []

-- One step, and the blocks that the blockchain took in it. A wait ends with no timeout only if
-- `sleeping` is false, and in a timeout whatever `sleeping` is.
pub data Step : Phase → Metronome → List Block → Phase → Metronome → Type 0 where
  wakes :
      (m : Metronome)
      → m.sleeping ≡ false
      → Step waiting m [] (updating false) (record m { sleeping = true })
  times_out : (m : Metronome) → Step waiting m [] (updating true) (record m { sleeping = true })
  updates :
      (timed_out : Bool) (m : Metronome)
      → Step (updating timed_out) m [] (after_update timed_out) (update_difficulty timed_out m)
  submits :
      (accepted : Bool) (hash : Bytes) (now : ℕ) (m : Metronome)
      → Step submitting m
          (taken accepted (some (empty_block hash now m)))
          waiting
          (submit_empty_block accepted hash now m)
  handles :
      (f : Phase) (accepted : Bool) (x : Block) (m : Metronome)
      → Step f m (taken accepted (handle_block accepted x m).2) f (handle_block accepted x m).0
  registers : (f : Phase) (m : Metronome) → Step f m [] f (register_validator m).0

-- `Reach m n xs f m'`: in `n` steps from the start in `m`, the blocks `xs` taken, oldest first.
pub data Reach (m : Metronome) : ℕ → List Block → Phase → Metronome → Type 0 where
  here : Reach m zero [] waiting m
  next :
      {n : ℕ} {xs ys : List Block} {f g : Phase} {p q : Metronome}
      → Reach m n xs f p
      → Step f p ys g q
      → Reach m (suc n) (xs ++ ys) g q
