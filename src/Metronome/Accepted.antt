-- ===== src/Metronome/Accepted.antt =====
-- src/metronome.cpp: the blocks that reach the blockchain.
use memo_coin.Prelude.{
  ℕ, ◌≡◌, ◌∙◌, ap, refl, sym, Bool, true, false, ◌==◌, ==_iff, Bool-cases, inl, inr, if◌then◌else◌,
  none, List, [], ◌∷◌, ◌++◌, add32, arith,
}
use memo_coin.Data.{Block, BlockHeader}
use memo_coin.Metronome.{
  Metronome, update_difficulty, empty_block, submit_empty_block, handle_block, register_validator,
  bad, solved, after_submit,
}
use memo_coin.Metronome.Steps.{
  Step, wakes, times_out, updates, submits, handles, registers, Reach, here, next, Phase, taken,
}

-- Each block has the next id after the one before it, modulo 2 ^ 32.
abbrev pub Linked : BlockHeader → List Block → Type 0
Linked h [] = Unit
Linked h (x ∷ xs) = (x.header.id ≡ add32 h.id 1) × Linked x.header xs

-- The header of the last block, or `h` if there is none.
abbrev pub last_header : BlockHeader → List Block → BlockHeader
last_header h [] = h
last_header h (x ∷ xs) = last_header x.header xs

Linked-append :
    (h : BlockHeader) (xs ys : List Block)
    → Linked h xs
    → Linked (last_header h xs) ys
    → Linked h (xs ++ ys)
Linked-append h [] ys l k = k
Linked-append h (x ∷ xs) ys l k = (l.0, Linked-append x.header xs ys l.1 k)

last_header-append :
    (h : BlockHeader) (xs ys : List Block)
    → last_header h (xs ++ ys) ≡ last_header (last_header h xs) ys
last_header-append h [] ys = refl
last_header-append h (x ∷ xs) ys = last_header-append x.header xs ys

-- A block whose id is not the one after the last block's is answered with STATUS_BAD, changes
-- nothing and is not sent on; one with that id is sent on, and where the blockchain refuses it the
-- answer is STATUS_BAD and nothing changes either, and otherwise it becomes the last block and the
-- loop is woken.
pub handle_block_lem :
    (accepted : Bool) (x : Block) (m : Metronome)
    → handle_block accepted x m ≡ (
        if x.header.id == add32 m.last_block.id 1
        then after_submit accepted x m
        else (m, bad, none))
unfolding handle_block
handle_block_lem accepted x m = ground arith

pub last_block-update_difficulty :
    (timed_out : Bool) (m : Metronome) → (update_difficulty timed_out m).last_block ≡ m.last_block
unfolding update_difficulty
last_block-update_difficulty true m = ground arith
last_block-update_difficulty false m = ground arith

-- What one step adds to the chain follows the last block, and ends in the new last block.
pub record Extends (m : Metronome) (xs : List Block) (m' : Metronome) : Type 0 where
  pub linked : Linked m.last_block xs
  pub last : m'.last_block ≡ last_header m.last_block xs

after_submit-Extends :
    (accepted : Bool) (x : Block) (m : Metronome)
    → x.header.id ≡ add32 m.last_block.id 1
    → Extends m (taken accepted (after_submit accepted x m).2) (after_submit accepted x m).0
unfolding solved
after_submit-Extends true x m e = record { linked = (e, tt); last = refl }
after_submit-Extends false x m e = record { linked = tt; last = refl }

handle_block-Extends :
    (accepted : Bool) (x : Block) (m : Metronome)
    → Extends m (taken accepted (handle_block accepted x m).2) (handle_block accepted x m).0
handle_block-Extends accepted x m = elim (Bool-cases (x.header.id == add32 m.last_block.id 1)) [
  | inl e ↦ rw (handle_block_lem accepted x m) (
      rw e (after_submit-Extends accepted x m ((==_iff x.header.id (add32 m.last_block.id 1)).0 e)))
  | inr e ↦ rw (handle_block_lem accepted x m) (rw e (untaken accepted m))
]
  where
    untaken : (accepted : Bool) (m : Metronome) → Extends m (taken accepted none) m
    untaken true m = record { linked = tt; last = refl }
    untaken false m = record { linked = tt; last = refl }

pub Step-Extends :
    {m m' : Metronome} {f g : Phase} {xs : List Block} → Step f m xs g m' → Extends m xs m'
unfolding submit_empty_block empty_block solved register_validator
Step-Extends (wakes m e) = record { linked = tt; last = refl }
Step-Extends (times_out m) = record { linked = tt; last = refl }
Step-Extends (updates timed_out m) = record {
  linked = tt;
  last = last_block-update_difficulty timed_out m;
}
Step-Extends (submits true hash now m) = record { linked = (refl, tt); last = refl }
Step-Extends (submits false hash now m) = record { linked = tt; last = refl }
Step-Extends (handles f accepted x m) = handle_block-Extends accepted x m
Step-Extends (registers f m) = record { linked = tt; last = refl }

-- Whatever the interleaving of the loop with the handlers, the blocks that reach the blockchain
-- have consecutive ids, modulo 2 ^ 32, from the block that the metronome started at, and the
-- metronome's last block is the last of them.
pub Reach-Linked :
    {m m' : Metronome} {n : ℕ} {xs : List Block} {f : Phase}
    → Reach m n xs f m'
    → Linked m.last_block xs × (m'.last_block ≡ last_header m.last_block xs)
Reach-Linked here = (tt, refl)
Reach-Linked {m = m} (next {xs = xs} {ys = ys} r s) =
    let (l, e) = Reach-Linked r in
    let x = Step-Extends s in
    (
      Linked-append m.last_block xs ys l (rw e at x.linked),
      x.last ∙ ap (λ h. last_header h ys) e ∙ sym (last_header-append m.last_block xs ys),
    )
