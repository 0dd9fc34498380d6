-- ===== src/Metronome/Timeout.antt =====
-- src/metronome.cpp: a wait of `start` that reaches its deadline when a block is just taken.
use memo_coin.Prelude.{
  ◌≡◌, ◌<◌, ◌∙◌, ap, refl, true, ℕ, some, [], ◌∷◌, Bytes, add32, sub32, subst, ==_iff, arith,
}
use memo_coin.Data.{Block, min_difficulty}
use memo_coin.Metronome.{
  Metronome, update_difficulty, empty_block, submit_empty_block, handle_block, after_submit, solved,
}
use memo_coin.Metronome.Accepted.{last_block-update_difficulty, handle_block_lem}
use memo_coin.Metronome.Steps.{
  waiting, times_out, updates, submits, handles, Reach, here, next, taken, Step,
}

-- An empty block on top of `x`, and the difficulty one lower.
pub record Punished (m : Metronome) (x : Block) : Type 0 where
  pub after : Metronome
  pub extra : Block
  pub steps : Reach m 4 (x ∷ extra ∷ []) waiting after
  pub empty : extra.transactions ≡ []
  pub on_top : extra.header.prev_hash ≡ x.header.hash
  pub follows : extra.header.id ≡ add32 x.header.id 1
  pub lowered : after.difficulty ≡ sub32 m.difficulty 1
  pub last : after.last_block ≡ extra.header

fell :
    (m n : Metronome)
    → min_difficulty < m.difficulty
    → n.difficulty ≡ m.difficulty
    → (update_difficulty true n).difficulty ≡ sub32 m.difficulty 1
unfolding update_difficulty
fell m n l e = rw (← e) (ground (arith, l, e))

-- Whenever the metronome takes a block with the id after its last block's and its wait ends in a
-- timeout at that time, above the lowest difficulty: it can go on to lower the difficulty as if no block
-- had come, and to submit an empty block on top of the one that it took, which becomes the last block.
pub handles-Punished :
    (m : Metronome) (x : Block) (hash : Bytes) (now : ℕ)
    → x.header.id ≡ add32 m.last_block.id 1
    → min_difficulty < m.difficulty
    → Punished m x
unfolding handle_block submit_empty_block empty_block solved
handles-Punished m x hash now e l =
    let i = (==_iff x.header.id (add32 m.last_block.id 1)).1 e in
    let m1 = (handle_block true x m).0 in
    let h : m1 ≡ (after_submit true x m).0 = rw (handle_block_lem true x m, i) refl in
    let k : (handle_block true x m).2 ≡ some x = rw (handle_block_lem true x m, i) refl in
    let t : Step waiting m (x ∷ []) waiting m1 =
      subst (λ ys. Step waiting m ys waiting m1) (ap (taken true) k) (handles waiting true x m) in
    let m2 : Metronome = record m1 { sleeping = true } in
    let m3 = update_difficulty true m2 in
    let g : m3.last_block ≡ x.header =
      last_block-update_difficulty true m2 ∙ ap (λ n. n.last_block) h in
    record {
      after = _;
      extra = empty_block hash now m3;
      steps =
          next (next (next (next here t) (times_out m1)) (updates true m2))
            (submits true hash now m3);
      empty = refl;
      on_top = ap (λ z. z.hash) g;
      follows = ap (λ z. add32 z.id 1) g;
      lowered = fell m m2 l (ap (λ n. n.difficulty) h);
      last = refl;
    }
