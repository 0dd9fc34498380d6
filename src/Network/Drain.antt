-- ===== src/Network/Drain.antt =====
-- The rounds of a validator that goes on alone, one after another.
use memo_coin.Prelude.{
  ℕ, zero, suc, ◌+◌, ◌-◌, ◌*◌, ◌≤◌, ◌≡◌, ◌≢◌, ◌∙◌, ap, refl, sym, subst, none, List, [], ◌∷◌, ◌++◌,
  append-nil, append_assoc, Bytes, length, length-append, drop, All, All-append, arith,
}
use memo_coin.Data.{Transaction, Block, HashInput, block_size}
use memo_coin.Keys.{Base58, zero_key}
use memo_coin.TxPool.History.{Request}
use memo_coin.TxPool.Kept.{held, posted, posted_by}
use memo_coin.Validator.Created.{Fills}
use memo_coin.Network.Alone.{Sound, Tip, MadeBy, round}
use memo_coin.Network.Validators.{Unpending, Mining, Run, Run-append, here}

pub posted-append : (rs qs : List Request) → posted (rs ++ qs) ≡ posted rs ++ posted qs
posted-append [] qs = refl
posted-append (r ∷ rs) qs =
    ap (◌++◌ (posted_by r)) (posted-append rs qs)
    ∙ sym (append_assoc (posted_by r) (posted rs) (posted qs))

length-drop : (n : ℕ) (ts : List Transaction) → length (drop n ts) ≡ length ts - n
length-drop zero ts = omega arith
length-drop (suc n) [] = omega arith
length-drop (suc n) (t ∷ ts) = omega (arith, length-drop n ts)

length-zero : (ts : List Transaction) → length ts ≤ 0 → ts ≡ []
length-zero [] h = refl
length-zero (t ∷ ts) h = absurd (omega (arith, h))

append_length :
    (ts : List Transaction)
    → length (drop (block_size - 1) ts ++ []) ≡ length (drop (block_size - 1) ts)
append_length ts = ap length (append-nil (drop (block_size - 1) ts))

-- From `w` with `k` blocks, nobody posting, and all blocks being of one kind.
pub record Drains (b : Base58) (made : Block → Type 0) (w : Mining) (k : ℕ) : Type 0 where
  pub requests : List Request
  pub blocks : List Block
  pub after : Mining
  pub steps : Run b Unpending w requests blocks after
  pub free : after.servers.pending ≡ none
  pub empty : held after.servers.pool ≡ []
  pub quiet : posted requests ≡ []
  pub count : length blocks ≡ k
  pub all_made : All made blocks

pub behind :
    {b : Base58} {made : Block → Type 0} {w w1 : Mining} {k : ℕ} {rs : List Request}
    {xs : List Block}
    → Run b Unpending w rs xs w1
    → posted rs ≡ []
    → All made xs
    → Drains b made w1 k
    → Drains b made w (length xs + k)
behind {made = made} {rs = rs} {xs = xs} r q v d = record {
  requests = rs ++ d.requests;
  blocks = xs ++ d.blocks;
  after = d.after;
  steps = Run-append r d.steps;
  free = d.free;
  empty = d.empty;
  quiet = rw (posted-append rs d.requests, q) d.quiet;
  count = omega (arith, length-append xs d.blocks, d.count);
  all_made = All-append made xs d.blocks v d.all_made;
}

module _ (b : Base58) (pub_key : Bytes) (reward_time now difficulty : ℕ) where
  module _ (input : HashInput) (solution : Bytes) where
    -- With nothing unconfirmed, so many rounds empty the pool.
    rounds :
        (m : ℕ) (w : Mining)
        → Fills pub_key input solution difficulty
        → zero_key ≢ pub_key
        → w.servers.pending ≡ none
        → Sound w.servers
        → Tip w.servers
        → w.servers.pool.unconfirmed_queue ≡ []
        → length w.servers.pool.submitted_queue ≤ m * (block_size - 1)
        → Drains b (MadeBy pub_key reward_time now difficulty input solution) w m
    rounds zero w f n e v z u l = record {
      requests = [];
      blocks = [];
      after = w;
      steps = here;
      free = e;
      empty = rw u (
          append-nil w.servers.pool.submitted_queue ∙ length-zero w.servers.pool.submitted_queue l);
      quiet = refl;
      count = refl;
      all_made = tt;
    }
    rounds (suc m) w f n e v z u l =
        let r = round b pub_key reward_time now difficulty input solution w f n e v z in
        let d = rounds m r.after f n r.free r.sound r.tip r.unconfirmed (
          rw (r.submitted, u)
            (omega (
              arith,
              l,
              append_length w.servers.pool.submitted_queue,
              length-drop (block_size - 1) w.servers.pool.submitted_queue,
            ))) in
        subst (Drains b (MadeBy pub_key reward_time now difficulty input solution) w) (omega arith)
          (behind r.steps refl (r.made_block, tt) d)

    pub drained :
        (m : ℕ) (w : Mining)
        → Fills pub_key input solution difficulty
        → zero_key ≢ pub_key
        → w.servers.pending ≡ none
        → Sound w.servers
        → Tip w.servers
        → length (held w.servers.pool) ≤ m * (block_size - 1)
        → Drains b (MadeBy pub_key reward_time now difficulty input solution) w (m + 1)
    drained m w f n e v z l =
        let r = round b pub_key reward_time now difficulty input solution w f n e v z in
        let q = w.servers.pool.submitted_queue in
        let u = w.servers.pool.unconfirmed_queue in
        let d = rounds m r.after f n r.free r.sound r.tip r.unconfirmed (
          rw r.submitted (
            omega (
              arith,
              l,
              length-append q u,
              length-append (drop (block_size - 1) q) u,
              length-drop (block_size - 1) q,
            ))) in
        subst (Drains b (MadeBy pub_key reward_time now difficulty input solution) w) (omega arith)
          (behind r.steps refl (r.made_block, tt) d)
