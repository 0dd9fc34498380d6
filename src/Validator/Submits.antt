-- ===== src/Validator/Submits.antt =====
-- src/validator.cpp with src/pow.cpp and src/metronome.cpp: the blocks that a validator submits,
-- and what the metronome does with them.
use memo_coin.Prelude.{
  ℕ, ◌≤◌, ◌≡◌, ◌++◌, inl, inr, ap, refl, Bool, true, false, Bool-cases, ◌==◌, Option, none, some,
  List, [], ◌∷◌, subst, All, All-of-append, Bytes, add32, arith,
}
use memo_coin.Data.{Transaction, Block, BlockHeader}
use memo_coin.Transactions.{create_reward_transaction}
use memo_coin.Messages.{Result, ok, err, ◌>>=◌}
use memo_coin.Metronome.{Metronome, bad, handle_block, solved}
use memo_coin.Consensus.{Blake3, Solution, null_hash}
use memo_coin.Consensus.ProofOfWork.{solve_hash, Expires}
use memo_coin.Consensus.Model.{IConsensusModel, pow, Accepts, IsSound, pow-IsSound}
use memo_coin.Validator.{create_block, is_null_hash, round, to_submit, deadline}
use memo_coin.Validator.NullHash.{is_null_hash_iff}
use memo_coin.Validator.Rounds.{Takes, some_new, request_new_block_header-Takes}

All-taken :
    (P : BlockHeader → Type 0) {curr_block : BlockHeader} {answers : List BlockHeader}
    (t : Takes answers curr_block)
    → All P answers
    → P t.taken
All-taken P t v = (All-of-append P t.stale (t.taken ∷ t.rest) (subst (All P) t.splits v)).1.0

All-map :
    (P Q : BlockHeader → Type 0) (hs : List BlockHeader)
    → ((h : BlockHeader) → P h → Q h)
    → All P hs
    → All Q hs
All-map P Q [] f v = tt
All-map P Q (h ∷ hs) f v = (f h v.0, All-map P Q hs f v.1)

null_hash-is_null_hash : is_null_hash null_hash ≡ true
null_hash-is_null_hash = (is_null_hash_iff null_hash (unfold null_hash in refl)).1 refl

module _ (c : IConsensusModel) (pub_key : Bytes) (txs : List Transaction) (reward_time : ℕ) where
  -- A block on the header `h` that the model's check accepts, or no block, where the model answered
  -- the null hash.
  abbrev pub Verifies : BlockHeader → ℕ → Option Block → Type 0
  Verifies h difficulty none =
      (s : Solution) × (c.solve_hash h.hash difficulty (deadline h) ≡ ok s)
      × (is_null_hash s.hash ≡ true)
  Verifies h difficulty (some x) =
      (x.header.id ≡ add32 h.id 1)
      × (x.header.prev_hash ≡ h.hash)
      × (x.header.difficulty ≡ difficulty)
      × (x.transactions ≡ txs ++ create_reward_transaction pub_key reward_time ∷ [])
      × (c.verify_solution x.header.input x.header.hash h.hash difficulty ≡ ok true)

  submitted :
      (h : BlockHeader) (now difficulty : ℕ) (s : Solution)
      → c.solve_hash h.hash difficulty (deadline h) ≡ ok s
      → Accepts c h.hash difficulty (ok s)
      → Verifies h difficulty (to_submit pub_key txs reward_time now difficulty h s)
  unfolding create_block
  submitted h now difficulty s g v = elim (Bool-cases (is_null_hash s.hash)) [
    | inl e ↦ rw e (s, g, e)
    | inr e ↦ elim v [
      | inr f ↦ rw e (refl, refl, refl, refl, f)
      | inl z ↦ absurd (cc (ap is_null_hash z, null_hash-is_null_hash, e))
    ]
  ]

  abbrev paired : BlockHeader → ℕ → ℕ → Solution → Result (BlockHeader × Option Block)
  paired h now difficulty s = ok (h, to_submit pub_key txs reward_time now difficulty h s)

  returned :
      (h : BlockHeader) (now difficulty : ℕ) (r : Result Solution)
      → c.solve_hash h.hash difficulty (deadline h) ≡ r
      → Accepts c h.hash difficulty r
      → (ob : Option Block) × ((r >>= paired h now difficulty) ≡ ok (h, ob))
        × Verifies h difficulty ob
  returned h now difficulty (err e) g v = absurd v
  returned h now difficulty (ok s) g v =
      (to_submit pub_key txs reward_time now difficulty h s, refl, submitted h now difficulty s g v)

  -- With a consensus model that is sound for every header that the blockchain answers, and some
  -- answer that is new, a round ends and does not throw. If it submits a block then that is the
  -- successor of the header that it took, of the given transactions and the reward, and the model's
  -- check accepts its hash; it submits none only where the model answered the null hash.
  pub round_sound :
      (answers : List BlockHeader) (now difficulty : ℕ) (curr_block : BlockHeader)
      → All (λ h. IsSound c h.hash difficulty (deadline h)) answers
      → some_new curr_block answers ≡ true
      → (h : BlockHeader) × (ob : Option Block) × (round pub_key c.solve_hash answers difficulty txs
            reward_time now curr_block
          ≡ ok (h, ob))
        × Verifies h difficulty ob
  unfolding round
  round_sound answers now difficulty curr_block sound new =
      let t = request_new_block_header-Takes answers curr_block new in
      let (ob, e, v) =
        returned t.taken now difficulty _ refl
          (All-taken (λ h. IsSound c h.hash difficulty (deadline h)) t sound) in
      (t.taken, ob, rw t.returns e, v)

-- With the proof of work, a difficulty of 256 at most, a clock that reaches the deadline of every
-- header that the blockchain answers, and some answer that is new, a round ends and does not throw.
-- If it submits a block then that is the successor of the header that it took, of the given
-- transactions and the reward, and the proof of work's check accepts its hash; it submits none only
-- where the proof of work answered the null hash.
pub round-Verifies :
    (b : Blake3) (base pub_key : Bytes) (txs : List Transaction) (times : List ℕ)
    (answers : List BlockHeader) (reward_time now difficulty : ℕ) (curr_block : BlockHeader)
    → difficulty ≤ 256
    → All (λ h. Expires (deadline h) times) answers
    → some_new curr_block answers ≡ true
    → (h : BlockHeader) × (ob : Option Block) × (round pub_key
          (λ hash d end_time. solve_hash b base hash d end_time times)
          answers
          difficulty
          txs
          reward_time
          now
          curr_block
        ≡ ok (h, ob))
      × Verifies (pow b base times) pub_key txs reward_time h difficulty ob
round-Verifies b base pub_key txs times answers reward_time now difficulty curr_block small late
      new =
    round_sound (pow b base times) pub_key txs reward_time answers now difficulty curr_block
      (All-map _ _ answers (λ h. pow-IsSound b base h.hash times difficulty (deadline h) small)
        late)
      new

later_id : (x y n : ℕ) → x ≡ add32 n 1 → y ≡ add32 n 1 → (y == add32 x 1) ≡ false
unfolding add32
later_id x y n e f = ground arith

none_sent :
    (x : Block) (m : Metronome)
    → (x.header.id == add32 m.last_block.id 1) ≡ false
    → (handle_block true x m).2 ≡ some x
    → ⊥
unfolding handle_block
none_sent x m g s = ground arith

-- Two validators that build on one header: once a block of the first is accepted, the metronome
-- answers the block of the second with STATUS_BAD, keeps its state and sends nothing on.
pub handle_block-race :
    (m : Metronome) (x y : Block) (prev : BlockHeader) (accepted : Bool)
    → x.header.id ≡ add32 prev.id 1
    → y.header.id ≡ add32 prev.id 1
    → (handle_block true x m).2 ≡ some x
    → handle_block accepted y (handle_block true x m).0 ≡ ((handle_block true x m).0, bad, none)
unfolding handle_block solved
handle_block-race m x y prev accepted e f s =
    elim (Bool-cases (x.header.id == add32 m.last_block.id 1)) [
      | inl g ↦
          let k = later_id x.header.id y.header.id prev.id e f in
          rw (g, handle_block) (rw (k, handle_block) refl)
      | inr g ↦ absurd (none_sent x m g s)
    ]
