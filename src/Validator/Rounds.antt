-- ===== src/Validator/Rounds.antt =====
-- src/validator.cpp with src/tx_pool.cpp: a round of a validator.
use memo_coin.Prelude.{
  ℕ, ◌-◌, ◌≤◌, ◌≡◌, ◌∙◌, ap, ap₂, refl, sym, Bool, true, false, ◌||◌, Bool-cases, inl, inr, List,
  [], ◌∷◌, ◌++◌, append-nil, Bytes, length, length-append, length-take, take, drop, All, arith,
}
use memo_coin.Data.{Transaction, Block, BlockHeader, HashInput, block_size}
use memo_coin.Messages.{Payload, ok}
use memo_coin.Transactions.{create_reward_transaction}
use memo_coin.TxPool.{TxPool, good, pop_transactions, confirm_transactions}
use memo_coin.TxPool.Late.{leftover-append}
use memo_coin.TxPool.Set.{
  Distinct, Distinct-drop, contains_parts, contains, contains-append, contains_congr, tx_eq_refl,
}
use memo_coin.TxPool.Sync.{InSync, pop_transactions-InSync}
use memo_coin.TxPool.Pop.{pop_transactions_lem}
use memo_coin.TxPool.Confirm.{leftover, confirm_transactions_drains}
use memo_coin.Validator.{create_block, is_new, request_new_block_header}

-- The answers split at the first one that is new.
pub record Takes (answers : List BlockHeader) (curr_block : BlockHeader) : Type 0 where
  pub stale : List BlockHeader
  pub taken : BlockHeader
  pub rest : List BlockHeader
  pub splits : answers ≡ stale ++ taken ∷ rest
  pub are_stale : All (λ h. is_new curr_block h ≡ false) stale
  pub new : is_new curr_block taken ≡ true
  pub returns : request_new_block_header answers curr_block ≡ ok (taken, rest)

abbrev pub some_new : BlockHeader → List BlockHeader → Bool
some_new curr_block [] = false
some_new curr_block (h ∷ answers) = is_new curr_block h || some_new curr_block answers

-- If some answer of the blockchain has a higher id than the validator's header, or the
-- validator's id is the initial 2 ^ 32 - 1, the loop ends and takes the first such answer.
pub request_new_block_header-Takes :
    (answers : List BlockHeader) (curr_block : BlockHeader)
    → some_new curr_block answers ≡ true
    → Takes answers curr_block
unfolding request_new_block_header
request_new_block_header-Takes [] curr_block e = absurd cc
request_new_block_header-Takes (h ∷ answers) curr_block e =
    elim (Bool-cases (is_new curr_block h)) [
      | inl n ↦ record {
        stale = [];
        taken = h;
        rest = answers;
        splits = refl;
        are_stale = tt;
        new = n;
        returns = rw (n, request_new_block_header);
      }
      | inr n ↦
          let t = request_new_block_header-Takes answers curr_block (ground arith) in
          record {
            stale = h ∷ t.stale;
            taken = t.taken;
            rest = t.rest;
            splits = ap (◌∷◌ h) t.splits;
            are_stale = (n, t.are_stale);
            new = t.new;
            returns = rw (n, request_new_block_header) t.returns;
          }
    ]

leftover-all :
    (c q : List Transaction)
    → ((t : Transaction) → contains t q ≡ true → contains t c ≡ true)
    → leftover c q ≡ []
unfolding contains
leftover-all c [] h = refl
leftover-all c (t ∷ q) h =
    ground (arith, h t, tx_eq_refl t, leftover-all c q (λ u m. h u (ground arith)))

leftover-none :
    (c q : List Transaction)
    → ((t : Transaction) → contains t q ≡ true → contains t c ≡ false)
    → leftover c q ≡ q
unfolding contains
leftover-none c [] h = refl
leftover-none c (t ∷ q) h =
    ground (arith, h t, tx_eq_refl t, leftover-none c q (λ u m. h u (ground arith)))

pub Distinct-apart :
    (t : Transaction) (q r : List Transaction)
    → Distinct (q ++ r)
    → contains t q ≡ true
    → contains t r ≡ false
unfolding contains
Distinct-apart t [] r d m = absurd cc
Distinct-apart t (u ∷ q) r d m =
    ground (arith, d.0, contains-append u q r, contains_congr t u r, Distinct-apart t q r d.1)

-- A block of the transactions `txs` and a reward, after `older` were handed out and not confirmed.
leftover-block :
    (older txs : List Transaction) (reward : Transaction)
    → Distinct (older ++ txs)
    → contains reward older ≡ false
    → leftover (txs ++ reward ∷ []) (older ++ txs) ≡ older
unfolding contains
leftover-block older txs reward d n =
    leftover-append (txs ++ reward ∷ []) older txs
    ∙ ap₂ ◌++◌
        (leftover-none _ older (λ t m. ground (
          arith,
          contains-append t txs (reward ∷ []),
          Distinct-apart t older txs d m,
          contains_congr t reward older,
        )))
        (leftover-all _ txs (λ t m. ground (arith, contains-append t txs (reward ∷ []))))
    ∙ append-nil older

contains_last : (t : Transaction) (txs : List Transaction) → contains t (txs ++ t ∷ []) ≡ true
unfolding contains
contains_last t txs = ground (arith, contains-append t txs (t ∷ []), tx_eq_refl t)

block_fits :
    (q txs : List Transaction) (reward : Transaction)
    → txs ≡ take (block_size - 1) q
    → length (txs ++ reward ∷ []) ≤ block_size
block_fits q txs reward e =
    omega (arith, length-append txs (reward ∷ []), ap length e, length-take (block_size - 1) q)

pub popped :
    (txs us : List Transaction)
    → good (Payload.transactions txs) ≡ good (Payload.transactions us)
    → txs ≡ us
popped txs us e = cc

module _ (pub_key : Bytes) (reward_time now difficulty : ℕ) (prev_block : BlockHeader) where
  module _ (input : HashInput) (solution : Bytes) where
    abbrev pub block_of : List Transaction → Block
    block_of txs = create_block pub_key txs reward_time now prev_block input solution difficulty

    -- A round with nobody between its steps: the pool hands out `txs`, the validator's block of
    -- them is added, and the pool confirms it. While the pool is in sync and holds no transaction
    -- of the zero key with the reward's id, the block has at most `block_size` transactions, the
    -- unconfirmed queue ends empty, and the submitted queue keeps what was not handed out, with all
    -- that had been unconfirmed before the round submitted again behind it.
    pub round-confirm_transactions :
        (p : TxPool) (txs : List Transaction)
        → InSync p
        → contains
            (create_reward_transaction pub_key reward_time)
            (p.submitted_queue ++ p.unconfirmed_queue)
          ≡ false
        → (pop_transactions p).1 ≡ good (Payload.transactions txs)
        → (length (block_of txs).transactions ≤ block_size)
          × ((confirm_transactions (block_of txs) (pop_transactions p).0).0.unconfirmed_queue ≡ [])
          × ((confirm_transactions (block_of txs) (pop_transactions p).0).0.submitted_queue
              ≡ drop (block_size - 1) p.submitted_queue ++ p.unconfirmed_queue)
    round-confirm_transactions p txs v n e =
        let reward = create_reward_transaction pub_key reward_time in
        let (r, s, u) = pop_transactions_lem p in
        let t = popped txs (take (block_size - 1) p.submitted_queue) (sym e ∙ r) in
        let d =
          Distinct-drop (pop_transactions p).0.submitted_queue
            (pop_transactions p).0.unconfirmed_queue (pop_transactions-InSync p v).distinct in
        let (n0, n1) =
          contains_parts reward (block_size - 1) p.submitted_queue p.unconfirmed_queue n in
        let c =
          confirm_transactions_drains (block_of txs) (pop_transactions p).0 reward d
            (unfold create_block in contains_last reward txs) (rw u n1) in
        let left : leftover (block_of txs).transactions (p.unconfirmed_queue ++ txs)
            ≡ p.unconfirmed_queue =
          unfold create_block in
          leftover-block p.unconfirmed_queue txs reward (rw t (rw u at d)) n0 in
        (
          unfold create_block in block_fits p.submitted_queue txs reward t,
          c.0,
          c.1
              ∙ ap₂ ◌++◌ s (
                  ap (leftover (block_of txs).transactions)
                    (u ∙ ap (◌++◌ p.unconfirmed_queue) (sym t))
                  ∙ left),
        )
