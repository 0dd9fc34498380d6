-- ===== src/Network/Ready.antt =====
-- src/validator.cpp beside the servers: the blocks that validators have built and can still be taken.
use memo_coin.Prelude.{
  ℕ, ◌+◌, ◌-◌, ◌≤◌, ◌≡◌, ◌∙◌, ap, refl, sym, none, some, List, [], ◌∷◌, ◌++◌, append-nil, Bytes,
  take, drop, take-append-drop, add32, All, All-take, bytes_eq_iff, arith,
}
use memo_coin.Data.{Transaction, Block, BlockHeader, HashInput, block_size}
use memo_coin.Keys.{Base58, zero_key}
use memo_coin.Messages.{Payload}
use memo_coin.Transactions.{create_reward_transaction}
use memo_coin.TxPool.{TxPool, good, pop_transactions}
use memo_coin.TxPool.Set.{Distinct, contains, contains-append}
use memo_coin.TxPool.Sync.{InSync}
use memo_coin.TxPool.Ghosts.{Within}
use memo_coin.TxPool.Pop.{pop_transactions_lem}
use memo_coin.TxPool.History.{Request, posts, pops, confirms, init-InSync}
use memo_coin.TxPool.History as History
use memo_coin.TxPool.Typed.{AllHeld}
use memo_coin.Metronome.Accepted.{Step-Extends}
use memo_coin.Validator.{create_block}
use memo_coin.Validator.Rounds.{popped}
use memo_coin.Network.Interleaving.{System, ticks, commits, settles, submits, hands_out}
use memo_coin.Network.Interleaving as Servers
use memo_coin.Network.Accounts.{add_block-Took}
use memo_coin.Network.Payments.{IsPaid, payments, payments-append, payments_all, Distinct-front}
use memo_coin.Network.Apart.{with_pool}

-- A block that can be taken next has its payments in the unconfirmed queue, and none is pending.
pub record Ready (s : System) (x : Block) : Type 0 where
  pub behind : x.header.id ≤ s.clock.last_block.id + 1
  pub once : Distinct (payments x.transactions)
  pub free : x.header.id ≡ s.clock.last_block.id + 1 → s.pending ≡ none
  pub unconfirmed :
      x.header.id ≡ s.clock.last_block.id + 1
      → Within (payments x.transactions) s.pool.unconfirmed_queue

pub ready_all :
    (s s' : System) (xs : List Block)
    → ((x : Block) → Ready s x → Ready s' x)
    → All (Ready s) xs
    → All (Ready s') xs
ready_all s s' [] h v = tt
ready_all s s' (x ∷ xs) h v = (h x v.0, ready_all s s' xs h v.1)

pub repool-Ready :
    (s : System) (p : TxPool)
    → Within s.pool.unconfirmed_queue p.unconfirmed_queue
    → (x : Block) → Ready s x
    → Ready (with_pool p s) x
repool-Ready s p h x v = record {
  behind = v.behind;
  once = v.once;
  free = v.free;
  unconfirmed = λ e t m. h t (v.unconfirmed e t m);
}

-- With the first block that is taken, all other built blocks come too late.
pub late-Ready :
    (s s' : System) (y : Block)
    → y.header.id ≡ s.clock.last_block.id + 1
    → s'.clock.last_block ≡ y.header
    → (x : Block) → Ready s x
    → Ready s' x
late-Ready s s' y e f x v = record {
  behind = rw f (omega (arith, v.behind, e));
  once = v.once;
  free = λ k. absurd (let q = rw f at k in omega (arith, v.behind, e, q));
  unconfirmed = λ k. absurd (let q = rw f at k in omega (arith, v.behind, e, q));
}

-- What a server's step that brings a block does.
pub record Takes (s : System) (x : Block) (s' : System) : Type 0 where
  pub was : s.pending ≡ none
  pub pending : s'.pending ≡ some x
  pub pool : s'.pool ≡ s.pool
  pub id : x.header.id ≡ add32 s.clock.last_block.id 1
  pub last : s'.clock.last_block ≡ x.header

pub Step-Takes :
    {b : Base58} {s s' : System} {x : Block} → Servers.Step b s [] (x ∷ []) s' → Takes s x s'
Step-Takes {b = b} (commits s x {c = c} {reply = reply} {sent = sent} t p f) =
    let k = add_block-Took b x s.chain c reply sent f in
    let e = Step-Extends t in
    record { was = p; pending = ap some k.block; pool = refl; id = e.linked.0; last = e.last }

pub unreward :
    (txs : List Transaction) (pub_key : Bytes) (now : ℕ)
    → All IsPaid txs
    → payments (txs ++ create_reward_transaction pub_key now ∷ []) ≡ txs
unfolding create_reward_transaction
unreward txs pub_key now v =
    payments-append txs (create_reward_transaction pub_key now ∷ [])
    ∙ rw (payments_all txs v, (bytes_eq_iff zero_key zero_key).1 refl) (append-nil txs)

-- The block that a validator builds.
pub built-Ready :
    (s : System) (h : BlockHeader) (pub_key : Bytes) (txs : List Transaction) (reward_time now : ℕ)
    (input : HashInput) (solution : Bytes) (difficulty : ℕ)
    → InSync s.pool
    → AllHeld IsPaid s.pool
    → s.pending ≡ none
    → h.id ≤ s.clock.last_block.id
    → (pop_transactions s.pool).1 ≡ good (Payload.transactions txs)
    → Ready
        (with_pool (History.step s.pool pops) s)
        (create_block pub_key txs reward_time now h input solution difficulty)
unfolding create_block contains
built-Ready s h pub_key txs reward_time now input solution difficulty v a p l e =
    let q = s.pool.submitted_queue in
    let n = block_size - 1 in
    let (r, _, u) = pop_transactions_lem s.pool in
    let t : txs ≡ take n q = popped txs (take n q) (sym e ∙ r) in
    let k = unreward txs pub_key reward_time (rw t (All-take IsPaid n q a.submitted)) in
    record {
      behind = unfold add32 in omega (arith, l);
      once =
          rw (k, t)
            (Distinct-front (take n q) (drop n q)
              (rw (take-append-drop n q) (Distinct-front q s.pool.unconfirmed_queue v.distinct)));
      free = λ _. p;
      unconfirmed = λ _ t1 m.
          unfold History.step in
          rw u (
            let m1 = rw (k, t) at m in
            ground (arith, contains-append t1 s.pool.unconfirmed_queue (take n q)));
    }
