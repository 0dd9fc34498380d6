-- ===== src/Network/Confirmable.antt =====
-- A validator that goes on alone gets every posted transaction confirmed, whatever the servers did
-- before.
use memo_coin.Prelude.{
  ℕ, ◌+◌, ◌-◌, ◌*◌, ◌≤◌, ◌≡◌, ◌≢◌, ◌∙◌, refl, subst, append-nil, append_assoc, inl, inr, none, some,
  Option-cases, List, [], ◌∷◌, ◌++◌, Bytes, length, All, arith,
}
use memo_coin.Data.{Transaction, Block, HashInput, Status, block_size}
use memo_coin.Keys.{Base58, zero_key}
use memo_coin.TxPool.{TxPool, init, query_tx_status, probe}
use memo_coin.TxPool.Set.{contains, contains-append, All-contains}
use memo_coin.TxPool.Ghosts.{NoGhosts}
use memo_coin.TxPool.History.{
  Request, confirms, step, NewAlong, step-InSync, run-init-InSync, run-init-NoGhosts,
}
use memo_coin.TxPool.Kept.{held, posted, length-confirm_transactions}
use memo_coin.TxPool.Typed.{step-AllHeld, run-init-AllHeld}
use memo_coin.BlockChain.{back, tx_status}
use memo_coin.Validator.Created.{IsPayment, Fills}
use memo_coin.Network.Interleaving.{System, Reach, here, next, settles}
use memo_coin.Network.Outcomes.{Reach-run, Reach-back, Reach-posted}
use memo_coin.Network.Alone.{Sound, Tip, MadeBy}
use memo_coin.Network.Drain.{Drains, drained, behind, posted-append}
use memo_coin.Network.Validators.{Unpending, Mining, Run, Run-Reach, serves}
use memo_coin.Network.Validators as Validators
use memo_coin.Metronome.Steps as Clock

-- Validators beside the servers `s`, that have taken no header and built no block.
abbrev pub with_validators : System → Mining
with_validators s = record { servers = s; taken = []; built = [] }

-- From a state that is reached with the requests `rs`: `count` blocks, all `made` and each built of
-- what the pool replied to a pop, end with an empty pool, no block pending, and every transaction
-- that was posted with a valid signature confirmed, for a client that asks the pool.
pub record Confirms (b : Base58) (made : Block → Type 0) (s : System) (rs : List Request)
    (count : ℕ) : Type 0 where
  pub requests : List Request
  pub blocks : List Block
  pub after : Mining
  pub reached : Run b Unpending (with_validators s) requests blocks after
  pub quiet : posted requests ≡ []
  pub counted : length blocks ≡ count
  pub all_made : All made blocks
  pub free : after.servers.pending ≡ none
  pub empty : held after.servers.pool ≡ []
  pub confirmed :
      All
        (λ t.
          query_tx_status (tx_status t.src t.id after.servers.chain) t.src t.id after.servers.pool
          ≡ Status.confirmed)
        (posted rs)

numbered :
    {b : Base58} {s s' : System} {j k : ℕ} {rs : List Request} {xs : List Block}
    → j ≡ k
    → Reach b s j rs xs s'
    → Reach b s k rs xs s'
numbered {b = b} {s = s} {s' = s'} {rs = rs} {xs = xs} e r = subst (λ i. Reach b s i rs xs s') e r

Reach-append :
    {b : Base58} {s s1 s2 : System} {k n : ℕ} {rs qs : List Request} {xs ys : List Block}
    → Reach b s k rs xs s1
    → Reach b s1 n qs ys s2
    → Reach b s (n + k) (rs ++ qs) (xs ++ ys) s2
Reach-append {rs = rs} {xs = xs} r here =
    rw (append-nil rs, append-nil xs) (numbered (omega arith) r)
Reach-append {rs = rs} {xs = xs} r (next {rs = qs} {qs = qs1} {xs = ys} {ys = ys1} w t) =
    rw (← append_assoc rs qs qs1, ← append_assoc xs ys ys1)
      (numbered (omega arith) (next (Reach-append r w) t))

both_nil : (xs ys : List Transaction) → xs ++ ys ≡ [] → (xs ≡ []) × (ys ≡ [])
both_nil [] ys e = (refl, e)
both_nil (x ∷ xs) ys e = absurd cc

-- A status query on a pool that holds nothing is answered by the blockchain.
asked :
    (remote : Status) (src : Bytes) (id : ℕ) (p : TxPool)
    → NoGhosts p
    → held p ≡ []
    → query_tx_status remote src id p ≡ remote
unfolding query_tx_status contains
asked remote src id p v e =
    let (e0, e1) = both_nil p.submitted_queue p.unconfirmed_queue e in
    let q = probe src id in ground (arith, rw e0 at v.submitted q, rw e1 at v.unconfirmed q)

module _ {b : Base58} {s0 s : System} {n : ℕ} {rs : List Request} {xs : List Block} where
  drained-Confirms :
      {k : ℕ} {made : Block → Type 0}
      → s0.pending ≡ none
      → s0.pool ≡ init
      → Reach b s0 n rs xs s
      → Drains b made (with_validators s) k
      → Confirms b made s rs k
  unfolding contains
  drained-Confirms e i r d = record {
    requests = d.requests;
    blocks = d.blocks;
    after = d.after;
    reached = d.steps;
    quiet = d.quiet;
    counted = d.count;
    all_made = d.all_made;
    free = d.free;
    empty = d.empty;
    confirmed = All-contains _ (posted rs) (λ t h.
        let w = Reach-append r (Run-Reach d.steps).1 in
        let p = Reach-run e w in
        let v : NoGhosts d.after.servers.pool =
          rw (p.0, i) (run-init-NoGhosts (rs ++ d.requests)) in
        asked _ t.src t.id d.after.servers.pool v d.empty
        ∙ elim (Reach-posted t e i w (
            rw (posted-append rs d.requests)
              (ground (arith, h, contains-append t (posted rs) (posted d.requests))))) [
                | inl o ↦ absurd (let q = rw d.empty at o in cc)
                | inr o ↦ o
              ]);
  }

  -- Whatever the interleaving, from an empty pool with no block pending and a waiting metronome whose
  -- last block is the chain's, where no transaction is posted while the pool holds one of the same
  -- sender and id and every transaction that was posted with a valid signature has arrays of their
  -- types' sizes, an amount below 2 ^ 32, a receiver that is not the sender and a sender that is not
  -- the zero key: for any key of a validator but the zero key and any solution of the right sizes,
  -- there is a run from then on, with validators that have taken and built nothing yet and build only
  -- while no block is pending, in which nobody posts, all blocks are of that key and solution, each
  -- on a header that the blockchain answered and of what the pool replied to a pop, and after which
  -- the pool is empty, no block is pending, and a status query on any transaction that was posted
  -- with a valid signature is answered `confirmed`; where the pool holds at most `m` times
  -- `block_size - 1` transactions, the run has `m + 1` blocks.
  pub Reach-Confirms :
      (pub_key : Bytes) (reward_time now difficulty : ℕ) (input : HashInput) (solution : Bytes)
      (m : ℕ) (last : Block)
      → Fills pub_key input solution difficulty
      → zero_key ≢ pub_key
      → s0.phase ≡ Clock.waiting
      → s0.pending ≡ none
      → s0.pool ≡ init
      → back s0.chain.blocks ≡ some last
      → last.header ≡ s0.clock.last_block
      → NewAlong init rs
      → All IsPayment (posted rs)
      → Reach b s0 n rs xs s
      → length (held s.pool) ≤ m * (block_size - 1)
      → Confirms b (MadeBy pub_key reward_time now difficulty input solution) s rs (m + 1)
  Reach-Confirms pub_key reward_time now difficulty input solution m last f z o e i k g w v r l =
      let p = Reach-run e r in
      let (_, _, (y, h, c)) = Reach-back last o e k g r in
      let tip : Tip s = record { block = y; is_back = h; same = c } in
      let sound : Sound s = record {
        in_sync = rw (p.0, i) (run-init-InSync rs w);
        payments = rw (p.0, i) (run-init-AllHeld IsPayment rs v);
      } in
      let w0 = with_validators s in
      elim (Option-cases s.pending) [
        | inl q ↦
            drained-Confirms e i r
              (drained b pub_key reward_time now difficulty input solution m w0 f z q sound tip l)
        | inr (x, q) ↦
            let s1 : System = record s { pending = none; pool = step s.pool (confirms x) } in
            let sound1 : Sound s1 = record {
              in_sync = step-InSync s.pool (confirms x) tt sound.in_sync;
              payments = step-AllHeld IsPayment s.pool (confirms x) tt sound.payments;
            } in
            let tip1 : Tip s1 = record { block = y; is_back = h; same = c } in
            let l1 : length (held s1.pool) ≤ m * (block_size - 1) =
              unfold step in omega (arith, l, length-confirm_transactions x s.pool) in
            let d =
              drained b pub_key reward_time now difficulty input solution m (with_validators s1) f z
                refl sound1 tip1 l1 in
            drained-Confirms e i r (
              subst (Drains b (MadeBy pub_key reward_time now difficulty input solution) w0)
                (omega arith)
                (behind (Validators.next Validators.here (serves w0 (settles s x q))) refl tt d))
      ]
