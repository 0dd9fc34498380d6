-- ===== src/Network/Once.antt =====
-- src/validator.cpp beside the servers: no payment is on the chain twice, where no validator builds
-- while a block is pending.
use memo_coin.Prelude.{
  ℕ, suc, ◌+◌, ◌≤◌, ◌<◌, ◌≡◌, ◌∙◌, ap, refl, sym, true, Option, none, some, List, [], ◌∷◌, ◌++◌,
  append-nil, Bytes, length, length-append, u32_mod, All, All-of-append, arith,
}
use memo_coin.Data.{Transaction, Block}
use memo_coin.Keys.{Base58}
use memo_coin.TxPool.{init}
use memo_coin.TxPool.Set.{Distinct, contains, All-contains}
use memo_coin.TxPool.Ghosts.{Within}
use memo_coin.TxPool.Kept.{posted}
use memo_coin.TxPool.History.{Request, pops, init-InSync, step-InSync}
use memo_coin.TxPool.History as History
use memo_coin.BlockChain.{back}
use memo_coin.Metronome.{empty_block}
use memo_coin.Metronome.Steps as Clock
use memo_coin.Network.Drain.{posted-append}
use memo_coin.Network.Outcomes.{Reach-back}
use memo_coin.Network.Payments.{IsPaid, paid, Distinct-front}
use memo_coin.Network.Apart.{with_pool, pops-Apart, pops_keep}
use memo_coin.Network.Ready.{ready_all, repool-Ready, Step-Takes, built-Ready}
use memo_coin.Network.Steady.{Once, Takes-Once, serves-Step}
use memo_coin.Network.Validators.{
  Unpending, Mining, Step, Run, Run-Reach, here, next, serves, looks, builds, commits, empties,
}

pub All-at :
    {A : Type 0} (P : A → Type 0) (before after : List A) (x : A) (xs : List A)
    → xs ≡ before ++ x ∷ after
    → All P xs
    → P x
All-at P before after x xs e v = (All-of-append P before (x ∷ after) (rw (← e) v)).1.0

nothing : (ts : List Transaction) → Within [] ts
unfolding contains
nothing ts t m = absurd cc

Step-Once :
    {b : Base58} {base : ℕ} {rs qs : List Request} {xs ys : List Block} {w w1 : Mining}
    → ((z : Block) → back w.servers.chain.blocks ≡ some z → z.header ≡ w.servers.clock.last_block)
    → Distinct (posted rs ++ posted qs)
    → All IsPaid (posted qs)
    → base + (length xs + length ys) < u32_mod
    → Once base w rs xs
    → Step b Unpending w qs ys w1
    → Once base w1 (rs ++ qs) (xs ++ ys)
unfolding empty_block
Step-Once {rs = rs} {xs = xs} k d v l o (serves w t) = rw (append-nil xs) (serves-Step d v o t)
Step-Once {rs = rs} {xs = xs} k d v l o (looks w z e) =
    rw (append-nil rs, append-nil xs)
      record {
        apart = o.apart;
        taken = (rw (k z e) (omega arith), o.taken);
        built = o.built;
        last = o.last;
      }
Step-Once {rs = rs} {xs = xs} k d v l o
      (builds w before after h pub_key txs reward_time now input solution n e m f) =
    rw (append-nil xs) record {
      apart = pops-Apart w.servers rs xs o.apart;
      taken = o.taken;
      built = (
        built-Ready w.servers h pub_key txs reward_time now input solution n o.apart.in_sync
            o.apart.payers m (All-at _ before after h w.taken e o.taken) f,
        ready_all w.servers (with_pool (History.step w.servers.pool pops) w.servers) w.built
            (repool-Ready w.servers _ (pops_keep w.servers.pool)) o.built,
      );
      last = o.last;
    }
Step-Once {rs = rs} {xs = xs} k d v l o (commits w before after x {s = s} e t) =
    let r = All-at _ before after x w.built e o.built in
    let q = Step-Takes t in
    let i : x.header.id ≡ w.servers.clock.last_block.id + 1 =
      unfold memo_coin.Prelude.add32 in omega (arith, q.id, o.last, l) in
    rw (append-nil rs) (Takes-Once x s (omega (arith, l)) q r.once (r.unconfirmed i) o)
Step-Once {rs = rs} {xs = xs} k d v l o (empties w x hash now {s = s} e t) =
    let n : x.transactions ≡ [] = ap (λ y. y.transactions) e in
    rw (append-nil rs)
      (Takes-Once x s (omega (arith, l)) (Step-Takes t) (rw n tt) (rw n (nothing _)) o)

-- The start: nothing is taken or built, and the metronome's last block is the chain's.
pub record Fresh (w : Mining) (last : Block) : Type 0 where
  pub phase : w.servers.phase ≡ Clock.waiting
  pub pending : w.servers.pending ≡ none
  pub pool : w.servers.pool ≡ init
  pub back : back w.servers.chain.blocks ≡ some last
  pub clock : last.header ≡ w.servers.clock.last_block
  pub taken : w.taken ≡ []
  pub built : w.built ≡ []

Run-Once :
    {b : Base58} {w0 w : Mining} {rs : List Request} {xs : List Block} (last : Block)
    → Fresh w0 last
    → Distinct (posted rs)
    → All IsPaid (posted rs)
    → last.header.id + length xs < u32_mod
    → Run b Unpending w0 rs xs w
    → Once last.header.id w rs xs
Run-Once last f d v l here = record {
  apart = record {
    in_sync = rw f.pool init-InSync;
    payers = rw f.pool (unfold init in record { submitted = tt; unconfirmed = tt });
    held_posted = rw f.pool (unfold init in nothing _);
    paid_posted = nothing _;
    once = tt;
    apart = λ t m k. nothing _ t k;
    waits = rw f.pending (nothing _);
  };
  taken = rw f.taken tt;
  built = rw f.built tt;
  last = rw (← f.clock) (omega arith);
}
Run-Once last f d v l (next {rs = rs} {qs = qs} {xs = xs} {ys = ys} {w1 = w1} r t) =
    let d1 = rw (posted-append rs qs) at d in
    let v1 = All-of-append IsPaid (posted rs) (posted qs) (rw (posted-append rs qs) at v) in
    let l1 : last.header.id + (length xs + length ys) < u32_mod =
      omega (arith, l, length-append xs ys) in
    let o =
      Run-Once last f (Distinct-front (posted rs) (posted qs) d1) v1.0 (omega (arith, l1)) r in
    let (n, q) = Run-Reach r in
    let (_, _, (y, h, k)) = Reach-back last f.phase f.pending f.back f.clock q in
    let known : (z : Block)
        → back w1.servers.chain.blocks ≡ some z
        → z.header ≡ w1.servers.clock.last_block =
      λ z e. let i : z ≡ y = cc in rw i k in
    Step-Once known d1 v1.1 l1 o t

-- Any number of validators beside the servers, from an empty pool with no block pending, a waiting
-- metronome whose last block is the chain's, and no header taken and no block built yet, where no
-- two transactions that were posted with a valid signature share sender and id and none has the
-- zero key for its sender, the ids of blocks stay below 2 ^ 32, and no validator builds a block
-- between the time a block is taken and the time the pool has confirmed it: no two transactions of
-- the taken blocks, rewards aside, share sender and id, and for each of them one of the same
-- sender and id was posted with a valid signature.
pub Run-Distinct :
    {b : Base58} {w0 w : Mining} {rs : List Request} {xs : List Block} (last : Block)
    → Fresh w0 last
    → Distinct (posted rs)
    → All IsPaid (posted rs)
    → last.header.id + length xs < u32_mod
    → Run b Unpending w0 rs xs w
    → Distinct (paid xs) × All (λ t. contains t (posted rs) ≡ true) (paid xs)
Run-Distinct {rs = rs} {xs = xs} last f d v l r =
    let a = (Run-Once last f d v l r).apart in
    (a.once, All-contains (λ t. contains t (posted rs) ≡ true) (paid xs) a.paid_posted)
