-- ===== src/Network/Steady.antt =====
-- src/validator.cpp beside the servers: what each step of the servers keeps, while no validator builds
-- with a block pending.
use memo_coin.Prelude.{
  ℕ, suc, ◌+◌, ◌≤◌, ◌<◌, ◌≡◌, refl, Bool-cases, List, [], ◌∷◌, ◌++◌, append-nil, length,
  length-append, add32, u32_mod, All, arith,
}
use memo_coin.Data.{Block, BlockHeader}
use memo_coin.Keys.{Base58}
use memo_coin.TxPool.{TxPool}
use memo_coin.TxPool.Set.{Distinct, contains}
use memo_coin.TxPool.Ghosts.{Within}
use memo_coin.TxPool.Kept.{posted, posted_by}
use memo_coin.TxPool.History.{Request, posts}
use memo_coin.Metronome.Accepted.{Step-Extends}
use memo_coin.Validator.Rounds.{Distinct-apart}
use memo_coin.Network.Interleaving.{System, ticks, commits, settles, submits, hands_out}
use memo_coin.Network.Interleaving as Servers
use memo_coin.Network.Payments.{IsPaid, payments}
use memo_coin.Network.Apart.{
  Apart, with_pool, pops_keep, posts_keep, pops-Apart, posts-Apart, settles-Apart, commits-Apart,
}
use memo_coin.Network.Validators.{Mining}
use memo_coin.Network.Ready.{Ready, ready_all, repool-Ready, late-Ready, Takes}

-- What holds of the servers and the validators, where the first block had the id `base`.
pub record Once (base : ℕ) (w : Mining) (rs : List Request) (xs : List Block) : Type 0 where
  pub apart : Apart w.servers rs xs
  pub taken : All (λ h. h.id ≤ w.servers.clock.last_block.id) w.taken
  pub built : All (Ready w.servers) w.built
  pub last : w.servers.clock.last_block.id ≡ base + length xs

module _ {base : ℕ} {w : Mining} {rs : List Request} {xs : List Block} where
  -- The pool serves a request that leaves nothing unconfirmed out.
  pub serves-Once :
      (p : TxPool) (qs : List Request)
      → Once base w rs xs
      → Apart (with_pool p w.servers) qs xs
      → Within w.servers.pool.unconfirmed_queue p.unconfirmed_queue
      → Once base (record w { servers = with_pool p w.servers }) qs xs
  serves-Once p qs o a h = record {
    apart = a;
    taken = o.taken;
    built =
        ready_all w.servers (with_pool p w.servers) w.built (repool-Ready w.servers p h) o.built;
    last = o.last;
  }

  -- The metronome does something else.
  ticks-Once :
      Once base w rs xs
      → (s : System) → s.clock.last_block ≡ w.servers.clock.last_block
      → s.pool ≡ w.servers.pool
      → s.pending ≡ w.servers.pending
      → Once base (record w { servers = s }) rs xs
  ticks-Once o s e f g = record {
    apart = record {
      in_sync = rw f o.apart.in_sync;
      payers = rw f o.apart.payers;
      held_posted = rw f o.apart.held_posted;
      paid_posted = o.apart.paid_posted;
      once = o.apart.once;
      apart = rw (f, g) o.apart.apart;
      waits = rw (f, g) o.apart.waits;
    };
    taken = rw e o.taken;
    built =
        ready_all w.servers s w.built
          (λ x v. record {
            behind = rw e v.behind;
            once = v.once;
            free = rw (e, g) v.free;
            unconfirmed = rw (e, f) v.unconfirmed;
          })
          o.built;
    last = rw e o.last;
  }

  -- The blockchain takes a block.
  pub Takes-Once :
      (x : Block) (s : System)
      → base + suc (length xs) < u32_mod
      → Takes w.servers x s
      → Distinct (payments x.transactions)
      → Within (payments x.transactions) w.servers.pool.unconfirmed_queue
      → Once base w rs xs
      → Once base (record w { servers = s }) rs (xs ++ x ∷ [])
  Takes-Once x s l t d h o =
      let e : x.header.id ≡ w.servers.clock.last_block.id + 1 =
        unfold add32 in omega (arith, t.id, o.last, l) in
      record {
        apart = commits-Apart w.servers s rs xs x t.was t.pending t.pool d h o.apart;
        taken = older w.taken o.taken (rw t.last (omega (arith, e)));
        built = ready_all w.servers s w.built (late-Ready w.servers s x e t.last) o.built;
        last = rw t.last (omega (arith, e, o.last, length-append xs (x ∷ [])));
      }
    where
      older :
          (hs : List BlockHeader)
          → All (λ h. h.id ≤ w.servers.clock.last_block.id) hs
          → w.servers.clock.last_block.id ≤ s.clock.last_block.id
          → All (λ h. h.id ≤ s.clock.last_block.id) hs
      older [] v m = tt
      older (h ∷ hs) v m = (omega (arith, v.0, m), older hs v.1 m)

module _ {b : Base58} {base : ℕ} {w : Mining} {rs : List Request} {xs : List Block} where
  -- A step of the servers that brings no block.
  pub serves-Step :
      {qs : List Request} {s : System}
      → Distinct (posted rs ++ posted qs)
      → All IsPaid (posted qs)
      → Once base w rs xs
      → Servers.Step b w.servers qs [] s
      → Once base (record w { servers = s }) (rs ++ qs) xs
  unfolding contains
  serves-Step d v o (ticks s t) =
      rw (append-nil rs) (ticks-Once o _ (Step-Extends t).last refl refl)
  serves-Step d v o (settles s x e) = record {
    apart = settles-Apart w.servers rs xs x e o.apart;
    taken = o.taken;
    built =
        ready_all w.servers _ w.built
          (λ y k. record {
            behind = k.behind;
            once = k.once;
            free = λ i. refl;
            unconfirmed = λ i. absurd (let f = k.free i in cc);
          })
          o.built;
    last = o.last;
  }
  serves-Step d v o (submits s valid tx) =
      let p = posted_by (posts valid tx) in
      let d1 : Distinct (posted rs ++ p) = rw (append-nil p) at d in
      let v1 : All IsPaid p = rw (append-nil p) at v in
      serves-Once _ _ o
        (posts-Apart w.servers rs xs valid tx o.apart v1 (λ t m.
          ground (arith, Distinct-apart t (posted rs) p d1, Bool-cases (contains t (posted rs)))))
        (posts_keep valid tx w.servers.pool)
  serves-Step d v o (hands_out s) =
      serves-Once _ _ o (pops-Apart w.servers rs xs o.apart) (pops_keep w.servers.pool)
