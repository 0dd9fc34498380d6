-- ===== src/Network/Progress.antt =====
-- The servers can always go on: no block that waits for the pool keeps out the next one.
use memo_coin.Prelude.{
  ℕ, ◌≡◌, ap, refl, subst, inl, inr, true, none, some, Option-cases, List, [], ◌∷◌, ◌++◌, add32,
  ==_iff,
}
use memo_coin.Data.{Block}
use memo_coin.Keys.{Base58}
use memo_coin.BlockChain.Chain.{IsBlock, add_block-with_block}
use memo_coin.BlockChain.Storage.RoundTrip.{stored_block}
use memo_coin.Metronome.{Metronome, handle_block}
use memo_coin.Metronome.Accepted.{handle_block_lem}
use memo_coin.TxPool.History.{Request, confirms, step}
use memo_coin.Network.Interleaving.{System, Reach, here, next, commits, settles}
use memo_coin.Network.Accounts.{pending_blocks, settled}
use memo_coin.Metronome.Steps as Clock

pub takes :
    (f : Clock.Phase) (x : Block) (m : Metronome)
    → x.header.id ≡ add32 m.last_block.id 1
    → Clock.Step f m (x ∷ []) f (handle_block true x m).0
takes f x m e =
    let k : (handle_block true x m).2 ≡ some x =
      rw (handle_block_lem true x m, (==_iff x.header.id (add32 m.last_block.id 1)).1 e) refl in
    let h = Clock.handles f true x m in
    subst (λ xs. Clock.Step f m xs f (handle_block true x m).0) (ap (Clock.taken true) k) h

-- What is reached: the block and whatever was pending before it are on the chain and confirmed.
abbrev pub Reaches : Base58 → System → Block → Type 0
Reaches b s x =
    (k : ℕ) × (rs : List Request) × (s' : System) × Reach b s k rs (x ∷ []) s'
    × (s'.pending ≡ none)
    × (settled rs ≡ pending_blocks s.pending ++ x ∷ [])

takes_free :
    (b : Base58) (s : System) (x : Block)
    → IsBlock x
    → x.header.id ≡ add32 s.clock.last_block.id 1
    → s.pending ≡ none
    → Reaches b s x
takes_free b s x v e f =
    let (node, n, _) = stored_block b x v.sized in
    let a = add_block-with_block b x s.chain node v.transfers n in
    (
      2,
      confirms x ∷ [],
      _,
      next (next here (commits s x (takes s.phase x s.clock e) f a)) (settles _ x refl),
      refl,
      rw f refl,
    )

-- From any state of the servers, whatever is pending, a block of transfers with the id after the
-- metronome's last block can be submitted: some steps end with the block on the chain, none pending,
-- and the pool having confirmed the pending block if there was one and then the new one.
pub takes-Reaches :
    (b : Base58) (s : System) (x : Block)
    → IsBlock x
    → x.header.id ≡ add32 s.clock.last_block.id 1
    → Reaches b s x
takes-Reaches b s x v e = elim (Option-cases s.pending) [
  | inl f ↦ takes_free b s x v e f
  | inr (y, f) ↦
      let s1 : System = record s { pending = none; pool = step s.pool (confirms y) } in
      let (node, n, _) = stored_block b x v.sized in
      let a = add_block-with_block b x s.chain node v.transfers n in
      (
        3,
        confirms y ∷ confirms x ∷ [],
        _,
        next (next (next here (settles s y f)) (commits s1 x (takes s.phase x s.clock e) refl a))
            (settles _ x refl),
        refl,
        rw f refl,
      )
]
