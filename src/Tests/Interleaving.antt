-- ===== src/Tests/Interleaving.antt =====
-- The servers side by side at concrete inputs: a block of the chain is taken, and a client posts
-- before the pool confirms it.
use memo_coin.Prelude.{
  ℕ, ◌≡◌, refl, inl, inr, ◌⊎◌, Bool, true, false, ◌||◌, Option, none, some, List, [], ◌∷◌, ◌++◌,
  bytes_eq, if◌then◌else◌,
}
use memo_coin.Data.{Block, Status, tx_eq}
use memo_coin.Keys.Toy.{toy as toy_base58}
use memo_coin.TxPool.{
  init, query_tx_status, add_transaction, pop_transactions, batch, move_all, move_one,
}
use memo_coin.TxPool.Set.{contains, insert, erase}
use memo_coin.TxPool.Kept.{held, posted}
use memo_coin.TxPool.History.{Request, posts, pops, run, step, NewAlong}
use memo_coin.BlockChain.{back, tx_status}
use memo_coin.BlockChain.Chain.{with_block, add_block-with_block}
use memo_coin.BlockChain.Storage.{StoredBlock}
use memo_coin.BlockChain.Storage.RoundTrip.{stored_block}
use memo_coin.Metronome.{handle_block, register_validator}
use memo_coin.Metronome.Accepted.{Linked}
use memo_coin.Network.Interleaving.{System, Reach, here, next, ticks, commits, submits, hands_out}
use memo_coin.Network.Accounts.{pending_blocks, settled}
use memo_coin.Network.Outcomes.{Reach-run, Reach-back, Reach-posted, Reach-query_tx_status}
use memo_coin.Metronome.Steps.{handles, registers, waiting}
use memo_coin.Tests.Inputs.{alice, bob, pay, genesis, first, first-IsBlock}
use memo_coin.Tests.Network.{chain, clock}

abbrev pub idle : System
idle = record { phase = waiting; clock = clock; chain = chain; pending = none; pool = init }

abbrev pub requests : List Request
requests = posts true (pay alice bob 1 30) ∷ pops ∷ posts true (pay bob alice 7 10) ∷ []

abbrev pub node : StoredBlock
node = (stored_block toy_base58 first first-IsBlock.sized).0

abbrev pub busy : System
busy = record {
  phase = waiting;
  clock = (handle_block true first clock).0;
  chain = with_block first node chain;
  pending = some first;
  pool = run init requests;
}

pub walk : Reach toy_base58 idle 4 requests (first ∷ []) busy
unfolding run handle_block memo_coin.Prelude.add32
walk =
    next
      (next (next (next here (submits idle true (pay alice bob 1 30))) (hands_out _)) (
        commits _ first (handles waiting true first clock) refl (
          add_block-with_block toy_base58 first chain node first-IsBlock.transfers
            (stored_block toy_base58 first first-IsBlock.sized).1)))
      (submits _ true (pay bob alice 7 10))

abbrev registered : System
registered = record busy { clock = (register_validator busy.clock).0 }

ticking : Reach toy_base58 busy 1 [] [] registered
ticking = next here (ticks busy (registers waiting busy.clock))

pub new : NewAlong init requests
unfolding contains tx_eq bytes_eq init step add_transaction pop_transactions move_all move_one batch
    insert erase
new = (refl, (tt, (refl, tt)))

Reach-run_example :
    (busy.pool ≡ run idle.pool requests)
    × (busy.chain.blocks ≡ idle.chain.blocks ++ (settled requests ++ pending_blocks busy.pending))
Reach-run_example = Reach-run refl walk

Reach-back_example :
    (busy.chain.blocks ≡ idle.chain.blocks ++ first ∷ [])
    × Linked genesis.header (first ∷ [])
    × ((z : Block) × (back busy.chain.blocks ≡ some z) × (z.header ≡ busy.clock.last_block))
Reach-back_example = Reach-back genesis refl refl refl refl walk

is_posted : contains (pay bob alice 7 10) (posted requests) ≡ true
unfolding contains tx_eq bytes_eq
is_posted = refl

Reach-posted_example :
    (contains (pay bob alice 7 10) (held busy.pool) ≡ true)
    ⊎ (tx_status bob 7 busy.chain ≡ Status.confirmed)
Reach-posted_example = Reach-posted (pay bob alice 7 10) refl refl walk is_posted

Reach-query_tx_status_example :
    query_tx_status (tx_status bob 7 registered.chain) bob 7 busy.pool ≡ (
      if contains (pay bob alice 7 10) busy.pool.submitted_queue
      then Status.submitted
      else if contains (pay bob alice 7 10) busy.pool.unconfirmed_queue
      then Status.unconfirmed
      else Status.confirmed)
Reach-query_tx_status_example =
    Reach-query_tx_status (pay bob alice 7 10) refl refl new walk is_posted ticking
