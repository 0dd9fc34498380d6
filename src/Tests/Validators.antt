-- ===== src/Tests/Validators.antt =====
-- Validators beside the servers at concrete inputs.
use mathlib.Core.List.{Perm}
use memo_coin.Prelude.{
  bytes_eq, ℕ, ◌+◌, ◌%◌, ◌<◌, u32_mod, ◌≡◌, refl, true, none, List, [], ◌∷◌, replicate, All, arith,
}
use memo_coin.Data.{Block, tx_eq}
use memo_coin.Keys.{zero_key}
use memo_coin.Transactions.{create_reward_transaction}
use memo_coin.Keys.Toy.{toy as toy_base58}
use memo_coin.Messages.{Payload}
use memo_coin.TxPool.{
  init, good, add_transaction, pop_transactions, batch, move_all, move_one, confirm_transactions,
  confirm_loop, confirm_one,
}
use memo_coin.TxPool.Set.{Distinct, contains, from_list, insert_all, insert, erase}
use memo_coin.TxPool.Kept.{held, posted}
use memo_coin.TxPool.History.{Request, posts, pops, confirms, step}
use memo_coin.Validator.{create_block}
use memo_coin.Validator.Created.{create_block-IsBlock}
use memo_coin.Network.Interleaving.{System, settles, submits}
use memo_coin.Network.Payments.{paid}
use memo_coin.Network.Validators.{
  Unpending, Mining, Run, here, next, serves, looks, builds, Taken, takes-Taken,
}
use memo_coin.Network.Once.{Fresh, Run-Distinct}
use memo_coin.BlockChain.{get_balance}
use memo_coin.BlockChain.Ledger.Balances.{received_by, sent_by}
use memo_coin.BlockChain.Chain.{IsBlock, all_txs}
use memo_coin.Network.Balances.{rewards, Run-get_balance}
use memo_coin.Tests.Recovery.{fresh}
use memo_coin.Network.Exactly.{Run-Perm}
use memo_coin.Network.Twice.{Anytime, Run-twice}
use memo_coin.Tests.Inputs.{alice, bob, pay, header_at, genesis, zero_ne_bob, genesis-transfers}
use memo_coin.Tests.Interleaving.{idle}
use memo_coin.Tests.Confirming.{alice_paid, alice-IsPayment, fills}

abbrev start : Mining
start = record { servers = idle; taken = []; built = [] }

start-Fresh : Fresh start genesis
start-Fresh = record {
  phase = refl;
  pending = refl;
  pool = refl;
  back = refl;
  clock = refl;
  taken = refl;
  built = refl;
}

abbrev block : Block
block =
    create_block bob (pay alice bob 1 30 ∷ []) 9 10 genesis.header (header_at 4).input
      (replicate 32 1) 20

block-IsBlock : IsBlock block
block-IsBlock =
    create_block-IsBlock bob 9 10 20 genesis.header (header_at 4).input (replicate 32 1)
      (pay alice bob 1 30 ∷ []) fills zero_ne_bob (alice-IsPayment, tt)

abbrev posted_to : System
posted_to = record idle { pool = step init (posts true (pay alice bob 1 30)) }

abbrev looked : Mining
looked = record { servers = posted_to; taken = genesis.header ∷ []; built = [] }

abbrev prepared : Mining
prepared = record looked {
  servers = record posted_to { pool = step posted_to.pool pops };
  built = block ∷ [];
}

mined : Taken toy_base58 Unpending prepared block
mined =
    takes-Taken toy_base58 Unpending prepared [] [] block refl
      (create_block-IsBlock bob 9 10 20 genesis.header (header_at 4).input (replicate 32 1)
        (pay alice bob 1 30 ∷ []) fills zero_ne_bob (alice-IsPayment, tt))
      refl (unfold create_block in refl)

abbrev settled : Mining
settled = record prepared {
  servers = record mined.servers {
    pending = none;
    pool = step mined.servers.pool (confirms block);
  };
}

abbrev asked : List Request
asked = posts true (pay alice bob 1 30) ∷ pops ∷ confirms block ∷ []

handed_out :
    (pop_transactions posted_to.pool).1 ≡ good (Payload.transactions (pay alice bob 1 30 ∷ []))
unfolding step init add_transaction pop_transactions batch
handed_out = refl

mining : Run toy_base58 Unpending start asked (block ∷ []) settled
mining =
    next
      (next
        (next
          (next (next here (serves start (submits idle true (pay alice bob 1 30))))
            (looks (record start { servers = posted_to }) genesis refl))
          (builds looked [] [] genesis.header bob (pay alice bob 1 30 ∷ []) 9 10 (header_at 4).input
            (replicate 32 1) 20 refl refl handed_out))
        mined.step)
      (serves _ (settles mined.servers block mined.pending))

distinct : Distinct (posted asked)
unfolding contains
distinct = (refl, tt)

Run-Distinct_example :
    Distinct (paid (block ∷ [])) × All (λ t. contains t (posted asked) ≡ true) (paid (block ∷ []))
Run-Distinct_example =
    Run-Distinct genesis start-Fresh distinct (alice_paid, tt) (omega arith) mining

empty_after : held (step prepared.servers.pool (confirms block)) ≡ []
unfolding create_block step init add_transaction pop_transactions batch move_all move_one
    confirm_transactions confirm_loop confirm_one from_list insert_all insert contains erase tx_eq
    bytes_eq zero_key create_reward_transaction
empty_after = refl

is_empty : held settled.servers.pool ≡ []
is_empty = rw mined.pool empty_after

Run-Perm_example : Perm (paid (block ∷ [])) (posted asked)
Run-Perm_example =
    Run-Perm genesis start-Fresh distinct (alice_paid, tt) (omega arith) mining refl is_empty

Run-get_balance_example :
    (n : ℕ) × (get_balance bob settled.servers.chain ≡ good (Payload.number n))
    × (n < u32_mod)
    × ((n + (sent_by bob genesis.transactions + sent_by bob (posted asked))) % u32_mod
        ≡ (received_by bob genesis.transactions
            + (received_by bob (posted asked) + received_by bob (rewards (all_txs (block ∷ [])))))
          % u32_mod)
Run-get_balance_example =
    Run-get_balance 0 genesis bob fresh genesis-transfers (block-IsBlock, tt) start-Fresh distinct
      (alice_paid, tt) (omega arith) mining refl is_empty

Run-twice_example :
    (rs : List Request) × (xs : List Block) × (w : Mining) × Run toy_base58 Anytime start rs xs w
    × (posted rs ≡ pay alice bob 1 30 ∷ [])
    × (paid xs ≡ pay alice bob 1 30 ∷ pay alice bob 1 30 ∷ [])
Run-twice_example =
    Run-twice toy_base58 bob 9 10 20 (header_at 4).input (replicate 32 1) genesis
      (pay alice bob 1 30) start-Fresh fills zero_ne_bob alice-IsPayment
