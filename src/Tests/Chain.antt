-- ===== src/Tests/Chain.antt =====
-- src/blockchain.cpp and src/keys.cpp at concrete inputs.
use mathlib.Core.List.{Perm, perm_append_comm}
use mathlib.Core.List.Perm
use memo_coin.Prelude.{
  ℕ, ◌+◌, ◌%◌, ◌<◌, ◌≡◌, ◌↔◌, refl, List, [], ◌∷◌, Bytes, some, none, replicate, length, u32_mod,
  map, false, All, arith,
}
use memo_coin.Data.{Transaction}
use memo_coin.Messages.{ok}
use memo_coin.Keys.{zero_key}
use memo_coin.Keys.Toy.{toy}
use memo_coin.BlockChain.{BlockChain, get_balance, get_total_coins}
use memo_coin.BlockChain.Ledger.{apply_tx, total, find}
use memo_coin.BlockChain.Ledger.Balances.{is_reward}
use memo_coin.BlockChain.Ledger.Totals.{self_transfer_mints}
use memo_coin.BlockChain.Storage.RoundTrip.{TxNarrow}
use memo_coin.BlockChain.Chain.{history, all_txs}
use memo_coin.BlockChain.Unordered.{get_balance-perm}
use memo_coin.Tests.Inputs.{
  alice, pay, genesis, second, added, genesis-transfers, added-IsBlock, first, first-IsBlock,
  second-IsBlock,
}

abbrev txs : List Transaction
txs = all_txs (genesis ∷ added)

pub added-narrow : All (λ x. All TxNarrow x.transactions) added
added-narrow = (
  (
    record { id = omega arith; amount = omega arith },
    (record { id = omega arith; amount = omega arith }, tt),
  ),
  ((record { id = omega arith; amount = omega arith }, tt), tt),
)

alice_not_reward : is_reward (pay alice alice 1 30) ≡ false
unfolding zero_key memo_coin.Prelude.bytes_eq
alice_not_reward = refl

alice_absent : find alice [] ≡ none
unfolding find
alice_absent = refl

self_transfer_mints_example :
    total (apply_tx (is_reward (pay alice alice 1 30)) (pay alice alice 1 30) []) ≡ total [] + 30
self_transfer_mints_example =
    self_transfer_mints (pay alice alice 1 30) [] refl alice_not_reward alice_absent

-- The same transactions with the two blocks exchanged.
exchanged : Perm txs (all_txs (genesis ∷ second ∷ first ∷ []))
exchanged =
    Perm.cons (pay zero_key alice 0 100) (perm_append_comm first.transactions second.transactions)

get_balance-perm_example :
    (c : BlockChain) × (c' : BlockChain) × (history toy 0 genesis added ≡ ok c)
    × (history toy 0 genesis (second ∷ first ∷ []) ≡ ok c')
    × ((k : Bytes) → get_balance k c ≡ get_balance k c')
    × (get_total_coins c ≡ get_total_coins c')
get_balance-perm_example =
    get_balance-perm toy 0 0 genesis genesis added (second ∷ first ∷ []) genesis-transfers
      genesis-transfers added-IsBlock (second-IsBlock, (first-IsBlock, tt)) exchanged
