-- ===== src/BlockChain/Ledger.antt =====
-- src/blockchain.cpp: the ledger, an `unordered_map` from keys to balances, and `sync_bal`.
-- `srcbal` is an iterator: `find` decides before the credit whether it is `end()`, and what it
-- points to is read after the credit.
pub mod Entries
pub mod Balances
pub mod Totals
use memo_coin.Prelude.{
  ℕ, ◌+◌, ◌≡◌, Bool, true, false, Option, none, some, List, [], ◌∷◌, Bytes, bytes_eq, if◌then◌else◌,
  length, add32, sub32, u32_mod,
}
use memo_coin.Data.{Transaction}
use memo_coin.Keys.{Base58, base58_encode_key, ones}
use memo_coin.Messages.{Result, ok, err, ◌>>=◌}

abbrev pub Ledger : Type 0
Ledger = List (Bytes × ℕ)

unfoldable pub find : Bytes → Ledger → Option ℕ
find k [] = none
find k ((j, v) ∷ l) = if bytes_eq j k then some v else find k l

-- `ledger[k] = v`.
unfoldable pub assign : Bytes → ℕ → Ledger → Ledger
assign k v [] = (k, v) ∷ []
assign k v ((j, w) ∷ l) = if bytes_eq j k then (j, v) ∷ l else (j, w) ∷ assign k v l

-- `ledger.emplace(k, v)` leaves an entry that is there.
unfoldable pub emplace : Bytes → ℕ → Ledger → Ledger
emplace k v l = elim (find k l) [ none ↦ (k, v) ∷ l | some w ↦ l ]

abbrev or_zero : Option ℕ → ℕ
or_zero none = 0
or_zero (some v) = v

-- The balance that `get_balance` answers.
unfoldable pub value_of : Bytes → Ledger → ℕ
value_of k l = or_zero (find k l)

abbrev credit_at : Option ℕ → Transaction → Ledger → Ledger
credit_at none t l = emplace t.dest t.amount l
credit_at (some v) t l = assign t.dest (add32 v t.amount) l

unfoldable pub credit : Transaction → Ledger → Ledger
credit t l = credit_at (find t.dest l) t l

-- The first argument is `srcbal`.
unfoldable pub debit : Option ℕ → Transaction → Ledger → Ledger
debit none t l = emplace t.src (sub32 0 t.amount) l
debit (some _) t l = assign t.src (sub32 (value_of t.src l) t.amount) l

-- One round of the loop of `sync_bal`, `coinbase` being its test on the sender.
unfoldable pub apply_tx : Bool → Transaction → Ledger → Ledger
apply_tx coinbase t l = if coinbase then credit t l else debit (find t.src l) t (credit t l)

unfoldable pub sync_tx : Base58 → Transaction → Ledger → Result Ledger
sync_tx b t l = base58_encode_key b t.src >>= λ s. ok (apply_tx (bytes_eq s ones) t l)

unfoldable pub sync_bal : Base58 → List Transaction → Ledger → Result Ledger
sync_bal b [] l = ok l
sync_bal b (t ∷ ts) l = sync_tx b t l >>= sync_bal b ts

-- The sum that `get_total_coins` computes, before it wraps.
unfoldable pub total : Ledger → ℕ
total [] = 0
total ((k, v) ∷ l) = v + total l
