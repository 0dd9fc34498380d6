-- ===== src/BlockChain/Ledger/Balances.antt =====
-- src/blockchain.cpp: `sync_bal` against an account of what each key received and sent.
use memo_coin.Prelude.{
  ℕ, ◌+◌, ◌%◌, ◌<◌, ◌≡◌, ◌≢◌, ap, refl, Bool, some, List, [], ◌∷◌, Bytes, bytes_eq, bytes_eq_iff,
  if◌then◌else◌, add32, sub32, u32_mod, length, All, arith,
}
use memo_coin.Data.{Transaction}
use memo_coin.Keys.{Base58, base58_encode_key, zero_key, ones}
use memo_coin.Messages.{ok}
use memo_coin.BlockChain.Ledger.{Ledger, find, value_of, apply_tx, sync_tx, sync_bal}
use memo_coin.BlockChain.Ledger.Entries.{find-credit, find-debit}

-- A transaction as its type bounds it, from one account to another.
pub record IsTransfer (t : Transaction) : Type 0 where
  pub key_size : length t.src ≡ 32
  pub small : t.amount < u32_mod
  pub apart : t.src ≢ t.dest

-- A reward has the zero key for its sender.
abbrev pub is_reward : Transaction → Bool
is_reward t = bytes_eq t.src zero_key

abbrev pub received_by : Bytes → List Transaction → ℕ
received_by k [] = 0
received_by k (t ∷ ts) = (if bytes_eq t.dest k then t.amount else 0) + received_by k ts

abbrev pub sent_by : Bytes → List Transaction → ℕ
sent_by k [] = 0
sent_by k (t ∷ ts) =
    (if is_reward t then 0 else if bytes_eq t.src k then t.amount else 0) + sent_by k ts

-- The ledger after `sync_bal`, without the encoder.
unfoldable pub settle : List Transaction → Ledger → Ledger
settle [] l = l
settle (t ∷ ts) l = settle ts (apply_tx (is_reward t) t l)

ones-is_reward :
    (b : Base58) (k s : Bytes) → b.b58enc 128 k ≡ some s → bytes_eq s ones ≡ bytes_eq k zero_key
ones-is_reward b k s e =
    ground (arith, b.enc_zero k, e, bytes_eq_iff s ones, bytes_eq_iff k zero_key)

sync_tx-apply_tx :
    (b : Base58) (t : Transaction) (l : Ledger)
    → length t.src ≡ 32
    → sync_tx b t l ≡ ok (apply_tx (is_reward t) t l)
unfolding sync_tx base58_encode_key
sync_tx-apply_tx b t l h =
    let (s, e) = b.enc_total t.src (omega arith) in ground (arith, e, ones-is_reward b t.src s e)

-- `sync_bal` never throws on keys of 32 bytes.
pub sync_bal-settle :
    (b : Base58) (ts : List Transaction) (l : Ledger)
    → All (λ t. length t.src ≡ 32) ts
    → sync_bal b ts l ≡ ok (settle ts l)
unfolding sync_bal settle
sync_bal-settle b [] l h = refl
sync_bal-settle b (t ∷ ts) l h =
    rw (sync_tx-apply_tx b t l h.0) (sync_bal-settle b ts (apply_tx (is_reward t) t l) h.1)

value_of-apply_tx :
    (k : Bytes) (t : Transaction) (l : Ledger)
    → IsTransfer t
    → (value_of k (apply_tx (is_reward t) t l) + sent_by k (t ∷ [])) % u32_mod
      ≡ (value_of k l + received_by k (t ∷ [])) % u32_mod
unfolding apply_tx value_of add32 sub32
value_of-apply_tx k t l v = ground (
  arith,
  v.small,
  find-credit k t l v.small,
  find-debit t l k v.small v.apart,
  bytes_eq_iff t.dest k,
  bytes_eq_iff t.src k,
  ap (λ j. find j l),
)

-- On transfers between different accounts the balance of any key is what it was, and what the key
-- received, less what it sent, modulo 2 ^ 32; rewards come from nowhere.
pub settle-value_of :
    (k : Bytes) (ts : List Transaction) (l : Ledger)
    → All IsTransfer ts
    → (value_of k (settle ts l) + sent_by k ts) % u32_mod
      ≡ (value_of k l + received_by k ts) % u32_mod
unfolding settle
settle-value_of k [] l v = refl
settle-value_of k (t ∷ ts) l v =
    omega
      (arith, settle-value_of k ts (apply_tx (is_reward t) t l) v.1, value_of-apply_tx k t l v.0)
