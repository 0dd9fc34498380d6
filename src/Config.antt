-- ===== src/Config.antt =====
-- src/config.cpp and the wallet of src/wallet.hpp: what is read from the configuration and key
-- files and written to them. A file is its document; yaml-cpp is a parameter.
pub mod Wallets
pub mod Memory
pub mod Genesis
pub mod Toy
use Prim.Native.String.{String}
use text.Mathlib.Text.{◌==◌ as str_eq}
use memo_coin.Prelude.{
  ℕ, ◌+◌, ◌*◌, ◌%◌, ◌<◌, ◌≡◌, Bool, true, false, ◌&&◌, if◌then◌else◌, Option, none, some, [], ◌∷◌,
  Bytes, take, u32_mod,
}
use memo_coin.Keys.{Base58, base58_encode_key, base58_decode, base58_encode_uuid}
use memo_coin.Messages.{Result, ok, err, Error, ◌>>=◌}
use memo_coin.Text.{find, stoi, mul_int}

abbrev pub same_entry : String → String → String → String → Bool
same_entry a b c d = str_eq a c && str_eq b d

abbrev pub u64_mod : ℕ
u64_mod = 0x1_0000_0000_0000_0000

-- Documents that are maps of maps: `node[a][b].as<std::string>()`, `node[a][b].as<uint64_t>()`, and
-- the assignment of either. An entry that is missing, or no number, makes a read throw.
pub record Yaml : Type 1 where
  pub Node : Type 0
  pub as_string : Node → String → String → Result Bytes
  pub as_u64 : Node → String → String → Result ℕ
  pub set_string : Node → String → String → Bytes → Node
  pub set_u64 : Node → String → String → ℕ → Node
  pub as_string-set_string :
      (n : Node) (a b c d : String) (s : Bytes)
      → as_string (set_string n a b s) c d ≡ (if same_entry a b c d then ok s else as_string n c d)
  pub as_u64-set_string :
      (n : Node) (a b c d : String) (s : Bytes)
      → same_entry a b c d ≡ false
      → as_u64 (set_string n a b s) c d ≡ as_u64 n c d
  pub as_string-set_u64 :
      (n : Node) (a b c d : String) (k : ℕ)
      → same_entry a b c d ≡ false
      → as_string (set_u64 n a b k) c d ≡ as_string n c d
  pub as_u64-set_u64 :
      (n : Node) (a b c d : String) (k : ℕ)
      → k < u64_mod
      → as_u64 (set_u64 n a b k) c d ≡ (if same_entry a b c d then ok k else as_u64 n c d)

pub record Wallet : Type 0 where
  pub priv_key : Bytes
  pub pub_key : Bytes

abbrev pub scaled : Bytes → ℕ → ℕ → Result ℕ
scaled str_val num_end unit = do n ← stoi (take num_end str_val); mul_int n unit

-- The text of the memory size: the first unit that occurs in it counts, in this order.
unfoldable pub parse_memory : Bytes → Result ℕ
parse_memory str_val = elim (find (b'K' ∷ b'B' ∷ []) str_val) [
  | some num_end ↦ scaled str_val num_end 1000
  | none ↦ elim (find (b'M' ∷ b'B' ∷ []) str_val) [
    | some num_end ↦ scaled str_val num_end 1000000
    | none ↦ elim (find (b'G' ∷ b'B' ∷ []) str_val) [
      | some num_end ↦ scaled str_val num_end 1000000000
      | none ↦ err Error.bad_conversion
    ]
  ]
]

module _ (y : Yaml) where
  open y use {Node, as_string, as_u64, set_string, set_u64}

  -- The configuration, and the key file.
  unfoldable pub load_wallet : Base58 → Node → Node → Result Wallet
  load_wallet b config private_config = do
    pub_text ← as_string config "wallet" "public_key"
    priv_text ← as_string private_config "wallet" "private_key"
    pub_key ← base58_decode b 32 pub_text
    priv_key ← base58_decode b 32 priv_text
    ok (record { priv_key = priv_key; pub_key = pub_key })

  -- What the two files hold afterwards.
  unfoldable pub store_wallet : Base58 → Wallet → Node → Node → Result (Node × Node)
  store_wallet b wallet config private_config = do
    pub_text ← base58_encode_key b wallet.pub_key
    priv_text ← base58_encode_key b wallet.priv_key
    ok (
      set_string config "wallet" "public_key" pub_text,
      set_string private_config "wallet" "private_key" priv_text,
    )

  -- The id, and the file afterwards.
  unfoldable pub get_tx_id : Node → Result (ℕ × Node)
  get_tx_id config = do
    nonce ← as_u64 config "wallet" "nonce"
    ok (nonce, set_u64 config "wallet" "nonce" ((nonce + 1) % u64_mod))

  unfoldable pub set_tx_id : ℕ → Node → Node
  set_tx_id nonce config = set_u64 config "wallet" "nonce" nonce

  unfoldable pub get_tx_pool_address : Node → Result Bytes
  get_tx_pool_address config = as_string config "tx_pool" "address"

  -- The four getters of a number of threads read the address.
  unfoldable pub get_tx_pool_threads : Node → Result Bytes
  get_tx_pool_threads config = as_string config "tx_pool" "address"

  unfoldable pub get_validator_address : Node → Result Bytes
  get_validator_address config = as_string config "validator" "address"

  unfoldable pub get_validator_threads : Node → Result Bytes
  get_validator_threads config = as_string config "validator" "address"

  unfoldable pub get_consensus_method : Node → Result Bytes
  get_consensus_method config = as_string config "validator" "consensus"

  unfoldable pub get_metronome_address : Node → Result Bytes
  get_metronome_address config = as_string config "metronome" "address"

  unfoldable pub get_metronome_threads : Node → Result Bytes
  get_metronome_threads config = as_string config "metronome" "address"

  unfoldable pub get_blockchain_address : Node → Result Bytes
  get_blockchain_address config = as_string config "blockchain" "address"

  unfoldable pub get_blockchain_threads : Node → Result Bytes
  get_blockchain_threads config = as_string config "blockchain" "address"

  unfoldable pub set_validator_fingerprint : Base58 → Bytes → Node → Result Node
  set_validator_fingerprint b fingerprint config = do
    text ← base58_encode_uuid b fingerprint
    ok (set_string config "validator" "fingerprint" text)

  unfoldable pub get_validator_memory : Node → Result ℕ
  get_validator_memory config = as_string config "validator" "memory" >>= parse_memory
