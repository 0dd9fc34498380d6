-- ===== src/CommandLine/Commands.antt =====
-- src/dsc.cpp, and the displays of src/wallet.cpp, src/transaction.cpp and src/block.cpp: what the
-- commands do, on the documents of the two files they name, which are not one file. A command that
-- throws ends the process; what it has written to files before is then not kept here.
pub mod Posts
pub mod Sends
pub mod Balance
pub mod Setup
pub mod Servers
pub mod Create
use memo_coin.Prelude.{
  ℕ, zero, suc, ◌+◌, ◌-◌, ◌%◌, Bool, true, false, ltb, bytes_eq, if◌then◌else◌, Option, none, some,
  List, [], ◌∷◌, Bytes, add32, u32_mod,
}
use memo_coin.Data.{Transaction, Block, BlockHeader, Status}
use memo_coin.Keys.{Base58, base58_encode_key, base58_decode}
use memo_coin.Messages.{Result, ok, err, ◌>>=◌}
use memo_coin.Wire.{Alpaca, Server}
use memo_coin.Text.{i32_limit, stoi}
use memo_coin.Config.{
  Yaml, Wallet, load_wallet, store_wallet, get_tx_id, set_tx_id, get_tx_pool_address,
  get_validator_address, get_blockchain_address, get_metronome_address, get_consensus_method,
  get_validator_memory, set_validator_fingerprint,
}
use memo_coin.Transactions.{Ed25519, create_transaction}
use memo_coin.Keys.Generate.{create_wallet}
use memo_coin.Clients.{ℤ, as_int, submit_transaction, query_transaction, query_balance}

-- A conversion of an `int` to a `uint64_t`.
unfoldable pub sign_extend : ℕ → ℕ
sign_extend p = if ltb p i32_limit then p else p + (0x1_0000_0000_0000_0000 - u32_mod)

-- Each record holds the texts and numbers that are printed, in order.
pub record WalletText : Type 0 where
  pub pub_key : Bytes
  pub priv_key : Bytes

pub record TransactionText : Type 0 where
  pub src : Bytes
  pub dest : Bytes
  pub amount : ℤ
  pub id : ℕ
  pub timestamp : ℕ
  pub signature : Bytes

pub record HeaderText : Type 0 where
  pub hash : Bytes
  pub prev_hash : Bytes
  pub difficulty : ℤ
  pub timestamp : ℕ
  pub id : ℤ

unfoldable pub display_wallet : Base58 → Wallet → Result WalletText
display_wallet b wallet = do
  pub_key ← base58_encode_key b wallet.pub_key
  priv_key ← base58_encode_key b wallet.priv_key
  ok (record { pub_key = pub_key; priv_key = priv_key })

-- The bytes of the signature are printed in hexadecimal.
unfoldable pub display_transaction : Base58 → Transaction → Result TransactionText
display_transaction b tx = do
  src ← base58_encode_key b tx.src
  dest ← base58_encode_key b tx.dest
  ok (record {
    src = src;
    dest = dest;
    amount = as_int tx.amount;
    id = tx.id;
    timestamp = tx.timestamp;
    signature = tx.signature;
  })

unfoldable pub display_block_header : Base58 → BlockHeader → Result HeaderText
display_block_header b header = do
  hash ← base58_encode_key b header.hash
  prev_hash ← base58_encode_key b header.prev_hash
  ok (record {
    hash = hash;
    prev_hash = prev_hash;
    difficulty = as_int header.difficulty;
    timestamp = header.timestamp;
    id = as_int header.id;
  })

display_transactions : Base58 → List Transaction → Result (List TransactionText)
display_transactions b [] = ok []
display_transactions b (tx ∷ txs) = do
  text ← display_transaction b tx
  texts ← display_transactions b txs
  ok (text ∷ texts)

unfoldable pub display_block : Base58 → Block → Result (HeaderText × List TransactionText)
unfolding display_transactions
display_block b block = do
  header ← display_block_header b block.header
  txs ← display_transactions b block.transactions
  ok (header, txs)

-- The consensus model of a validator.
pub data Model : Type 0 where
  pow : Model
  -- Its fingerprint, and the size of its memory.
  pom : Bytes → ℕ → Model

-- A validator that is ready for its loop, or none if the method has another name.
pub record Prepared (N : Type 0) : Type 0 where
  pub model : Option Model
  pub wallet : Wallet
  pub key_file : N

-- The two files of a command, and the servers.
pub record World (N S : Type 0) : Type 0 where
  pub config : N
  pub key_file : N
  pub servers : S

module _ (y : Yaml) (b : Base58) where
  open y use {Node}

  -- The private key that OpenSSL made, if it did, and what uninitialised keys hold.
  unfoldable pub cl_wallet_create :
      Ed25519 → Option Bytes → Bytes × Bytes → Node → Node → Result ((Node × Node) × WalletText)
  cl_wallet_create e pkey junk config key_file = do
    let wallet = create_wallet e pkey junk
    files ← store_wallet y b wallet config key_file
    text ← display_wallet b wallet
    ok (files, text)

  unfoldable pub cl_wallet_key : Node → Node → Result WalletText
  cl_wallet_key config key_file = do
    wallet ← load_wallet y b config key_file
    display_wallet b wallet

  -- The model, and the key file afterwards: the fingerprint is written to the key file, and the size
  -- of the memory read from it. `uint32_t memory` holds the bit pattern of the `int`.
  unfoldable pub choose_model : Bytes → Bytes → Node → Result (Option Model × Node)
  choose_model consensus_type fingerprint key_file =
      if bytes_eq consensus_type (b'p' ∷ b'o' ∷ b'w' ∷ [])
      then ok (some pow, key_file)
      else if bytes_eq consensus_type (b'p' ∷ b'o' ∷ b'm' ∷ [])
      then (do
        key_file ← set_validator_fingerprint y b fingerprint key_file
        memory ← get_validator_memory y key_file
        ok (some (pom fingerprint memory), key_file))
      else ok (none, key_file)

  -- `run_validator` up to `validator.start`.
  unfoldable pub run_validator : Bytes → Node → Node → Result (Prepared Node)
  run_validator fingerprint config key_file = do
    val_address ← get_validator_address y config
    bc_address ← get_blockchain_address y config
    met_address ← get_metronome_address y config
    pool_address ← get_tx_pool_address y config
    consensus_type ← get_consensus_method y config
    wallet ← load_wallet y b config key_file
    (model, key_file) ← choose_model consensus_type fingerprint key_file
    ok (record { model = model; wallet = wallet; key_file = key_file })

  module _ (alpaca : Alpaca) {S : Type 0} where
    -- `query_balance` returns the answer as an `int`, which becomes a `uint64_t` to be printed.
    unfoldable pub cl_wallet_balance : Server S → Node → Node → S → Result (S × ℕ)
    cl_wallet_balance blockchain config key_file s = do
      address ← get_blockchain_address y config
      wallet ← load_wallet y b config key_file
      (s, balance) ← query_balance alpaca blockchain wallet.pub_key s
      ok (s, sign_extend balance)

    -- The id that is asked for, and the status that is printed.
    unfoldable pub cl_wallet_transaction :
        Server S → Bytes → Node → Node → S → Result (S × (ℕ × Status))
    cl_wallet_transaction tx_pool arg_id config key_file s = do
      address ← get_tx_pool_address y config
      id ← stoi arg_id
      wallet ← load_wallet y b config key_file
      (s, status) ← query_transaction alpaca tx_pool wallet.pub_key (sign_extend id) s
      ok (s, (sign_extend id, status))

    module _ (e : Ed25519) (padding : Bytes) (tx_pool : Server S) where
      abbrev pub created : Wallet → Bytes → ℕ → ℕ → ℕ → Transaction
      created wallet dest amount now id =
          create_transaction e padding now wallet.priv_key wallet.pub_key dest amount id

      -- What is printed of the transaction, and whether it was posted: 0 against -1.
      unfoldable pub cl_wallet_send :
          ℕ → Bytes → Bytes → World Node S → Result (World Node S × (TransactionText × Bool))
      cl_wallet_send now arg_amount arg_address w = do
        dest ← base58_decode b 32 arg_address
        amount ← stoi arg_amount
        wallet ← load_wallet y b w.config w.key_file
        (id, config) ← get_tx_id y w.config
        text ← display_transaction b (created wallet dest amount now id)
        address ← get_tx_pool_address y config
        (s, posted) ←
            submit_transaction alpaca tx_pool (created wallet dest amount now id) w.servers
        ok (record w { config = config; servers = s }, (text, posted))

      -- The loop from `i` on, `rounds` rounds before `i` reaches the count: whether it ended.
      unfoldable pub submit_loop : (ℕ → ℕ) → Wallet → Bytes → ℕ → ℕ → ℕ → ℕ → S → Result (S × Bool)
      submit_loop clock wallet dest amount id i zero s = ok (s, true)
      submit_loop clock wallet dest amount id i (suc rounds) s = do
        (s, posted) ←
            submit_transaction alpaca tx_pool (created wallet dest amount (clock i) (add32 id i)) s
        if posted then submit_loop clock wallet dest amount id (i + 1) rounds s else ok (s, false)

      -- `i < count` for an `int`: no round for a negative count.
      abbrev pub rounds_of : ℕ → ℕ
      rounds_of count = if ltb count i32_limit then count else 0

      unfoldable pub cl_wallet_send_multi :
          (ℕ → ℕ) → Bytes → Bytes → Bytes → World Node S → Result (World Node S × Bool)
      cl_wallet_send_multi clock arg_amount arg_address arg_count w = do
        dest ← base58_decode b 32 arg_address
        amount ← stoi arg_amount
        count ← stoi arg_count
        wallet ← load_wallet y b w.config w.key_file
        address ← get_tx_pool_address y w.config
        (nonce, config) ← get_tx_id y w.config
        let id = nonce % u32_mod
        (s, ended) ← submit_loop clock wallet dest amount id 0 (rounds_of count) w.servers
        ok (
          record w {
            config = if ended then set_tx_id y (add32 id count) config else config;
            servers = s;
          },
          ended,
        )
