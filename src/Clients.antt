-- ===== src/Clients.antt =====
-- The requests of the clients: src/transaction.cpp, src/wallet.cpp, src/validator.cpp and
-- src/monitor.cpp, on keys that are loaded. A request takes the servers' state to a new one.
use memo_coin.Prelude.{ℕ, ◌-◌, Bool, if◌then◌else◌, ltb, List, [], ◌∷◌, Bytes, u32_mod}
use memo_coin.Data.{Transaction, Block, BlockHeader, Status}
use memo_coin.Messages.{MessageType, Result, ok, ◌>>=◌, is_good}
use memo_coin.Wire.{Alpaca, Server, call}

-- `negsuc n` is -(n + 1).
pub data ℤ : Type 0 where
  pos negsuc : ℕ → ℤ

-- What `printf` prints for `%d` of a `uint32_t`: the `int` of the same bits.
unfoldable pub as_int : ℕ → ℤ
as_int n = if ltb n 0x8000_0000 then pos n else negsuc (u32_mod - 1 - n)

-- What the monitor prints. The two keys of a header stand for their base 58 texts; after them come
-- its difficulty, its timestamp and its id.
pub data Line : Type 0 where
  timestamp end_timestamp : ℕ → Line
  block_header : Bytes → Bytes → ℤ → ℕ → ℤ → Line
  queue_size validators wallets coins : ℤ → Line
  no_hashes_per_second no_hashes_stored : Line

abbrev pub header_line : BlockHeader → Line
header_line h = block_header h.hash h.prev_hash (as_int h.difficulty) h.timestamp (as_int h.id)

module _ (alpaca : Alpaca) {S : Type 0} where
  -- 0 against -1 in the code.
  unfoldable pub submit_transaction : Server S → Transaction → S → Result (S × Bool)
  submit_transaction tx_pool tx s = do
    (s', response) ←
        call alpaca tx_pool alpaca.transaction tx MessageType.post_tx alpaca.null_message s
    ok (s', is_good response.header.type)

  unfoldable pub query_transaction : Server S → Bytes → ℕ → S → Result (S × Status)
  query_transaction tx_pool pub_key id s = do
    (s', response) ←
        call alpaca tx_pool alpaca.tx_key (pub_key, id) MessageType.query_tx_status alpaca.status s
    ok (s', response.payload)

  unfoldable pub query_balance : Server S → Bytes → S → Result (S × ℕ)
  query_balance blockchain pub_key s = do
    (s', response) ← call alpaca blockchain alpaca.key pub_key MessageType.query_bal alpaca.number s
    ok (s', response.payload)

  unfoldable pub register_with_metronome : Server S → S → Result (S × Bool)
  register_with_metronome metronome s = do
    (s', response) ←
        call alpaca metronome alpaca.null_message tt MessageType.register_validator
          alpaca.null_message s
    ok (s', is_good response.header.type)

  unfoldable pub request_difficulty : Server S → S → Result (S × ℕ)
  request_difficulty metronome s = do
    (s', response) ←
        call alpaca metronome alpaca.null_message tt MessageType.query_difficulty alpaca.number s
    ok (s', response.payload)

  unfoldable pub request_txs : Server S → S → Result (S × List Transaction)
  request_txs tx_pool s = do
    (s', response) ←
        call alpaca tx_pool alpaca.null_message tt MessageType.pop_tx alpaca.transactions s
    ok (s', response.payload)

  unfoldable pub submit_block : Server S → Block → S → Result (S × Bool)
  submit_block metronome block s = do
    (s', response) ←
        call alpaca metronome alpaca.block block MessageType.submit_block alpaca.null_message s
    ok (s', is_good response.header.type)

  unfoldable pub last_block : Server S → S → Result (S × Line)
  last_block blockchain s = do
    (s', response) ←
        call alpaca blockchain alpaca.null_message tt MessageType.query_last_block
          alpaca.block_header s
    ok (s', header_line response.payload)

  -- A query that answers a number, and its line.
  abbrev pub query_number : (ℤ → Line) → MessageType → Server S → S → Result (S × Line)
  query_number line type server s = do
    (s', response) ← call alpaca server alpaca.null_message tt type alpaca.number s
    ok (s', line (as_int response.payload))

  unfoldable pub num_trans : Server S → S → Result (S × Line)
  num_trans tx_pool s = query_number queue_size MessageType.query_tx_count tx_pool s

  unfoldable pub num_validators : Server S → S → Result (S × Line)
  num_validators metronome s = query_number validators MessageType.query_num_validators metronome s

  unfoldable pub num_wallets : Server S → S → Result (S × Line)
  num_wallets blockchain s = query_number wallets MessageType.query_num_addrs blockchain s

  unfoldable pub num_coins : Server S → S → Result (S × Line)
  num_coins blockchain s = query_number coins MessageType.query_coins blockchain s

  -- `first` and `last` are the readings of the clock.
  unfoldable pub print_monitor_stats :
      Server S → Server S → Server S → ℕ → ℕ → S → Result (S × List Line)
  print_monitor_stats blockchain tx_pool metronome first last s = do
    (s, a) ← last_block blockchain s
    (s, b) ← num_trans tx_pool s
    (s, c) ← num_validators metronome s
    (s, d) ← num_wallets blockchain s
    (s, e) ← num_coins blockchain s
    ok (
      s,
      timestamp first
          ∷ a
          ∷ b
          ∷ c
          ∷ d
          ∷ e
          ∷ no_hashes_per_second
          ∷ no_hashes_stored
          ∷ end_timestamp last
          ∷ [],
    )
