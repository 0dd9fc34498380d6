-- ===== src/CommandLine/Commands/Servers.antt =====
-- src/dsc.cpp: the addresses that a server is started with, read from its configuration, up to the
-- constructors.
use memo_coin.Prelude.{Bytes}
use memo_coin.Messages.{Result, ok, ◌>>=◌}
use memo_coin.Config.{Yaml, get_tx_pool_address, get_blockchain_address, get_metronome_address}

-- Where the server listens, and the server that it asks.
pub record Addresses : Type 0 where
  pub own : Bytes
  pub asked : Bytes

module _ (y : Yaml) where
  open y use {Node}

  unfoldable pub run_pool : Node → Result Addresses
  run_pool config = do
    pool_address ← get_tx_pool_address y config
    bc_address ← get_blockchain_address y config
    ok (record { own = pool_address; asked = bc_address })

  unfoldable pub run_metronome : Node → Result Addresses
  run_metronome config = do
    blockchain ← get_blockchain_address y config
    address ← get_metronome_address y config
    ok (record { own = address; asked = blockchain })

  unfoldable pub run_blockchain : Node → Result Addresses
  run_blockchain config = do
    address ← get_blockchain_address y config
    txpaddr ← get_tx_pool_address y config
    ok (record { own = address; asked = txpaddr })
