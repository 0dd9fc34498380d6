-- ===== src/Tests/Commands.antt =====
-- The commands of src/dsc.cpp at concrete inputs.
use memo_coin.Prelude.{ℕ, ◌+◌, ◌%◌, ◌<◌, ◌≡◌, ◌↔◌, refl, [], ◌∷◌, Bytes, replicate, arith}
use memo_coin.Keys.Toy.{toy as toy_base58, shift}
use memo_coin.Messages.{ok, Error}
use memo_coin.Wire.Toy.{toy}
use memo_coin.Text.{i32_limit, stoi}
use memo_coin.TxPool.{TxPool, init}
use memo_coin.BlockChain.Ledger.{value_of}
use memo_coin.Config.{u64_mod, load_wallet}
use memo_coin.Config.Toy.{Document, Entry, set, empty, toy as toy_yaml}
use memo_coin.Network.{blockchain}
use memo_coin.CommandLine.Commands.{World, cl_wallet_send_multi, cl_wallet_balance, run_validator}
use memo_coin.CommandLine.Commands.Posts.{valid, pool, post_all, Reaches}
use memo_coin.CommandLine.Commands.Sends.{Reads, cl_wallet_send_multi-send_multi}
use memo_coin.CommandLine.Commands.Balance.{cl_wallet_balance_lem}
use memo_coin.CommandLine.Commands.Setup.{Throws, run_validator-Throws}
use memo_coin.Tests.Inputs.{alice, bob}
use memo_coin.Tests.Sending.{repeats}
use memo_coin.Tests.Files.{own}
use memo_coin.Tests.Network.{Outside, silent, chain, acknowledges}
use memo_coin.Tests.Network as Whole
use memo_coin.Transactions.{create_transaction, sign_transaction}
use memo_coin.Wallet

abbrev pub settings : Document
settings =
    set
      (set
        (set
          (set (set empty "wallet" "public_key" (Entry.text (shift alice))) "wallet" "nonce"
            (Entry.number 7))
          "tx_pool" "address" (Entry.text (b'p' ∷ [])))
        "blockchain" "address" (Entry.text (b'b' ∷ [])))
      "validator" "consensus" (Entry.text (b'p' ∷ b'o' ∷ b'm' ∷ []))

abbrev pub key_file : Document
key_file = set empty "wallet" "private_key" (Entry.text (shift alice))

abbrev clock : ℕ → ℕ
clock i = (i + 5) % u64_mod

early : (j : ℕ) → clock j < u64_mod
early j = omega arith

abbrev world : World Document (TxPool × Outside)
world = record { config = settings; key_file = key_file; servers = (init, tt) }

abbrev pub padding : Bytes
padding = replicate 4 0

own_loaded : load_wallet toy_yaml toy_base58 settings key_file ≡ ok own
unfolding load_wallet memo_coin.Keys.base58_decode
own_loaded = refl

pub reaches : Reaches toy_yaml toy_base58 toy repeats padding silent own bob 30
unfolding create_transaction sign_transaction
reaches = record {
  acknowledges = record { good = refl; bad = refl };
  sendable = λ now id h k. ground arith;
}

pub thirty : stoi (b'3' ∷ b'0' ∷ []) ≡ ok 30
unfolding stoi
thirty = refl

pub bob_decoded : memo_coin.Keys.base58_decode toy_base58 32 (shift bob) ≡ ok bob
unfolding memo_coin.Keys.base58_decode
bob_decoded = refl

reads :
    Reads toy_yaml toy_base58 toy repeats padding silent world
      (b'3' ∷ b'0' ∷ [])
      (shift bob)
      own
      bob
      30
      7
      (b'p' ∷ [])
reads = record {
  decoded = bob_decoded;
  parsed = thirty;
  loaded = own_loaded;
  counter = refl;
  located = refl;
}

two : stoi (b'2' ∷ []) ≡ ok 2
unfolding stoi
two = refl

cl_wallet_send_multi-send_multi_example :
    (let o =
        Wallet.send_multi repeats padding alice alice bob 30 clock
          (valid toy_yaml toy_base58 toy repeats padding silent)
          2
          7 in
      (config : Document) × (cl_wallet_send_multi toy_yaml toy_base58 toy repeats padding
          (pool toy_yaml toy_base58 toy repeats padding silent)
          clock
          (b'3' ∷ b'0' ∷ [])
          (shift bob)
          (b'2' ∷ [])
          world
        ≡ ok (record world { config = config; servers = (post_all o.taken init, tt) }, o.succeeds))
      × (toy_yaml.as_u64 config "wallet" "nonce" ≡ ok o.nonce))
cl_wallet_send_multi-send_multi_example =
    cl_wallet_send_multi-send_multi toy_yaml toy_base58 toy repeats padding silent world
      (b'3' ∷ b'0' ∷ []) (shift bob) own bob 30 7 (b'p' ∷ []) clock (b'2' ∷ []) 2 reads reaches two
      (omega arith) early

balance_address : memo_coin.Config.get_blockchain_address toy_yaml settings ≡ ok (b'b' ∷ [])
unfolding memo_coin.Config.get_blockchain_address
balance_address = refl

cl_wallet_balance_lem_example :
    (printed : ℕ) × (cl_wallet_balance toy_yaml toy_base58 toy
        (blockchain toy toy_base58 Whole.valid silent)
        settings
        key_file
        (chain, (init, tt))
      ≡ ok ((chain, (init, tt)), printed))
    × ((printed ≡ value_of alice chain.ledger) ↔ (value_of alice chain.ledger < i32_limit))
cl_wallet_balance_lem_example =
    cl_wallet_balance_lem toy_yaml toy_base58 toy Whole.valid silent own settings key_file
      (b'b' ∷ []) chain (init, tt) balance_address own_loaded refl refl

method : memo_coin.Config.get_consensus_method toy_yaml settings ≡ ok (b'p' ∷ b'o' ∷ b'm' ∷ [])
unfolding memo_coin.Config.get_consensus_method
method = refl

run_validator-Throws_example :
    Throws (run_validator toy_yaml toy_base58 (replicate 16 1) settings key_file)
run_validator-Throws_example =
    run_validator-Throws toy_yaml toy_base58 (replicate 16 1) settings key_file method
      (Error.bad_conversion, refl)
