-- ===== src/Tests/Created.antt =====
-- New wallets at concrete inputs.
use memo_coin.Prelude.{◌≡◌, refl, none}
use memo_coin.Keys.Toy.{toy as toy_base58}
use memo_coin.Keys.Generate.{create_wallet, gen_keys_ed25519}
use memo_coin.Messages.{ok}
use memo_coin.Wire.Toy.{toy}
use memo_coin.Config.{load_wallet}
use memo_coin.Config.Toy.{Document, toy as toy_yaml}
use memo_coin.CommandLine.Commands.{WalletText, cl_wallet_create}
use memo_coin.CommandLine.Commands.Create.{Kept, cl_wallet_create-create_wallet}
use memo_coin.Tests.Inputs.{alice, bob}
use memo_coin.Tests.Sending.{repeats}
use memo_coin.Tests.Commands.{settings, key_file}

-- OpenSSL makes no key.
cl_wallet_create-create_wallet_example :
    (c : Document) × (k : Document) × (text : WalletText) × (cl_wallet_create toy_yaml toy_base58
        repeats none
        (bob, alice)
        settings
        key_file
      ≡ ok ((c, k), text))
    × (load_wallet toy_yaml toy_base58 c k ≡ ok (create_wallet repeats none (bob, alice)))
    × Kept toy_yaml toy_base58 repeats settings c
cl_wallet_create-create_wallet_example =
    cl_wallet_create-create_wallet toy_yaml toy_base58 repeats none (bob, alice) settings key_file
      (unfold create_wallet gen_keys_ed25519 in refl)
      (unfold create_wallet gen_keys_ed25519 in refl)
