-- ===== src/CommandLine/Commands/Setup.antt =====
-- src/dsc.cpp: which validators start.
use memo_coin.Prelude.{◌≡◌, refl, bytes_eq, Option, some, [], ◌∷◌, Bytes}
use memo_coin.Keys.{Base58, base58_encode_key}
use memo_coin.Messages.{Result, ok, err, Error, ◌>>=◌}
use memo_coin.Config.{
  Yaml, load_wallet, get_tx_pool_address, get_validator_address, get_blockchain_address,
  get_metronome_address, get_consensus_method, get_validator_memory, set_validator_fingerprint,
}
use memo_coin.CommandLine.Commands.{Model, Prepared, choose_model, run_validator}

abbrev pub Throws : {A : Type 0} → Result A → Type 0
Throws r = (e : Error) × (r ≡ err e)

bind-Throws :
    {A B : Type 0} (r : Result A) (f : A → Result B) → ((a : A) → Throws (f a)) → Throws (r >>= f)
bind-Throws (ok a) f h = h a
bind-Throws (err e) f h = (e, refl)

bind-Throws_first : {A B : Type 0} (r : Result A) (f : A → Result B) → Throws r → Throws (r >>= f)
bind-Throws_first r f (e, h) = (e, rw h refl)

abbrev pom_text : Bytes
pom_text = b'p' ∷ b'o' ∷ b'm' ∷ []

module _ (y : Yaml) (b : Base58) where
  open y use {Node, as_string, set_string}

  memory-set_string :
      (key_file : Node) (text : Bytes)
      → Throws (as_string key_file "validator" "memory")
      → Throws (get_validator_memory y (set_string key_file "validator" "fingerprint" text))
  unfolding get_validator_memory
  memory-set_string key_file text (e, h) = (
    e,
    rw (y.as_string-set_string key_file "validator" "fingerprint" "validator" "memory" text)
        (rw h refl),
  )

  abbrev write_memory : Bytes → Node → Result (Option Model × Node)
  write_memory fingerprint key_file = do
    memory ← get_validator_memory y key_file
    ok (some (Model.pom fingerprint memory), key_file)

  written-Throws :
      (fingerprint : Bytes) (key_file : Node) (r : Result Bytes)
      → Throws (as_string key_file "validator" "memory")
      → Throws (
          (r >>= λ text. ok (set_string key_file "validator" "fingerprint" text))
          >>= write_memory fingerprint)
  written-Throws fingerprint key_file (err e) t = (e, refl)
  written-Throws fingerprint key_file (ok text) t =
      bind-Throws_first _ _ (memory-set_string key_file text t)

  choose_model-Throws :
      (fingerprint : Bytes) (key_file : Node)
      → Throws (as_string key_file "validator" "memory")
      → Throws (choose_model y b pom_text fingerprint key_file)
  unfolding choose_model set_validator_fingerprint bytes_eq
  choose_model-Throws fingerprint key_file t =
      written-Throws fingerprint key_file (base58_encode_key b fingerprint) t

  abbrev prepare : Bytes → Node → Node → Bytes → Result (Prepared Node)
  prepare fingerprint config key_file consensus_type = do
    wallet ← load_wallet y b config key_file
    (model, key_file) ← choose_model y b consensus_type fingerprint key_file
    ok (record { model = model; wallet = wallet; key_file = key_file })

  prepare-Throws :
      (fingerprint : Bytes) (config key_file : Node) (r : Result Bytes)
      → r ≡ ok pom_text
      → Throws (as_string key_file "validator" "memory")
      → Throws (r >>= prepare fingerprint config key_file)
  prepare-Throws fingerprint config key_file r m t = rw m (
      bind-Throws (load_wallet y b config key_file) _
        λ w. bind-Throws_first _ _ (choose_model-Throws fingerprint key_file t))

  -- With the method `pom` a validator does not start if its key file has no memory size, whatever
  -- size the configuration has.
  pub run_validator-Throws :
      (fingerprint : Bytes) (config key_file : Node)
      → get_consensus_method y config ≡ ok pom_text
      → Throws (as_string key_file "validator" "memory")
      → Throws (run_validator y b fingerprint config key_file)
  unfolding run_validator
  run_validator-Throws fingerprint config key_file m t =
      bind-Throws (get_validator_address y config) _ λ val_address.
        bind-Throws (get_blockchain_address y config) _ λ bc_address.
          bind-Throws (get_metronome_address y config) _ λ met_address.
            bind-Throws (get_tx_pool_address y config) _ λ pool_address.
              prepare-Throws fingerprint config key_file (get_consensus_method y config) m t
