-- ===== src/Wire/Toy.antt =====
-- A serializer that meets the interface of alpaca's: numbers one after another, with the length in
-- front of an array or a list.
use memo_coin.Prelude.{
  Bool, ◌&&◌, ltb, u32_mod, ℕ, zero, suc, ◌≡◌, ap, refl, true, List, [], ◌∷◌, Bytes, length,
}
use memo_coin.Data.{Transaction, HashInput, BlockHeader, Block, Status}
use memo_coin.Messages.{MessageType}
use memo_coin.Wire.{Codec, MessageHeader, Alpaca}

abbrev u64_mod : ℕ
u64_mod = 0x1_0000_0000_0000_0000

-- A value written in front of a rest, and read off it.
pub record Format (A : Type 0) : Type 0 where
  pub write : A → Bytes → Bytes
  pub read : Bytes → A × Bytes
  pub read-write : (a : A) (rest : Bytes) → read (write a rest) ≡ (a, rest)

abbrev read_number : Bytes → ℕ × Bytes
read_number [] = (0, [])
read_number (n ∷ s) = (n, s)

abbrev number : Format ℕ
number = record { write = ◌∷◌; read = read_number; read-write = λ n rest. refl }

abbrev nothing : Format (Unit {0})
nothing = record { write = λ u s. s; read = λ s. (tt, s); read-write = λ u rest. refl }

module _ {A B : Type 0} where
  abbrev read_pair : Format A → Format B → Bytes → (A × B) × Bytes
  read_pair p q s = let r = p.read s in let t = q.read r.1 in ((r.0, t.0), t.1)

  abbrev pair : Format A → Format B → Format (A × B)
  pair p q = record {
    write = λ x rest. p.write x.0 (q.write x.1 rest);
    read = read_pair p q;
    read-write =
        λ x rest. rw (p.read-write x.0 (q.write x.1 rest)) (rw (q.read-write x.1 rest) refl);
  }

  -- A type whose values are those of another.
  abbrev via : (f : A → B) (g : B → A) → ((a : A) → g (f a) ≡ a) → Format B → Format A
  via f g h p = record {
    write = λ a rest. p.write (f a) rest;
    read = λ s. (g (p.read s).0, (p.read s).1);
    read-write = λ a rest. rw (p.read-write (f a) rest) (rw (h a) refl);
  }

module _ {A : Type 0} (p : Format A) where
  abbrev write_all : List A → Bytes → Bytes
  write_all [] rest = rest
  write_all (x ∷ xs) rest = p.write x (write_all xs rest)

  abbrev read_all : ℕ → Bytes → List A × Bytes
  read_all zero s = ([], s)
  read_all (suc n) s = let r = p.read s in let t = read_all n r.1 in (r.0 ∷ t.0, t.1)

  pub read_all-write_all :
      (xs : List A) (rest : Bytes) → read_all (length xs) (write_all xs rest) ≡ (xs, rest)
  read_all-write_all [] rest = refl
  read_all-write_all (x ∷ xs) rest =
      rw (p.read-write x (write_all xs rest)) (rw (read_all-write_all xs rest) refl)

  abbrev read_list : Bytes → List A × Bytes
  read_list [] = ([], [])
  read_list (n ∷ s) = read_all n s

  abbrev list : Format (List A)
  list = record {
    write = λ xs rest. length xs ∷ write_all xs rest;
    read = read_list;
    read-write = read_all-write_all;
  }

  abbrev codec : Codec A
  codec = record {
    serialize = λ a. p.write a [];
    deserialize = λ s. (p.read s).0;
    fits = λ a. true;
    deserialize-serialize = λ a h. ap (λ r. r.0) (p.read-write a []);
  }

abbrev bytes : Format Bytes
bytes = list number

abbrev code : Status → ℕ
code Status.confirmed = 0
code Status.unconfirmed = 1
code Status.submitted = 2
code Status.unknown = 3

abbrev status_of : ℕ → Status
status_of zero = Status.confirmed
status_of (suc zero) = Status.unconfirmed
status_of (suc (suc zero)) = Status.submitted
status_of (suc (suc (suc n))) = Status.unknown

pub status_of-code : (s : Status) → status_of (code s) ≡ s
status_of-code Status.confirmed = refl
status_of-code Status.unconfirmed = refl
status_of-code Status.submitted = refl
status_of-code Status.unknown = refl

abbrev status : Format Status
status = via code status_of status_of-code number

abbrev transaction : Format Transaction
transaction =
    via (λ t. (t.src, (t.dest, (t.signature, (t.id, (t.amount, t.timestamp))))))
      (λ x. record {
        src = x.0;
        dest = x.1.0;
        signature = x.1.1.0;
        id = x.1.1.1.0;
        amount = x.1.1.1.1.0;
        timestamp = x.1.1.1.1.1;
      })
      (λ t. refl) (pair bytes (pair bytes (pair bytes (pair number (pair number number)))))

-- The numbers of a transaction in the ranges of their types.
abbrev in_range : Transaction → Bool
in_range t = ltb t.id u64_mod && ltb t.amount u32_mod && ltb t.timestamp u64_mod

abbrev hash_input : Format HashInput
hash_input =
    via (λ i. (i.fingerprint, (i.public_key, i.nonce)))
      (λ x. record { fingerprint = x.0; public_key = x.1.0; nonce = x.1.1 }) (λ i. refl)
      (pair bytes (pair bytes number))

abbrev block_header : Format BlockHeader
block_header =
    via (λ h. (h.input, (h.hash, (h.prev_hash, (h.difficulty, (h.timestamp, h.id))))))
      (λ x. record {
        input = x.0;
        hash = x.1.0;
        prev_hash = x.1.1.0;
        difficulty = x.1.1.1.0;
        timestamp = x.1.1.1.1.0;
        id = x.1.1.1.1.1;
      })
      (λ h. refl) (pair hash_input (pair bytes (pair bytes (pair number (pair number number)))))

abbrev block : Format Block
block =
    via (λ b. (b.header, b.transactions)) (λ x. record { header = x.0; transactions = x.1 })
      (λ b. refl) (pair block_header (list transaction))

abbrev type_code : MessageType → ℕ
type_code MessageType.post_tx = 0
type_code MessageType.pop_tx = 1
type_code MessageType.query_tx_status = 2
type_code MessageType.status_good = 3
type_code MessageType.status_bad = 4
type_code MessageType.query_bal = 5
type_code MessageType.submit_block = 6
type_code MessageType.query_difficulty = 7
type_code MessageType.query_last_block = 8
type_code MessageType.confirm_block = 9
type_code MessageType.query_tx_count = 10
type_code MessageType.query_num_addrs = 11
type_code MessageType.query_coins = 12
type_code MessageType.register_validator = 13
type_code MessageType.query_num_validators = 14

abbrev types : List MessageType
types =
    MessageType.post_tx ∷ MessageType.pop_tx ∷ MessageType.query_tx_status ∷ MessageType.status_good
    ∷ MessageType.status_bad ∷ MessageType.query_bal ∷ MessageType.submit_block
    ∷ MessageType.query_difficulty ∷ MessageType.query_last_block ∷ MessageType.confirm_block
    ∷ MessageType.query_tx_count ∷ MessageType.query_num_addrs ∷ MessageType.query_coins
    ∷ MessageType.register_validator ∷ MessageType.query_num_validators ∷ []

abbrev nth : ℕ → List MessageType → MessageType
nth n [] = MessageType.status_bad
nth zero (t ∷ ts) = t
nth (suc n) (t ∷ ts) = nth n ts

pub nth-type_code : (t : MessageType) → nth (type_code t) types ≡ t
nth-type_code MessageType.post_tx = refl
nth-type_code MessageType.pop_tx = refl
nth-type_code MessageType.query_tx_status = refl
nth-type_code MessageType.status_good = refl
nth-type_code MessageType.status_bad = refl
nth-type_code MessageType.query_bal = refl
nth-type_code MessageType.submit_block = refl
nth-type_code MessageType.query_difficulty = refl
nth-type_code MessageType.query_last_block = refl
nth-type_code MessageType.confirm_block = refl
nth-type_code MessageType.query_tx_count = refl
nth-type_code MessageType.query_num_addrs = refl
nth-type_code MessageType.query_coins = refl
nth-type_code MessageType.register_validator = refl
nth-type_code MessageType.query_num_validators = refl

abbrev message_header : Format MessageHeader
message_header =
    via (λ h. (type_code h.type, h.size)) (λ x. record { type = nth x.0 types; size = x.1 })
      (λ h. rw (nth-type_code h.type) refl) (pair number number)

abbrev pub toy : Alpaca
toy = record {
  message_header = codec message_header;
  null_message = codec nothing;
  number = codec number;
  status = codec status;
  block_header = codec block_header;
  block = codec block;
  transaction = record {
    serialize = (codec transaction).serialize;
    deserialize = (codec transaction).deserialize;
    fits = in_range;
    deserialize-serialize = λ t h. (codec transaction).deserialize-serialize t refl;
  };
  transactions = codec (list transaction);
  key = codec bytes;
  tx_key = codec (pair bytes number);
}
