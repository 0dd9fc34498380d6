-- ===== src/Wallet.antt =====
-- src/config.cpp and src/dsc.cpp: the counter of a wallet's transaction ids in its configuration,
-- and the commands that send, on decoded arguments; the count of `send_multi` is not negative.
use memo_coin.Prelude.{
  ℕ, zero, suc, ◌+◌, ◌%◌, ◌<◌, ◌≡◌, ◌∙◌, ap, refl, sym, some, get_elem?, Bool, true, false, List,
  [], ◌∷◌, Bytes, if◌then◌else◌, add32, u32_mod, arith,
}
use memo_coin.Data.{Transaction}
use memo_coin.Transactions.{Ed25519, create_transaction, sign_transaction}

abbrev pub u64_mod : ℕ
u64_mod = 0x1_0000_0000_0000_0000

-- Whether a command succeeds, the transactions that the pool took, in order, and what
-- `config["wallet"]["nonce"]` is left at.
pub record Outcome : Type 0 where
  pub succeeds : Bool
  pub taken : List Transaction
  pub nonce : ℕ

-- The id, and the counter that it leaves.
unfoldable pub get_tx_id : ℕ → ℕ × ℕ
get_tx_id nonce = (nonce, (nonce + 1) % u64_mod)

unfoldable pub set_tx_id : ℕ → ℕ → ℕ
set_tx_id nonce old = nonce

-- `clock` reads the time for the transaction with a number, `accepts` is the pool's answer.
module _ (e : Ed25519) (padding priv_key pub_key dest : Bytes) (amount : ℕ) where
  module _ (clock : ℕ → ℕ) (accepts : Transaction → Bool) where
    abbrev pub created : ℕ → ℕ → Transaction
    created i id = create_transaction e padding (clock i) priv_key pub_key dest amount id

    unfoldable pub send : ℕ → Outcome
    unfolding get_tx_id
    send nonce =
        let (id, left) = get_tx_id nonce in
        let tx = created 0 id in
        if accepts tx
        then record { succeeds = true; taken = tx ∷ []; nonce = left }
        else record { succeeds = false; taken = []; nonce = left }

    -- The loop from `i` on, `rounds` rounds before `i` reaches the count: whether it ended, and
    -- the transactions that the pool took.
    unfoldable pub send_loop : ℕ → ℕ → ℕ → Bool × List Transaction
    send_loop id i zero = (true, [])
    send_loop id i (suc rounds) =
        let (ended, txs) = send_loop id (i + 1) rounds in
        let tx = created i (add32 id i) in if accepts tx then (ended, tx ∷ txs) else (false, [])

    -- `uint32_t id = get_tx_id(config_file)`.
    unfoldable pub send_multi : ℕ → ℕ → Outcome
    unfolding get_tx_id set_tx_id
    send_multi count nonce =
        let (first, left) = get_tx_id nonce in
        let id = first % u32_mod in
        let (ended, txs) = send_loop id 0 count in
        if ended
        then record { succeeds = true; taken = txs; nonce = set_tx_id (add32 id count) left }
        else record { succeeds = false; taken = txs; nonce = left }

    -- `n` transactions, with the ids from `m` on.
    abbrev pub series : ℕ → ℕ → ℕ → List Transaction
    series i m zero = []
    series i m (suc n) = created i m ∷ series (i + 1) (m + 1) n

    -- The pool takes `k` transactions with the ids from `m` on.
    abbrev pub Takes : ℕ → ℕ → ℕ → Type 0
    Takes i m zero = Unit
    Takes i m (suc k) = (accepts (created i m) ≡ true) × Takes (i + 1) (m + 1) k

    add32_small : (a b m : ℕ) → a + b ≡ m → m < u32_mod → add32 a b ≡ m
    unfolding add32
    add32_small a b m e h = omega arith

    send_loop_ends :
        (id i m rounds : ℕ)
        → id + i ≡ m
        → m + rounds < u32_mod
        → Takes i m rounds
        → send_loop id i rounds ≡ (true, series i m rounds)
    unfolding send_loop
    send_loop_ends id i m zero g h a = refl
    send_loop_ends id i m (suc n) g h a =
        let w = add32_small id i m g (omega arith) in
        let ih = send_loop_ends id (i + 1) (m + 1) n (omega arith) (omega arith) a.1 in
        rw (w, a.0, ih)

    send_loop_stops :
        (id i m k j at_id rounds : ℕ)
        → id + i ≡ m
        → m + k ≡ at_id
        → i + k ≡ j
        → at_id < u32_mod
        → k < rounds
        → Takes i m k
        → accepts (created j at_id) ≡ false
        → send_loop id i rounds ≡ (false, series i m k)
    unfolding send_loop
    send_loop_stops id i m k j at_id zero g s t h r a f = absurd (omega arith)
    send_loop_stops id i m zero j at_id (suc n) g s t h r a f =
        let w = add32_small id i at_id (omega arith) h in
        let v : i ≡ j = omega arith in rw (w, v, f)
    send_loop_stops id i m (suc k) j at_id (suc n) g s t h r a f =
        let w = add32_small id i m g (omega arith) in
        let ih =
          send_loop_stops id (i + 1) (m + 1) k j at_id n (omega arith) (omega arith) (omega arith) h
            (omega arith) a.1 f in
        rw (w, a.0, ih)

    -- Where the pool takes all of them, and the ids stay below 2 ^ 32, `send_multi` sends `count`
    -- transactions with the ids from the counter on, and leaves the counter behind the last.
    pub send_multi-series :
        (count nonce : ℕ)
        → nonce + count < u32_mod
        → Takes 0 nonce count
        → send_multi count nonce
          ≡ record { succeeds = true; taken = series 0 nonce count; nonce = nonce + count }
    unfolding send_multi get_tx_id set_tx_id
    send_multi-series count nonce h a =
        let w : nonce % u32_mod ≡ nonce = omega arith in
        let s = send_loop_ends nonce 0 nonce count (omega arith) h a in
        rw (w, s, add32_small nonce count (nonce + count) refl h) refl

    send_multi_stops :
        (count nonce k : ℕ)
        → nonce + k < u32_mod
        → k < count
        → Takes 0 nonce k
        → accepts (created k (nonce + k)) ≡ false
        → (send_multi count nonce
            ≡ record { succeeds = false; taken = series 0 nonce k; nonce = nonce + 1 })
    unfolding send_multi get_tx_id set_tx_id
    send_multi_stops count nonce k h r a f =
        let w : nonce % u32_mod ≡ nonce = omega arith in
        let v : (nonce + 1) % u64_mod ≡ nonce + 1 = omega arith in
        let s =
          send_loop_stops nonce 0 nonce k k (nonce + k) count (omega arith) refl (omega arith) h r a
            f in
        rw (w, s, v) refl

    second_taken :
        (nonce k : ℕ) → 1 < k → get_elem? (series 0 nonce k) 1 ≡ some (created 1 (nonce + 1))
    second_taken nonce zero g = absurd (omega (arith, g))
    second_taken nonce (suc zero) g = absurd (omega (arith, g))
    second_taken nonce (suc (suc k)) g = refl

    -- Where the pool takes `k` transactions, at least two, and refuses the next, and the ids stay
    -- below 2 ^ 32, `send_multi` fails, and the id that the next command then gets is that of the
    -- second transaction that the pool took.
    pub send_multi_reuses :
        (count nonce k : ℕ)
        → nonce + k < u32_mod
        → 1 < k
        → k < count
        → Takes 0 nonce k
        → accepts (created k (nonce + k)) ≡ false
        → (send_multi count nonce
            ≡ record { succeeds = false; taken = series 0 nonce k; nonce = nonce + 1 })
          × (get_elem? (send_multi count nonce).taken 1 ≡ some (created 1 (nonce + 1)))
          × ((created 1 (nonce + 1)).id ≡ (get_tx_id (send_multi count nonce).nonce).0)
    unfolding get_tx_id create_transaction sign_transaction
    send_multi_reuses count nonce k h g r a f =
        let e = send_multi_stops count nonce k h r a f in
        (e, ap (λ o. get_elem? o.taken 1) e ∙ second_taken nonce k g, sym (ap (λ o. o.nonce) e))
