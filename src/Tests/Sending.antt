-- ===== src/Tests/Sending.antt =====
-- src/transaction.cpp and src/dsc.cpp at concrete inputs.
use memo_coin.Prelude.{
  ℕ, [], some, get_elem?, ◌+◌, ◌≡◌, refl, Bool, false, not, ◌==◌, ◌++◌, Bytes, bytes_eq,
  bytes_eq_iff, if◌then◌else◌, arith,
}
use memo_coin.Data.{Transaction}
use memo_coin.Transactions.{Ed25519, create_transaction, sign_transaction}
use memo_coin.Wallet.{Outcome, send_multi, get_tx_id, created, series, Takes, send_multi_reuses}
use memo_coin.Tests.Inputs.{alice, bob}

abbrev pub checks : Bytes → Bytes → Bytes → ℕ
checks pub_key signature data_bytes = if bytes_eq signature (pub_key ++ data_bytes) then 1 else 0

pub checks_own :
    (priv_key data_bytes : Bytes) → checks priv_key (priv_key ++ data_bytes) data_bytes ≡ 1
checks_own k m = rw ((bytes_eq_iff (k ++ m) (k ++ m)).1 refl)

-- A scheme whose keys are equal and whose signature repeats key and data.
abbrev pub repeats : Ed25519
repeats = record {
  public_of = λ k. k;
  digest_sign = λ k m. k ++ m;
  digest_verify = checks;
  verify_sign = checks_own;
}

abbrev takes_all_but_9 : Transaction → Bool
takes_all_but_9 t = not (t.id == 9)

pub runs : Unit {0}
unfolding create_transaction sign_transaction
runs = tt

two_taken : Takes repeats [] alice alice bob 30 (λ i. i) takes_all_but_9 0 7 2
unfolding runs
two_taken = (refl, (refl, tt))

third_refused :
    takes_all_but_9 (created repeats [] alice alice bob 30 (λ i. i) takes_all_but_9 2 (7 + 2))
    ≡ false
unfolding runs
third_refused = refl

abbrev stopped : Outcome
stopped = send_multi repeats [] alice alice bob 30 (λ i. i) takes_all_but_9 5 7

-- The pool refuses the transaction with id 9: those with the ids 7 and 8 are taken, and 8 is next.
send_multi_reuses_example :
    (stopped ≡ record {
      succeeds = false;
      taken = series repeats [] alice alice bob 30 (λ i. i) takes_all_but_9 0 7 2;
      nonce = 7 + 1;
    })
    × (get_elem? stopped.taken 1
        ≡ some (created repeats [] alice alice bob 30 (λ i. i) takes_all_but_9 1 (7 + 1)))
    × ((created repeats [] alice alice bob 30 (λ i. i) takes_all_but_9 1 (7 + 1)).id
        ≡ (get_tx_id stopped.nonce).0)
send_multi_reuses_example =
    send_multi_reuses repeats [] alice alice bob 30 (λ i. i) takes_all_but_9 5 7 2 (omega arith)
      (omega arith) (omega arith) two_taken third_refused
