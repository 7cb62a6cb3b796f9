-- ===== src/Billing/Ledger/Booked.antt =====
-- How often a checkout session and a refund event are booked: what their methods leave in the ledger.
use greencompute_api.Prelude.{
  ℕ, String, ◌≡◌, refl, ◌≢◌, true, Option, some, List, string_eq, eq_iff, is_some, if-cases,
  option-cases,
}
use greencompute_api.Prelude.Int.{ℤ}
use greencompute_api.Prelude.Dict.{lookup}
use greencompute_api.Billing.Schema.{Db, Result, ok, violates_unique, ref_entry, book}
use greencompute_api.Billing.Deposits.{
  DepositCredit, deposit_credited, is_credited, or_else, manual_credit_row, credit_deposit,
}
use greencompute_api.Billing.Stripe.{
  SessionCredit, Reversal, is_paid, session_credited, session_ref, refund_ref, reversed,
  complete_and_credit_stripe_session, reverse_stripe_topup,
}
use greencompute_api.Billing.Ledger.Calls.{Call, run}
use greencompute_api.Billing.Ledger.Once.{
  ref_entry-run, complete_session-used_ref, reverse_topup-used_ref,
}

-- A credited deposit's ledger row carries its deposit_ref.
pub credit_deposit-ref :
    (r u : String) (amount : ℤ) (d by : String) (now : ℕ) (db : Db) {a b : ℤ}
    → (credit_deposit r u amount d by now db).0 ≡ ok (some (deposit_credited a b))
    → is_some (ref_entry r (credit_deposit r u amount d by now db).1.ledger) ≡ true
unfolding credit_deposit book
credit_deposit-ref r u amount d by now db {a} {b} =
    let P : Result (Option DepositCredit) × Db → Type 0 =
      λ o. o.0 ≡ ok (some (deposit_credited a b)) → is_some (ref_entry r o.1.ledger) ≡ true in
    option-cases P (lookup r db.deposits) (λ _ c. cc)
      (λ dep _.
        if-cases P (is_credited dep.status) (λ _ c. cc)
          (λ _.
            option-cases P
              (or_else (ref_entry r db.ledger) (manual_credit_row dep.tx_hash db.ledger))
              (λ _.
                option-cases P (lookup u db.users) (λ _ c. cc)
                  (λ b known.
                    if-cases P (violates_unique (some r) db.ledger) (λ _ c. cc)
                      (λ _ _. rw (eq_iff r r).1 refl)))
              (λ earlier _ c. cc)))

complete_session-ref :
    (id : String) (now : ℕ) (db : Db) {a b : ℤ}
    → (complete_and_credit_stripe_session id now db).0 ≡ ok (some (session_credited a b))
    → is_some (ref_entry (session_ref id) (complete_and_credit_stripe_session id now db).1.ledger)
      ≡ true
unfolding complete_and_credit_stripe_session book
complete_session-ref id now db {a} {b} =
    let P : Result (Option SessionCredit) × Db → Type 0 = λ o.
      o.0 ≡ ok (some (session_credited a b))
      → is_some (ref_entry (session_ref id) o.1.ledger) ≡ true in
    option-cases P (lookup id db.sessions) (λ _ c. cc)
      (λ s _.
        if-cases P (is_paid s.status) (λ _ c. cc)
          (λ _.
            option-cases P (lookup s.user_id db.users) (λ _ c. cc)
              (λ b known.
                if-cases P (violates_unique (some (session_ref id)) db.ledger) (λ _ c. cc)
                  (λ _ _. rw (eq_iff (session_ref id) (session_ref id)).1 refl))))

reverse_topup-ref :
    (u : String) (amount : ℤ) (event : String) (ref : Option String) (d k : String) (now : ℕ)
    (db : Db) {a : ℤ}
    → (reverse_stripe_topup u amount event ref d k now db).0 ≡ ok (reversed a)
    → is_some
        (ref_entry (refund_ref event) (reverse_stripe_topup u amount event ref d k now db).1.ledger)
      ≡ true
unfolding reverse_stripe_topup book
reverse_topup-ref u amount event ref d k now db {a} =
    let P : Result Reversal × Db → Type 0 =
      λ o. o.0 ≡ ok (reversed a) → is_some (ref_entry (refund_ref event) o.1.ledger) ≡ true in
    if-cases P (is_some (ref_entry (refund_ref event) db.ledger)) (λ _ c. cc)
      (λ _.
        option-cases P (lookup u db.users) (λ _ c. cc)
          (λ b known.
            if-cases P (violates_unique (some (refund_ref event)) db.ledger) (λ _ c. cc)
              (λ _ _. rw (eq_iff (refund_ref event) (refund_ref event)).1 refl)))

-- Once a Stripe checkout session has been credited, no later delivery of its webhook credits it
-- again, whatever calls come between (also calls that change the session's row).
pub session-credits_once :
    (id : String) (now now' : ℕ) (cs : List Call) (db : Db) (a a' b b' : ℤ)
    → (complete_and_credit_stripe_session id now db).0 ≡ ok (some (session_credited a b))
    → (complete_and_credit_stripe_session id now'
        (run cs (complete_and_credit_stripe_session id now db).1)).0
      ≢ ok (some (session_credited a' b'))
session-credits_once id now now' cs db a a' b b' c =
    complete_session-used_ref id now' _ a' b'
      (ref_entry-run _ cs _ (complete_session-ref id now db c))

-- Once a Stripe refund or dispute event has been reversed, no redelivery of that event reverses
-- again, for any user and amount, whatever calls come between.
pub event-reverses_once :
    (u u' : String) (amount amount' : ℤ) (event : String) (ref ref' : Option String)
    (d d' k k' : String) (now now' : ℕ) (cs : List Call) (db : Db) (a a' : ℤ)
    → (reverse_stripe_topup u amount event ref d k now db).0 ≡ ok (reversed a)
    → (reverse_stripe_topup u' amount' event ref' d' k' now'
        (run cs (reverse_stripe_topup u amount event ref d k now db).1)).0
      ≢ ok (reversed a')
event-reverses_once u u' amount amount' event ref ref' d d' k k' now now' cs db a a' c =
    reverse_topup-used_ref u' amount' event ref' d' k' now' _ a'
      (ref_entry-run _ cs _ (reverse_topup-ref u amount event ref d k now db c))
