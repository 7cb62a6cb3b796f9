-- ===== src/Billing/Tests.antt =====
-- A user with a balance, a pending invoice, a checkout session and a hold: the billing theorems at
-- concrete calls.
use greencompute_api.Prelude.{
  ℕ, ◌+◌, ◌≤◌, ◌≡◌, refl, ◌≢◌, ◌⊎◌, true, false, none, some, List, [], ◌∷◌, string_eq, is_some,
}
use greencompute_api.Prelude.Int.{pos, ◌+ℤ◌, ◌-ℤ◌, ◌≤ℤ◌, max_zero}
use greencompute_api.Prelude.Dict.{lookup}
use greencompute_api.Billing.Schema.{
  Db, Invoice, pending, StripeSession, Hold, ok, balance_of, book, ref_entry,
}
use greencompute_api.Billing.Balance.{debit_user_to_floor}
use greencompute_api.Billing.Charges.{debit_user_to_floor_lem}
use greencompute_api.Billing.Holds.{total_held, reserve_inference_hold, active_hold_cents}
use greencompute_api.Billing.Holds.Capacity.{reserve-within_balance}
use greencompute_api.Billing.Invoices.{confirm_and_credit_invoice, credit_invoice}
use greencompute_api.Billing.Deposits.{credit_deposit, deposit_credited}
use greencompute_api.Billing.Stripe.{
  complete_and_credit_stripe_session, session_credited, reverse_stripe_topup, reversed,
}
use greencompute_api.Billing.Ledger.Calls
use greencompute_api.Billing.Ledger.Calls.{Call, call, run}
use greencompute_api.Billing.Ledger.Invariant.{Reconciled, run-Reconciled, Extends, run-Extends}
use greencompute_api.Billing.Ledger.Keyed.{bookings, booked, bookings_le}
use greencompute_api.Billing.Stripe
use greencompute_api.Billing.Invoices
use greencompute_api.Billing.Balance
use greencompute_api.Billing.Ledger.Once.{Credits, confirm-Credits_once, transfer-Credits_once}
use greencompute_api.Billing.Ledger.Booked.{session-credits_once, event-reverses_once}

abbrev invoice : Invoice
invoice = record {
  user_id = "ann";
  currency = "usdt";
  amount_units = some 5000000;
  total_credits = pos 500;
  deposit_address = "0xd";
  status = pending;
  tx_hash = none;
  expires_at = 9000000;
  confirmed_at = none;
  review_status = none;
  review_note = none;
  review_requested_at = none;
  decision_reason = none;
  decision_note = none;
  decided_at = none;
}

abbrev session : StripeSession
session = record {
  session_id = "cs_1";
  user_id = "ann";
  payment_intent_id = none;
  amount_cents = pos 1000;
  status = pending;
  completed_at = none;
  description = "card";
}

abbrev hold : Hold
hold = record { user_id = "ann"; amount_cents = 30; created_at = 0; expires_at = 8000000 }

abbrev start : Db
start = record {
  users = ("ann", pos 100) ∷ ("bob", pos 7) ∷ [];
  ledger = [];
  invoices = ("inv", invoice) ∷ [];
  deposits = [];
  sessions = ("cs_1", session) ∷ [];
  holds = ("r0", hold) ∷ [];
}

abbrev calls : List Call
calls =
    Calls.confirm_and_credit_invoice "inv" "0xabc" "topup" (some "usdt:0xabc:3") false none 2000000
    ∷ Calls.debit_user_to_floor "bob" (pos 50) "usage" none "gpu" 3000000
    ∷ Calls.complete_and_credit_stripe_session "cs_1" 4000000
    ∷ []

run-Reconciled_example : Reconciled "ann" start (run calls start)
run-Reconciled_example = run-Reconciled calls "ann" start

-- The checkout is completed and credited a second time.
abbrev again : List Call
again = Calls.complete_and_credit_stripe_session "cs_1" 5000000 ∷ calls

bookings_le_example : bookings "stripe:cs_1" again start + booked "stripe:cs_1" [] ≤ 1
bookings_le_example = bookings_le "stripe:cs_1" again start

bookings_one : bookings "stripe:cs_1" again start ≡ 1
unfolding bookings call Stripe.complete_and_credit_stripe_session book
    Invoices.confirm_and_credit_invoice Invoices.credit_invoice Balance.debit_user_to_floor
bookings_one = refl

run-Extends_example : Extends start.ledger (run calls start).ledger
run-Extends_example = run-Extends calls start

first_confirmation :
    Credits
      (confirm_and_credit_invoice "inv" "0xabc" "topup"
        (some "usdt:0xabc:3")
        false
        none
        2000000
        start).0
      (pos 500)
      (pos 600)
unfolding confirm_and_credit_invoice credit_invoice book ◌+ℤ◌
first_confirmation = refl

confirm-Credits_once_example :
    ¬ Credits
      (confirm_and_credit_invoice "inv" "0xabc" "topup" none true none 5000000 (
        run calls
          (confirm_and_credit_invoice "inv" "0xabc" "topup"
            (some "usdt:0xabc:3")
            false
            none
            2000000
            start).1)).0
      (pos 500)
      (pos 2100)
confirm-Credits_once_example =
    confirm-Credits_once "inv" "0xabc" "0xabc" "topup" "topup" (some "usdt:0xabc:3") none false true
      none none 2000000 5000000 calls start (pos 500) (pos 500) (pos 600) (pos 2100)
      first_confirmation

abbrev confirmed_db : Db
confirmed_db =
    (confirm_and_credit_invoice "inv" "0xabc" "topup" (some "usdt:0xabc:3") false none 2000000
      start).1

transfer_booked : is_some (ref_entry "usdt:0xabc:3" confirmed_db.ledger) ≡ true
unfolding confirm_and_credit_invoice credit_invoice book
transfer_booked = refl

transfer-Credits_once_example :
    (¬ Credits
      (confirm_and_credit_invoice "inv2" "0xabc" "topup"
        (some "usdt:0xabc:3")
        false
        none
        5000000
        (run calls confirmed_db)).0
      (pos 500)
      (pos 600))
    × ((credit_deposit "usdt:0xabc:3" "bob"
          (pos 500)
          "deposit"
          "admin"
          5000000
          (run calls confirmed_db)).0
        ≢ ok (some (deposit_credited (pos 500) (pos 600))))
transfer-Credits_once_example =
    transfer-Credits_once "usdt:0xabc:3" confirmed_db calls "inv2" "0xabc" "topup" "bob" "deposit"
      "admin" false none (pos 500) 5000000 (pos 500) (pos 600) refl transfer_booked

first_delivery :
    (complete_and_credit_stripe_session "cs_1" 2000000 start).0
    ≡ ok (some (session_credited (pos 1000) (pos 1100)))
unfolding complete_and_credit_stripe_session book ◌+ℤ◌
first_delivery = refl

session-credits_once_example :
    (complete_and_credit_stripe_session "cs_1" 5000000
      (run calls (complete_and_credit_stripe_session "cs_1" 2000000 start).1)).0
    ≢ ok (some (session_credited (pos 1000) (pos 2100)))
session-credits_once_example =
    session-credits_once "cs_1" 2000000 5000000 calls start (pos 1000) (pos 1000) (pos 1100)
      (pos 2100) first_delivery

first_event :
    (reverse_stripe_topup "ann" (pos 300) "evt_1" (some "cs_1") "refund" "refund" 2000000 start).0
    ≡ ok (reversed (pos 300))
unfolding reverse_stripe_topup book
first_event = refl

event-reverses_once_example :
    (reverse_stripe_topup "bob" (pos 300) "evt_1" none "refund" "refund" 5000000 (
      run calls
        (reverse_stripe_topup "ann"
          (pos 300)
          "evt_1"
          (some "cs_1")
          "refund"
          "refund"
          2000000
          start).1)).0
    ≢ ok (reversed (pos 300))
event-reverses_once_example =
    event-reverses_once "ann" "bob" (pos 300) (pos 300) "evt_1" (some "cs_1") none "refund" "refund"
      "refund" "refund" 2000000 5000000 calls start (pos 300) (pos 300) first_event

debit_user_to_floor_lem_example :
    (taken short : ℕ) × ((debit_user_to_floor "ann" (pos 250) "usage" none "gpu" 1 start).0
      ≡ ok (record { debited_cents = taken; shortfall_cents = short }))
    × (taken + short ≡ max_zero (pos 250))
    × (balance_of "ann" (debit_user_to_floor "ann" (pos 250) "usage" none "gpu" 1 start).1
          +ℤ pos taken
        ≡ pos 100)
    × (taken ≤ max_zero (pos 100))
    × ((short ≡ 0) ⊎ (taken ≡ max_zero (pos 100)))
debit_user_to_floor_lem_example =
    debit_user_to_floor_lem "ann" (pos 250) (pos 100) "usage" none "gpu" 1 start refl

-- No hold stands under the new request's id.
new_request : (h : Hold) → lookup "r1" start.holds ≡ some h → h.user_id ≡ "ann"
new_request h e = absurd (cc)

second_hold : (reserve_inference_hold "ann" (pos 60) "r1" 5 1000000 start).0 ≡ ok true
unfolding reserve_inference_hold ◌-ℤ◌ total_held
second_hold = refl

reserve-within_balance_example :
    pos (
      active_hold_cents "ann" 1000000
        (reserve_inference_hold "ann" (pos 60) "r1" 5 1000000 start).1)
    ≤ℤ pos 100
reserve-within_balance_example =
    reserve-within_balance "ann" "r1" (pos 60) (pos 100) 5 1000000 start (tt, tt) new_request refl
      second_hold
