-- ===== src/Billing/Ledger/Keyed.antt =====
-- How often a transfer, a checkout and a refund event are booked in a sequence of calls: the row that
-- each of their calls adds carries the call's deposit_ref.
use greencompute_api.Prelude.{
  ℕ, ◌+◌, ◌≤◌, String, ◌≡◌, refl, inl, inr, Bool, true, false, not, ◌&&◌, ◌||◌, Option, none, some,
  List, [], ◌∷◌, string_eq, eq_iff, find, is_some, length, ltb, if◌then◌else◌, if-cases,
  option-cases, Bool-cases, arith,
}
use greencompute_api.Prelude.Int.{ℤ}
use greencompute_api.Prelude.Dict.{lookup}
use greencompute_api.Billing.Schema.{
  LedgerEntry, Db, Result, is_ref, ref_entry, violates_unique, book,
}
use greencompute_api.Billing.Invoices
use greencompute_api.Billing.Invoices.{
  Confirmation, is_rejected, is_expired, is_topup_of, paid_by, stored_ref, credit_invoice, or_total,
}
use greencompute_api.Billing.Deposits
use greencompute_api.Billing.Deposits.{DepositCredit, is_credited, or_else, manual_credit_row}
use greencompute_api.Billing.Stripe
use greencompute_api.Billing.Stripe.{SessionCredit, Reversal, is_paid, session_ref, refund_ref}
use greencompute_api.Billing.Ledger.Calls.{Call, call, run}
use greencompute_api.Billing.Ledger.Calls
use greencompute_api.Billing.Ledger.Invariant.{Extends-find, call-Extends}

-- The deposit_ref under which a call credits or reverses, if it does so under one.
abbrev pub ref_of : Call → Option String
ref_of (Calls.confirm_and_credit_invoice i tx d ref late cents now) = stored_ref ref
ref_of (Calls.credit_deposit ref user amount d by now) = some ref
ref_of (Calls.complete_and_credit_stripe_session id now) = some (session_ref id)
ref_of (Calls.reverse_stripe_topup u amount event r d k now) = some (refund_ref event)
ref_of _ = none

-- How many calls under a deposit_ref have added a row.
abbrev pub books : String → Call → Db → Bool
books ref c db = is_ref ref (ref_of c) && ltb (length db.ledger) (length (call c db).ledger)

unfoldable pub bookings : String → List Call → Db → ℕ
bookings ref [] db = 0
bookings ref (c ∷ cs) db = (if books ref c db then 1 else 0) + bookings ref cs (call c db)

-- The ledger is kept, or has one more row, under a deposit_ref that it had not.
data Adds (ref : Option String) (old new : List LedgerEntry) : Type 0 where
  nothing : new ≡ old → Adds ref old new
  one_row :
      (row : LedgerEntry)
      → violates_unique ref old ≡ false
      → row.deposit_ref ≡ ref
      → new ≡ row ∷ old
      → Adds ref old new

confirm-Adds :
    (i tx d : String) (ref : Option String) (late : Bool) (cents : Option ℤ) (now : ℕ) (db : Db)
    → Adds
        (stored_ref ref)
        db.ledger
        (Invoices.confirm_and_credit_invoice i tx d ref late cents now db).1.ledger
unfolding Invoices.confirm_and_credit_invoice credit_invoice book
confirm-Adds i tx d ref late cents now db =
    let P : Result (Option Confirmation) × Db → Type 0 =
      λ r. Adds (stored_ref ref) db.ledger r.1.ledger in
    option-cases P (lookup i db.invoices) (λ _. nothing refl)
      (λ inv _.
        if-cases P (is_rejected inv.status || is_expired inv.status && not late) (λ _. nothing refl)
          (λ _.
            if-cases P (is_some (find (is_topup_of i) db.ledger)) (λ _. nothing refl)
              (λ _.
                option-cases P (paid_by ref db.ledger)
                  (λ _.
                    option-cases P (lookup inv.user_id db.users) (λ _. nothing refl)
                      (λ b known.
                        if-cases P (violates_unique (stored_ref ref) db.ledger) (λ _. nothing refl)
                          (λ fresh. one_row _ fresh refl refl)))
                  (λ already _. nothing refl))))

credit_deposit-Adds :
    (ref u : String) (amount : ℤ) (d by : String) (now : ℕ) (db : Db)
    → Adds (some ref) db.ledger (Deposits.credit_deposit ref u amount d by now db).1.ledger
unfolding Deposits.credit_deposit book
credit_deposit-Adds ref u amount d by now db =
    let P : Result (Option DepositCredit) × Db → Type 0 =
      λ r. Adds (some ref) db.ledger r.1.ledger in
    option-cases P (lookup ref db.deposits) (λ _. nothing refl)
      (λ dep _.
        if-cases P (is_credited dep.status) (λ _. nothing refl)
          (λ _.
            option-cases P
              (or_else (ref_entry ref db.ledger) (manual_credit_row dep.tx_hash db.ledger))
              (λ _.
                option-cases P (lookup u db.users) (λ _. nothing refl)
                  (λ b known.
                    if-cases P (violates_unique (some ref) db.ledger) (λ _. nothing refl)
                      (λ fresh. one_row _ fresh refl refl)))
              (λ earlier _. nothing refl)))

complete_session-Adds :
    (id : String) (now : ℕ) (db : Db)
    → Adds
        (some (session_ref id))
        db.ledger
        (Stripe.complete_and_credit_stripe_session id now db).1.ledger
unfolding Stripe.complete_and_credit_stripe_session book
complete_session-Adds id now db =
    let P : Result (Option SessionCredit) × Db → Type 0 =
      λ r. Adds (some (session_ref id)) db.ledger r.1.ledger in
    option-cases P (lookup id db.sessions) (λ _. nothing refl)
      (λ s _.
        if-cases P (is_paid s.status) (λ _. nothing refl)
          (λ _.
            option-cases P (lookup s.user_id db.users) (λ _. nothing refl)
              (λ b known.
                if-cases P (violates_unique (some (session_ref id)) db.ledger) (λ _. nothing refl)
                  (λ fresh. one_row _ fresh refl refl))))

reverse_topup-Adds :
    (u : String) (amount : ℤ) (event : String) (r : Option String) (d k : String) (now : ℕ)
    (db : Db)
    → Adds
        (some (refund_ref event))
        db.ledger
        (Stripe.reverse_stripe_topup u amount event r d k now db).1.ledger
unfolding Stripe.reverse_stripe_topup book
reverse_topup-Adds u amount event r d k now db =
    let P : Result Reversal × Db → Type 0 =
      λ o. Adds (some (refund_ref event)) db.ledger o.1.ledger in
    if-cases P (is_some (ref_entry (refund_ref event) db.ledger)) (λ _. nothing refl)
      (λ _.
        option-cases P (lookup u db.users) (λ _. nothing refl)
          (λ b known.
            if-cases P (violates_unique (some (refund_ref event)) db.ledger) (λ _. nothing refl)
              (λ fresh. one_row _ fresh refl refl)))

-- 1 when a row of the ledger carries the deposit_ref.
abbrev pub booked : String → List LedgerEntry → ℕ
booked ref l = if is_some (ref_entry ref l) then 1 else 0

booked-found :
    (ref : String) (l : List LedgerEntry) → is_some (ref_entry ref l) ≡ true → booked ref l ≡ 1
booked-found ref l found = rw found refl

booked-absent :
    (ref : String) (l : List LedgerEntry) → is_some (ref_entry ref l) ≡ false → booked ref l ≡ 0
booked-absent ref l none_there = rw none_there refl

booked-le : (ref : String) (l : List LedgerEntry) → booked ref l ≤ 1
booked-le ref l =
    if-cases (λ n. n ≤ 1) (is_some (ref_entry ref l)) (λ _. omega arith) (λ _. omega arith)

-- A row of the ledger stays.
booked-Extends :
    (ref : String) (c : Call) (db : Db) → booked ref db.ledger ≤ booked ref (call c db).ledger
booked-Extends ref c db = elim (Bool-cases (is_some (ref_entry ref db.ledger))) [
  | inl found ↦
      let later = Extends-find _ (call-Extends c db) found in
      omega (arith, booked-found ref db.ledger found, booked-found ref (call c db).ledger later)
  | inr absent ↦ omega (arith, booked-absent ref db.ledger absent)
]

Adds-le :
    (ref key : String) (old new : List LedgerEntry)
    → Adds (some key) old new
    → booked ref old ≤ booked ref new
    → (if is_ref ref (some key) && ltb (length old) (length new) then 1 else 0) + booked ref old
      ≤ booked ref new
Adds-le ref key old new (nothing e) stays = rw e ground arith
Adds-le ref key old new (one_row row fresh keyed e) stays =
    elim (Bool-cases (is_ref ref (some key))) [
      | inl mine ↦
          let same : ref ≡ key = (eq_iff ref key).0 mine in
          let none_there : is_some (ref_entry ref old) ≡ false = rw same fresh in
          rw (e, mine) ground (arith, booked-absent ref old none_there)
      | inr other ↦ rw other omega (arith, stays)
    ]

-- The same for an optional key: without one, nothing is counted.
stored-le :
    (ref : String) (key : Option String) (old new : List LedgerEntry)
    → Adds key old new
    → booked ref old ≤ booked ref new
    → (if is_ref ref key && ltb (length old) (length new) then 1 else 0) + booked ref old
      ≤ booked ref new
stored-le ref none old new h stays = omega (arith, stays)
stored-le ref (some key) old new h stays = Adds-le ref key old new h stays

call-le :
    (ref : String) (c : Call) (db : Db)
    → (if books ref c db then 1 else 0) + booked ref db.ledger ≤ booked ref (call c db).ledger
unfolding call
call-le ref (Calls.credit_deposit r u a d by now) db =
    Adds-le ref r db.ledger _ (credit_deposit-Adds r u a d by now db)
      (booked-Extends ref (Calls.credit_deposit r u a d by now) db)
call-le ref (Calls.complete_and_credit_stripe_session id now) db =
    Adds-le ref (session_ref id) db.ledger _ (complete_session-Adds id now db)
      (booked-Extends ref (Calls.complete_and_credit_stripe_session id now) db)
call-le ref (Calls.reverse_stripe_topup u a e r d k now) db =
    Adds-le ref (refund_ref e) db.ledger _ (reverse_topup-Adds u a e r d k now db)
      (booked-Extends ref (Calls.reverse_stripe_topup u a e r d k now) db)
call-le ref (Calls.confirm_and_credit_invoice i tx d r late cents now) db =
    stored-le ref (stored_ref r) db.ledger _ (confirm-Adds i tx d r late cents now db)
      (booked-Extends ref (Calls.confirm_and_credit_invoice i tx d r late cents now) db)
call-le ref c db = omega (arith, booked-Extends ref c db)

-- Under one deposit_ref, of a transfer, a checkout session or a refund event, at most one
-- call of any sequence adds a row to the ledger, and none does when a row of the ledger carries it
-- already: for the calls that credit a transfer (to an invoice or to a user), that credit a checkout and
-- that reverse an event, at any arguments and between any other calls.
pub bookings_le :
    (ref : String) (cs : List Call) (db : Db) → bookings ref cs db + booked ref db.ledger ≤ 1
unfolding bookings
bookings_le ref [] db = omega (arith, booked-le ref db.ledger)
bookings_le ref (c ∷ cs) db = omega (arith, call-le ref c db, bookings_le ref cs (call c db))
