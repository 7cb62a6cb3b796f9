-- ===== src/Billing/Ledger/Once.antt =====
-- How often an invoice and a transfer are booked: confirm_and_credit_invoice and credit_deposit.
use greencompute_api.Prelude.{
  ℕ, String, ◌≡◌, refl, ◌≢◌, Bool, true, false, not, ◌&&◌, ◌||◌, Option, some, List, ◌==◌,
  string_eq, eq_iff, find, is_some, if-cases, option-cases,
}
use greencompute_api.Prelude.Int.{ℤ}
use greencompute_api.Prelude.Dict.{lookup}
use greencompute_api.Billing.Schema.{LedgerEntry, Db, Result, ok, violates_unique, ref_entry, book}
use greencompute_api.Billing.Invoices.{
  Confirmation, credited_now, is_rejected, is_expired, is_topup_of, paid_by, stored_ref,
  credit_invoice, confirm_and_credit_invoice,
}
use greencompute_api.Billing.Deposits.{
  DepositCredit, deposit_credited, is_credited, or_else, manual_credit_row, credit_deposit,
}
use greencompute_api.Billing.Stripe.{
  is_paid, SessionCredit, Reversal, session_credited, session_ref, refund_ref, reversed,
  complete_and_credit_stripe_session, reverse_stripe_topup,
}
use greencompute_api.Billing.Ledger.Calls.{Call, run}
use greencompute_api.Billing.Ledger.Invariant.{Extends-find, run-Extends}

-- A confirmation that credits: its amount and the balance after it.
abbrev pub Credits : Result (Option Confirmation) → ℤ → ℤ → Type 0
Credits r a b = r ≡ ok (some (credited_now a b))

module _ (i tx d : String) (ref : Option String) (late : Bool) (cents : Option ℤ) (now : ℕ) where
  -- A confirmation that credits leaves the invoice's topup row in the ledger.
  pub confirm-topup :
      (db : Db) {a b : ℤ}
      → Credits (confirm_and_credit_invoice i tx d ref late cents now db).0 a b
      → is_some
          (find (is_topup_of i) (confirm_and_credit_invoice i tx d ref late cents now db).1.ledger)
        ≡ true
  unfolding confirm_and_credit_invoice credit_invoice book
  confirm-topup db {a} {b} =
      let P : Result (Option Confirmation) × Db → Type 0 =
        λ r. Credits r.0 a b → is_some (find (is_topup_of i) r.1.ledger) ≡ true in
      option-cases P (lookup i db.invoices) (λ _ c. cc)
        (λ inv _.
          if-cases P (is_rejected inv.status || is_expired inv.status && not late) (λ _ c. cc)
            (λ _.
              if-cases P (is_some (find (is_topup_of i) db.ledger)) (λ _ c. cc)
                (λ _.
                  option-cases P (paid_by ref db.ledger)
                    (λ _.
                      option-cases P (lookup inv.user_id db.users) (λ _ c. cc)
                        (λ b known.
                          if-cases P (violates_unique (stored_ref ref) db.ledger) (λ _ c. cc)
                            (λ _ _. rw (eq_iff i i).1 refl)))
                    (λ already _ c. cc))))

  -- With the invoice's topup row in the ledger, no confirmation credits.
  confirm-paid :
      (db : Db) (a b : ℤ)
      → is_some (find (is_topup_of i) db.ledger) ≡ true
      → ¬ Credits (confirm_and_credit_invoice i tx d ref late cents now db).0 a b
  unfolding confirm_and_credit_invoice
  confirm-paid db a b paid_before =
      let P : Result (Option Confirmation) × Db → Type 0 = λ r. ¬ Credits r.0 a b in
      option-cases P (lookup i db.invoices) (λ _ c. cc)
        (λ inv _.
          if-cases P (is_rejected inv.status || is_expired inv.status && not late) (λ _ c. cc)
            (λ _.
              if-cases P (is_some (find (is_topup_of i) db.ledger)) (λ _ c. cc)
                (λ unpaid. absurd (cc))))

-- Once a confirmation has credited an invoice, no later confirmation of that invoice credits,
-- whatever its arguments and whatever calls come between.
pub confirm-Credits_once :
    (i tx tx' d d' : String) (ref ref' : Option String) (late late' : Bool)
    (cents cents' : Option ℤ) (now now' : ℕ) (cs : List Call) (db : Db) (a a' b b' : ℤ)
    → Credits (confirm_and_credit_invoice i tx d ref late cents now db).0 a b
    → ¬ Credits
        (confirm_and_credit_invoice i tx' d' ref' late' cents' now'
          (run cs (confirm_and_credit_invoice i tx d ref late cents now db).1)).0
        a'
        b'
confirm-Credits_once i tx tx' d d' ref ref' late late' cents cents' now now' cs db a a' b b' c =
    confirm-paid i tx' d' ref' late' cents' now' _ a' b' (
      Extends-find (is_topup_of i) (run-Extends cs _)
        (confirm-topup i tx d ref late cents now db c))

-- The row that carries a deposit_ref is found again after any calls.
pub ref_entry-run :
    (r : String) (cs : List Call) (db : Db)
    → is_some (ref_entry r db.ledger) ≡ true
    → is_some (ref_entry r (run cs db).ledger) ≡ true
ref_entry-run r cs db = Extends-find _ (run-Extends cs db)

stored_ref-used :
    (r : String) (l : List LedgerEntry)
    → (r == "") ≡ false
    → is_some (ref_entry r l) ≡ true
    → violates_unique (stored_ref (some r)) l ≢ false
stored_ref-used r l named used fresh = cc (rw named at fresh)

module _ (r : String) (db : Db) (used : is_some (ref_entry r db.ledger) ≡ true) where
  confirm-used_ref :
      (i tx d : String) (late : Bool) (cents : Option ℤ) (now : ℕ) (a b : ℤ)
      → (r == "") ≡ false
      → ¬ Credits (confirm_and_credit_invoice i tx d (some r) late cents now db).0 a b
  unfolding confirm_and_credit_invoice credit_invoice
  confirm-used_ref i tx d late cents now a b named =
      let P : Result (Option Confirmation) × Db → Type 0 = λ r. ¬ Credits r.0 a b in
      option-cases P (lookup i db.invoices) (λ _ c. cc)
        (λ inv _.
          if-cases P (is_rejected inv.status || is_expired inv.status && not late) (λ _ c. cc)
            (λ _.
              if-cases P (is_some (find (is_topup_of i) db.ledger)) (λ _ c. cc)
                (λ _.
                  option-cases P (paid_by (some r) db.ledger)
                    (λ _.
                      option-cases P (lookup inv.user_id db.users) (λ _ c. cc)
                        (λ b known.
                          if-cases P (violates_unique (stored_ref (some r)) db.ledger) (λ _ c. cc)
                            (λ fresh. absurd (stored_ref-used r db.ledger named used fresh))))
                    (λ already _ c. cc))))

  credit_deposit-used_ref :
      (u : String) (amount : ℤ) (d by : String) (now : ℕ) (a b : ℤ)
      → (credit_deposit r u amount d by now db).0 ≢ ok (some (deposit_credited a b))
  unfolding credit_deposit
  credit_deposit-used_ref u amount d by now a b =
      let P : Result (Option DepositCredit) × Db → Type 0 =
        λ r. r.0 ≢ ok (some (deposit_credited a b)) in
      option-cases P (lookup r db.deposits) (λ _ c. cc)
        (λ dep _.
          if-cases P (is_credited dep.status) (λ _ c. cc)
            (λ _.
              option-cases P
                (or_else (ref_entry r db.ledger) (manual_credit_row dep.tx_hash db.ledger))
                (λ _.
                  option-cases P (lookup u db.users) (λ _ c. cc)
                    (λ b known.
                      if-cases P (violates_unique (some r) db.ledger) (λ _ c. cc)
                        (λ fresh. absurd (cc))))
                (λ earlier _ c. cc)))

-- A checkout's credit carries its session_ref, so once that is in the ledger it is not booked again.
pub complete_session-used_ref :
    (id : String) (now : ℕ) (db : Db) (a b : ℤ)
    → is_some (ref_entry (session_ref id) db.ledger) ≡ true
    → (complete_and_credit_stripe_session id now db).0 ≢ ok (some (session_credited a b))
unfolding complete_and_credit_stripe_session
complete_session-used_ref id now db a b used =
    let P : Result (Option SessionCredit) × Db → Type 0 =
      λ r. r.0 ≢ ok (some (session_credited a b)) in
    option-cases P (lookup id db.sessions) (λ _ c. cc)
      (λ s _.
        if-cases P (is_paid s.status) (λ _ c. cc)
          (λ _.
            option-cases P (lookup s.user_id db.users) (λ _ c. cc)
              (λ b known.
                if-cases P (violates_unique (some (session_ref id)) db.ledger) (λ _ c. cc)
                  (λ fresh. absurd (cc)))))

pub reverse_topup-used_ref :
    (u : String) (amount : ℤ) (event : String) (ref : Option String) (d k : String) (now : ℕ)
    (db : Db) (a : ℤ)
    → is_some (ref_entry (refund_ref event) db.ledger) ≡ true
    → (reverse_stripe_topup u amount event ref d k now db).0 ≢ ok (reversed a)
unfolding reverse_stripe_topup
reverse_topup-used_ref u amount event ref d k now db a used =
    let P : Result Reversal × Db → Type 0 = λ r. r.0 ≢ ok (reversed a) in
    if-cases P (is_some (ref_entry (refund_ref event) db.ledger)) (λ _ c. cc) (λ fresh. absurd (cc))

-- Once any row of the ledger carries the (not empty) deposit_ref of a transfer, then after any calls
-- that transfer credits nobody: neither a confirmation with that deposit_ref, of any invoice, nor
-- credit_deposit of it, for any user.
pub transfer-Credits_once :
    (r : String) (db : Db) (cs : List Call) (i tx d u d' by : String) (late : Bool)
    (cents : Option ℤ) (amount : ℤ) (now : ℕ) (a b : ℤ)
    → (r == "") ≡ false
    → is_some (ref_entry r db.ledger) ≡ true
    → (¬ Credits (confirm_and_credit_invoice i tx d (some r) late cents now (run cs db)).0 a b)
      × ((credit_deposit r u amount d' by now (run cs db)).0 ≢ ok (some (deposit_credited a b)))
transfer-Credits_once r db cs i tx d u d' by late cents amount now a b named used =
    let later = ref_entry-run r cs db used in
    (
      confirm-used_ref r (run cs db) later i tx d late cents now a b named,
      credit_deposit-used_ref r (run cs db) later u amount d' by now a b,
    )
