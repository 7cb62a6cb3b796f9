-- ===== src/Billing/Resolve/Bookings.antt =====
-- What one transaction of resolve_deposit does to the balances and the ledger.
use greencompute_api.Prelude.{
  ℕ, String, ◌≡◌, refl, Bool, false, not, ◌&&◌, ◌||◌, Option, none, some, List, ◌∷◌, ◌==◌,
  string_eq, find, is_some, if-cases, option-cases,
}
use greencompute_api.Prelude.Int.{ℤ, ◌+ℤ◌}
use greencompute_api.Prelude.Dict.{Dict, lookup, insert}
use greencompute_api.Billing.Schema.{
  LedgerEntry, Deposit, Db, Result, ok, raised, violates_unique, ref_entry, book,
}
use greencompute_api.Billing.Invoices.{
  Confirmation, credited_now, is_rejected, is_expired, is_topup_of, paid_by, stored_ref,
  credit_invoice, confirm_and_credit_invoice,
}
use greencompute_api.Billing.Deposits.{
  Fields, DepositCredit, deposit_credited, is_credited, or_else, manual_credit_row, record_deposit,
  mark_deposit, credit_deposit,
}
use greencompute_api.Billing.Matches.{Resolution, paid, paid_wallet}
use greencompute_api.Billing.Resolve.{or_next}

-- One new row of the ledger, under the transfer's deposit_ref, and its amount on its user's balance.
abbrev pub Books : String → Dict String ℤ → List LedgerEntry → Db → Type 0
Books ref users ledger db =
    (row : LedgerEntry) × (balance : ℤ) × (row.deposit_ref ≡ some ref)
    × (lookup row.user_id users ≡ some balance)
    × (db.users ≡ insert row.user_id (balance +ℤ row.amount_cents) users)
    × (db.ledger ≡ row ∷ ledger)

abbrev pub Keeps : Dict String ℤ → List LedgerEntry → Db → Type 0
Keeps users ledger db = (db.users ≡ users) × (db.ledger ≡ ledger)

-- An outcome that says a customer was credited books the transfer, and no other moves any money.
abbrev pub BooksAs : Resolution → String → Dict String ℤ → List LedgerEntry → Db → Type 0
BooksAs (paid how) ref users ledger db = Books ref users ledger db
BooksAs paid_wallet ref users ledger db = Books ref users ledger db
BooksAs _ ref users ledger db = Keeps users ledger db

abbrev pub Tried :
    String → Dict String ℤ → List LedgerEntry → Result (Option Resolution) × Db → Type 0
Tried ref users ledger (ok (some outcome), db) = BooksAs outcome ref users ledger db
Tried ref users ledger (_, db) = Keeps users ledger db

abbrev pub Resolved : String → Dict String ℤ → List LedgerEntry → Result Resolution × Db → Type 0
Resolved ref users ledger (ok outcome, db) = BooksAs outcome ref users ledger db
Resolved ref users ledger (raised e, db) = Keeps users ledger db

abbrev pub Confirmed :
    String → Dict String ℤ → List LedgerEntry → Result (Option Confirmation) × Db → Type 0
Confirmed ref users ledger (ok (some (credited_now total balance)), db) = Books ref users ledger db
Confirmed ref users ledger (_, db) = Keeps users ledger db

abbrev pub Claimed :
    String → Dict String ℤ → List LedgerEntry → Result (Option DepositCredit) × Db → Type 0
Claimed ref users ledger (ok (some (deposit_credited total balance)), db) =
    Books ref users ledger db
Claimed ref users ledger (_, db) = Keeps users ledger db

pub confirm-Confirmed :
    (ref i tx d : String) (late : Bool) (cents : Option ℤ) (now : ℕ) (db : Db)
    → (ref == "") ≡ false
    → Confirmed ref db.users db.ledger
        (confirm_and_credit_invoice i tx d (some ref) late cents now db)
unfolding confirm_and_credit_invoice credit_invoice book
confirm-Confirmed ref i tx d late cents now db named =
    let P : Result (Option Confirmation) × Db → Type 0 = Confirmed ref db.users db.ledger in
    option-cases P (lookup i db.invoices) (λ _. (refl, refl))
      (λ inv _.
        if-cases P (is_rejected inv.status || is_expired inv.status && not late) (λ _. (refl, refl))
          (λ _.
            if-cases P (is_some (find (is_topup_of i) db.ledger)) (λ _. (refl, refl))
              (λ _.
                option-cases P (paid_by (some ref) db.ledger)
                  (λ _.
                    option-cases P (lookup inv.user_id db.users) (λ _. (refl, refl))
                      (λ b known.
                        if-cases P (violates_unique (stored_ref (some ref)) db.ledger)
                          (λ _. (refl, refl)) (λ fresh. (_, b, rw named refl, known, refl, refl))))
                  (λ already _. (refl, refl)))))

pub credit_deposit-Claimed :
    (ref u : String) (amount : ℤ) (d by : String) (now : ℕ) (db : Db)
    → Claimed ref db.users db.ledger (credit_deposit ref u amount d by now db)
unfolding credit_deposit book
credit_deposit-Claimed ref u amount d by now db =
    let P : Result (Option DepositCredit) × Db → Type 0 = Claimed ref db.users db.ledger in
    option-cases P (lookup ref db.deposits) (λ _. (refl, refl))
      (λ dep _.
        if-cases P (is_credited dep.status) (λ _. (refl, refl))
          (λ _.
            option-cases P
              (or_else (ref_entry ref db.ledger) (manual_credit_row dep.tx_hash db.ledger))
              (λ _.
                option-cases P (lookup u db.users) (λ _. (refl, refl))
                  (λ b known.
                    if-cases P (violates_unique (some ref) db.ledger) (λ _. (refl, refl))
                      (λ fresh. (_, b, refl, known, refl, refl))))
              (λ earlier _. (refl, refl))))

pub mark-Keeps :
    (ref : String) (f : Fields) (now : ℕ) (db : Db)
    → Keeps db.users db.ledger (mark_deposit ref f now db).1
unfolding mark_deposit
mark-Keeps ref f now db =
    option-cases {B = Result _ × Db} (λ o. Keeps db.users db.ledger o.1) (lookup ref db.deposits)
      (λ _. (refl, refl)) (λ dep _. (refl, refl))

pub record-Keeps :
    (ref : String) (dep : Deposit) (now : ℕ) (db : Db)
    → Keeps db.users db.ledger (record_deposit ref dep now db).1
unfolding record_deposit
record-Keeps ref dep now db =
    option-cases {B = Result _ × Db} (λ o. Keeps db.users db.ledger o.1) (lookup ref db.deposits)
      (λ _. (refl, refl)) (λ old _. (refl, refl))

-- What was kept first may be left out of the books.
pub rebased :
    {users users' : Dict String ℤ} {ledger ledger' : List LedgerEntry}
    (P : Dict String ℤ → List LedgerEntry → Type 0)
    → users' ≡ users
    → ledger' ≡ ledger
    → P users' ledger'
    → P users ledger
rebased P u l h = rw (u, l) at h

module _ (ref : String) where
  -- A mark after a booking, and after no booking.
  pub mark-Books :
      (f : Fields) (now : ℕ) (db : Db) (users : Dict String ℤ) (ledger : List LedgerEntry)
      → Books ref users ledger db
      → Books ref users ledger (mark_deposit ref f now db).1
  mark-Books f now db users ledger (row, b, r, known, u, l) =
      let m = mark-Keeps ref f now db in (row, b, r, known, rw m.0 u, rw m.1 l)

  pub mark-kept :
      (f : Fields) (now : ℕ) (db : Db) (users : Dict String ℤ) (ledger : List LedgerEntry)
      → Keeps users ledger db
      → Keeps users ledger (mark_deposit ref f now db).1
  mark-kept f now db users ledger k = let m = mark-Keeps ref f now db in (rw m.0 k.0, rw m.1 k.1)

  pub or_next-Tried :
      (users : Dict String ℤ) (ledger : List LedgerEntry) (t : Result (Option Resolution) × Db)
      (f : Db → Result (Option Resolution) × Db)
      → Tried ref users ledger t
      → ((db : Db) → Tried ref db.users db.ledger (f db))
      → Tried ref users ledger (or_next t f)
  or_next-Tried users ledger (ok none, db) f h rest =
      rebased (λ u l. Tried ref u l (f db)) h.0 h.1 (rest db)
  or_next-Tried users ledger (ok (some a), db) f h rest = h
  or_next-Tried users ledger (raised e, db) f h rest = h
