-- ===== src/Billing/Deposits.antt =====
-- BillingRepository's deposits: every transfer seen at a deposit address, and its credit.
use greencompute_api.Prelude.{
  ℕ, String, Bool, true, false, ◌&&◌, ◌||◌, Option, none, some, List, [], ◌∷◌, ◌==◌, string_eq,
  if◌then◌else◌, find, is_some, select, length,
}
use greencompute_api.Prelude.Int.{ℤ, ◌+ℤ◌}
use greencompute_api.Prelude.Dict.{Dict, lookup, insert}
use greencompute_api.Prelude.Text.{strip, is_manual_ref, is_same_tx}
use greencompute_api.Billing.Schema.{
  LedgerEntry, Deposit, DepositStatus, unmatched, credited, ignored, Db, ok, raised, Transaction,
  key_error, ref_entry, violates_unique, book,
}

abbrev pub is_credited : DepositStatus → Bool
is_credited credited = true
is_credited _ = false

abbrev pub is_unmatched : DepositStatus → Bool
is_unmatched unmatched = true
is_unmatched _ = false

abbrev pub put_deposit : String → Deposit → Db → Db
put_deposit ref dep db = record db { deposits = insert ref dep db.deposits }

-- `record_deposit`: the status that an earlier tick left, or a new unmatched row.
unfoldable pub record_deposit : String → Deposit → ℕ → Transaction DepositStatus
record_deposit ref deposit now db = elim (lookup ref db.deposits) [
  | some existing ↦ (ok existing.status, db)
  | none ↦
      (ok unmatched, put_deposit ref (record deposit { status = unmatched; observed_at = now }) db)
]

-- The fields that `mark_deposit` and `mark_deposits_by_tx` are given; `none` is a field not given.
pub record Fields : Type 0 where
  pub status : Option DepositStatus
  pub matched_by : Option String
  pub invoice_id : Option String
  pub user_id : Option String
  pub credited_cents : Option ℤ

abbrev pub given {ℓ} : {A : Type ℓ} → Option A → A → A
given none old = old
given (some new) old = new

abbrev pub given_some {ℓ} : {A : Type ℓ} → Option A → Option A → Option A
given_some none old = old
given_some (some new) old = some new

-- `for key, value in fields.items(): setattr(row, key, value)`
abbrev pub set_fields : Fields → Deposit → Deposit
set_fields f dep = record dep {
  status = given f.status dep.status;
  matched_by = given_some f.matched_by dep.matched_by;
  invoice_id = given_some f.invoice_id dep.invoice_id;
  user_id = given_some f.user_id dep.user_id;
  credited_cents = given_some f.credited_cents dep.credited_cents;
}

abbrev pub or_now : Option ℕ → ℕ → ℕ
or_now none now = now
or_now (some t) now = t

abbrev pub stamp_if : Bool → ℕ → Deposit → Deposit
stamp_if b now dep =
    if b then record dep { credited_at = some (or_now dep.credited_at now) } else dep

abbrev pub sets_credited : Option DepositStatus → Bool
sets_credited none = false
sets_credited (some s) = is_credited s

-- `mark_deposit`
unfoldable pub mark_deposit : String → Fields → ℕ → Transaction (Unit {0})
mark_deposit ref fields now db = elim (lookup ref db.deposits) [
  | none ↦ (ok tt, db)
  | some dep ↦ (
    ok tt,
    put_deposit ref (stamp_if (sets_credited fields.status) now (set_fields fields dep)) db,
  )
]

-- `func.lower(tx_hash) == tx` and, with a currency, `currency == currency`.
abbrev pub is_wanted : Option String → String → Deposit → Bool
is_wanted none tx dep = is_same_tx tx dep.tx_hash
is_wanted (some c) tx dep = is_same_tx tx dep.tx_hash && (c == "" || dep.currency == c)

unfoldable pub mark_rows :
    Option String → String → Fields → ℕ → Dict String Deposit → Dict String Deposit
mark_rows currency tx fields now [] = []
mark_rows currency tx fields now ((r, dep) ∷ rest) =
    (r, if is_wanted currency tx dep then stamp_if true now (set_fields fields dep) else dep)
    ∷ mark_rows currency tx fields now rest

-- `mark_deposits_by_tx`
unfoldable pub mark_deposits_by_tx : Option String → String → Fields → ℕ → Transaction ℕ
unfolding mark_rows
mark_deposits_by_tx currency tx fields now db = (
  ok (length (select (λ r. is_wanted currency tx r.1) db.deposits)),
  record db { deposits = mark_rows currency tx fields now db.deposits },
)

-- `ignore_deposit`: `none` if it isn't logged, else the status that refused it or the new one.
pub data Ignoring : Type 0 where
  ignore_refused : DepositStatus → Ignoring
  ignored_now : Ignoring

unfoldable pub ignore_deposit : String → Transaction (Option Ignoring)
ignore_deposit ref db = elim (lookup ref db.deposits) [
  | none ↦ (ok none, db)
  | some dep ↦
      if is_unmatched dep.status
      then (
        ok (some ignored_now),
        put_deposit ref (record dep { status = ignored; matched_by = some "admin_ignored" }) db,
      )
      else (ok (some (ignore_refused dep.status)), db)
]

abbrev pub is_manual : String → LedgerEntry → Bool
is_manual tx e = elim e.deposit_ref [ none ↦ false | some ref ↦ is_manual_ref tx ref ]

-- `_manual_credit_row`: an admin's confirm of the transaction.
unfoldable pub manual_credit_row : Option String → List LedgerEntry → Option LedgerEntry
manual_credit_row none l = none
manual_credit_row (some tx) l = if tx == "" then none else find (is_manual tx) l

abbrev pub or_else {ℓ} : {A : Type ℓ} → Option A → Option A → Option A
or_else none b = b
or_else (some a) b = some a

-- `earlier_credit`: the entry, and whether it was found by an admin's confirm.
unfoldable pub earlier_credit : String → Option String → Db → Option (LedgerEntry × Bool)
unfolding manual_credit_row
earlier_credit ref tx db = elim (ref_entry ref db.ledger) [
  | some e ↦ some (e, false)
  | none ↦ elim (manual_credit_row tx db.ledger) [ none ↦ none | some e ↦ some (e, true) ]
]

pub data DepositCredit : Type 0 where
  already_credited : DepositCredit
  deposit_credited : ℤ → ℤ → DepositCredit

-- The row once an earlier ledger entry is found, and once it is credited here.
abbrev pub credited_before : LedgerEntry → Deposit → Deposit
credited_before e dep = record dep {
  status = credited;
  user_id = some e.user_id;
  credited_cents = some e.amount_cents;
  credited_at = some (or_now dep.credited_at e.created_at);
}

abbrev pub credited_here : String → ℤ → String → ℕ → Deposit → Deposit
credited_here user cents matched_by now dep = record dep {
  status = credited;
  matched_by = some matched_by;
  user_id = some user;
  credited_cents = some cents;
  credited_at = some now;
}

-- `credit_deposit`; the insert's UNIQUE deposit_ref cannot fail after the SELECT of the same
-- transaction, and is kept as the source has it.
unfoldable pub credit_deposit :
    String → String → ℤ → String → String → ℕ → Transaction (Option DepositCredit)
credit_deposit ref user_id amount description matched_by now db = elim (lookup ref db.deposits) [
  | none ↦ (ok none, db)
  | some dep ↦
      if is_credited dep.status
      then (ok (some already_credited), db)
      else elim (or_else (ref_entry ref db.ledger) (manual_credit_row dep.tx_hash db.ledger)) [
        | some earlier ↦
            (ok (some already_credited), put_deposit ref (credited_before earlier dep) db)
        | none ↦ elim (lookup user_id db.users) [
          | none ↦ (raised key_error, db)
          | some balance ↦
              if violates_unique (some ref) db.ledger then (ok (some already_credited), db) else (
                ok (some (deposit_credited amount (balance +ℤ amount))),
                put_deposit ref (credited_here user_id amount matched_by now dep)
                    (book user_id balance amount "topup" none (some ref) description now db),
              )
        ]
      ]
]

abbrev pub credited_to : String → String → String × Deposit → Bool
credited_to user tx (_, dep) =
    (is_same_tx tx dep.tx_hash && is_credited dep.status)
    && (elim dep.user_id [ none ↦ false | some u ↦ u == user ])

-- `tx_credited_to`
unfoldable pub tx_credited_to : String → Option String → Db → Bool
unfolding manual_credit_row
tx_credited_to user none db = false
tx_credited_to user (some tx) db =
    if strip tx == ""
    then false
    else (is_some (find (credited_to user tx) db.deposits)
        || (elim (manual_credit_row (some tx) db.ledger) [
          | none ↦ false
          | some e ↦ e.user_id == user
        ]))
