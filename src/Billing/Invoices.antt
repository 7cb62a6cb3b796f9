-- ===== src/Billing/Invoices.antt =====
-- BillingRepository's crypto invoices: create, confirm, confirm-and-credit, expire, reject, and the
-- customer's payment reviews.
use greencompute_api.Prelude.{
  ℕ, ◌+◌, ◌*◌, String, Bool, true, false, not, ◌&&◌, ◌||◌, Option, none, some, List, [], ◌∷◌, ◌==◌,
  string_eq, nat_eq, if◌then◌else◌, ltb, find, is_some,
}
use greencompute_api.Prelude.Int.{ℤ, ◌+ℤ◌, max_zero}
use greencompute_api.Prelude.Dict.{Dict, lookup, insert}
use greencompute_api.Prelude.Text.{truthy}
use greencompute_api.Billing.Schema.{
  second, LedgerEntry, Invoice, InvoiceStatus, pending, confirmed, expired, rejected, Db, ok,
  raised, Transaction, key_error, integrity_error, is_ref, violates_unique, book,
}

abbrev pub is_pending : InvoiceStatus → Bool
is_pending pending = true
is_pending _ = false

abbrev pub is_confirmed : InvoiceStatus → Bool
is_confirmed confirmed = true
is_confirmed _ = false

abbrev pub is_rejected : InvoiceStatus → Bool
is_rejected rejected = true
is_rejected _ = false

abbrev pub is_expired : InvoiceStatus → Bool
is_expired expired = true
is_expired _ = false

-- `{"refused"}`, `{"already_confirmed"}` (with the invoice that a duplicate transfer had paid), and
-- `{"credited"}` with what was credited and the balance after it.
pub data Confirmation : Type 0 where
  refused : InvoiceStatus → Confirmation
  already_confirmed : Confirmation
  duplicate_deposit : Option String → Confirmation
  credited_now : ℤ → ℤ → Confirmation

-- The topup row of an invoice: layer 1 of the idempotency.
abbrev pub is_topup_of : String → LedgerEntry → Bool
is_topup_of invoice e = is_ref invoice e.reference_id && e.kind == "topup"

-- The topup row of a transfer: layer 2.
abbrev pub is_topup_by : String → LedgerEntry → Bool
is_topup_by ref e = e.kind == "topup" && is_ref ref e.deposit_ref

abbrev pub paid_by : Option String → List LedgerEntry → Option LedgerEntry
paid_by none l = none
paid_by (some ref) l = if ref == "" then none else find (is_topup_by ref) l

-- `deposit_ref or None`
abbrev pub stored_ref : Option String → Option String
stored_ref none = none
stored_ref (some ref) = if ref == "" then none else some ref

-- An invoice whose credit is already in the ledger is marked so.
abbrev pub heal : String → ℕ → Invoice → Invoice
heal tx_hash now inv = if is_confirmed inv.status then inv else record inv {
  status = confirmed;
  tx_hash = if not (tx_hash == "") && not (truthy inv.tx_hash) then some tx_hash else inv.tx_hash;
  confirmed_at = elim inv.confirmed_at [ none ↦ some now | some t ↦ some t ];
}

abbrev pub settle_invoice : String → ℕ → Invoice → Invoice
settle_invoice tx_hash now inv = record inv {
  status = confirmed;
  tx_hash = some tx_hash;
  confirmed_at = some now;
}

abbrev pub put_invoice : String → Invoice → Db → Db
put_invoice invoice_id inv db = record db { invoices = insert invoice_id inv db.invoices }

-- The insert of the ledger row: a violation of the UNIQUE deposit_ref rolls the session back.
unfoldable pub credit_invoice :
    String
    → Invoice
    → ℤ
    → ℤ
    → String
    → String
    → Option String
    → ℕ
    → Transaction (Option Confirmation)
credit_invoice invoice_id inv balance amount tx_hash description deposit_ref now db =
    if violates_unique (stored_ref deposit_ref) db.ledger
    then (ok (some (duplicate_deposit none)), db)
    else (
      ok (some (credited_now amount (balance +ℤ amount))),
      put_invoice invoice_id (settle_invoice tx_hash now inv) (
          book inv.user_id balance amount "topup" (some invoice_id) (stored_ref deposit_ref)
            description now db),
    )

abbrev pub or_total : Option ℤ → ℤ → ℤ
or_total none total = total
or_total (some cents) total = cents

-- `confirm_and_credit_invoice`
unfoldable pub confirm_and_credit_invoice :
    String
    → String
    → String
    → Option String
    → Bool
    → Option ℤ
    → ℕ
    → Transaction (Option Confirmation)
confirm_and_credit_invoice invoice_id tx_hash description deposit_ref allow_expired credit_cents now
      db =
    elim (lookup invoice_id db.invoices) [
      | none ↦ (ok none, db)
      | some inv ↦
          if is_rejected inv.status || (is_expired inv.status && not allow_expired)
          then (ok (some (refused inv.status)), db)
          else if is_some (find (is_topup_of invoice_id) db.ledger)
          then (ok (some already_confirmed), put_invoice invoice_id (heal tx_hash now inv) db)
          else elim (paid_by deposit_ref db.ledger) [
            | some already ↦ (ok (some (duplicate_deposit already.reference_id)), db)
            | none ↦ elim (lookup inv.user_id db.users) [
              | none ↦ (raised key_error, db)
              | some balance ↦
                  credit_invoice invoice_id inv balance (or_total credit_cents inv.total_credits)
                    tx_hash description deposit_ref now db
            ]
          ]
    ]

-- Two pending invoices at one address that ask for the same amount: the partial UNIQUE index.
abbrev pub same_units : ℕ → Option ℕ → Bool
same_units n none = false
same_units n (some m) = n == m

abbrev pub asks_same : Invoice → ℕ → String × Invoice → Bool
asks_same inv n (_, other) =
    (is_pending other.status && same_units n other.amount_units)
    && (other.currency == inv.currency && other.deposit_address == inv.deposit_address)

abbrev pub clashes : Invoice → Dict String Invoice → Bool
clashes inv invoices =
    is_pending inv.status
    && (elim inv.amount_units [ none ↦ false | some n ↦ is_some (find (asks_same inv n) invoices) ])

-- `create_crypto_invoice`; the invoice carries its `amount_units`.
unfoldable pub create_crypto_invoice : String → Invoice → Transaction (Unit {0})
create_crypto_invoice invoice_id inv db =
    if is_some (lookup invoice_id db.invoices) || clashes inv db.invoices
    then (raised integrity_error, db)
    else (ok tt, put_invoice invoice_id inv db)

-- `expire_stale_pending_invoices`: the UPDATE on each row, and how many rows it touched.
abbrev pub is_overdue : ℕ → ℕ → Invoice → Bool
is_overdue grace now inv = is_pending inv.status && ltb (inv.expires_at + grace * second) now

unfoldable pub expire_rows : ℕ → ℕ → Dict String Invoice → Dict String Invoice
expire_rows grace now [] = []
expire_rows grace now ((i, inv) ∷ rest) =
    (i, if is_overdue grace now inv then record inv { status = expired } else inv)
    ∷ expire_rows grace now rest

unfoldable pub count_overdue : ℕ → ℕ → Dict String Invoice → ℕ
count_overdue grace now [] = 0
count_overdue grace now ((i, inv) ∷ rest) =
    (if is_overdue grace now inv then 1 else 0) + count_overdue grace now rest

unfoldable pub expire_stale_pending_invoices : ℤ → ℕ → Transaction ℕ
unfolding expire_rows count_overdue
expire_stale_pending_invoices grace_seconds now db =
    let grace = max_zero grace_seconds in
    (
      ok (count_overdue grace now db.invoices),
      record db { invoices = expire_rows grace now db.invoices },
    )
