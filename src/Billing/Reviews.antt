-- ===== src/Billing/Reviews.antt =====
-- BillingRepository's staff decisions and payment reviews on invoices: reject_crypto_invoice,
-- report_invoice_tx_hash, request_invoice_review, set_review_status and confirm_crypto_invoice.
use greencompute_api.Prelude.{
  ℕ, String, Bool, true, false, not, ◌||◌, Option, none, some, ◌==◌, string_eq, if◌then◌else◌,
}
use greencompute_api.Prelude.Dict.{lookup}
use greencompute_api.Prelude.Text.{truthy, clean_note}
use greencompute_api.Billing.Schema.{
  Invoice, InvoiceStatus, confirmed, rejected, ReviewStatus, open_review, resolved, dismissed, ok,
  Transaction,
}
use greencompute_api.Billing.Invoices.{
  is_pending, is_confirmed, is_rejected, is_expired, put_invoice, settle_invoice,
}

-- `confirm_crypto_invoice`: marks it, and credits nobody.
unfoldable pub confirm_crypto_invoice : String → String → ℕ → Transaction (Option Invoice)
confirm_crypto_invoice invoice_id tx_hash now db = elim (lookup invoice_id db.invoices) [
  | none ↦ (ok none, db)
  | some inv ↦
      let inv' = settle_invoice tx_hash now inv in (ok (some inv'), put_invoice invoice_id inv' db)
]

abbrev pub dismiss_open : Option ReviewStatus → Option ReviewStatus
dismiss_open (some open_review) = some dismissed
dismiss_open r = r

-- `if reason: row.decision_reason, row.decision_note = reason, note; decided_at = now`
abbrev pub decide : Option String → Option String → ℕ → Invoice → Invoice
decide reason note now inv =
    if truthy reason
    then record inv { decision_reason = reason; decision_note = note; decided_at = some now }
    else inv

unfoldable pub rejection : Option String → Option String → ℕ → Invoice → Invoice
rejection reason note now inv =
    if is_rejected inv.status
    then inv
    else decide reason note now
        (record inv { status = rejected; review_status = dismiss_open inv.review_status })

-- `reject_crypto_invoice`
unfoldable pub reject_crypto_invoice :
    String → Option String → Option String → ℕ → Transaction (Option Invoice)
unfolding rejection
reject_crypto_invoice invoice_id reason note now db = elim (lookup invoice_id db.invoices) [
  | none ↦ (ok none, db)
  | some inv ↦
      if is_confirmed inv.status
      then (ok none, db)
      else (let inv' = rejection reason note now inv in
          (ok (some inv'), put_invoice invoice_id inv' db))
]

-- `report_invoice_tx_hash`
unfoldable pub report_invoice_tx_hash : String → String → String → Transaction (Option Invoice)
report_invoice_tx_hash invoice_id user_id tx_hash db = elim (lookup invoice_id db.invoices) [
  | none ↦ (ok none, db)
  | some inv ↦
      if not (inv.user_id == user_id)
      then (ok none, db)
      else if is_confirmed inv.status
      then (ok (some inv), db)
      else (let inv' = record inv { tx_hash = some tx_hash } in
          (ok (some inv'), put_invoice invoice_id inv' db))
]

pub data ReviewAnswer : Type 0 where
  review_refused : InvoiceStatus → ReviewAnswer
  review_opened : InvoiceStatus → ReviewAnswer

abbrev pub reviewed : String → Option String → ℕ → Invoice → Invoice
reviewed tx_hash note now inv = record inv {
  tx_hash = some tx_hash;
  review_status = some open_review;
  review_note = clean_note note;
  review_requested_at = some now;
  decision_reason = none;
  decision_note = none;
  decided_at = none;
}

-- `request_invoice_review`
unfoldable pub request_invoice_review :
    String → String → String → Option String → ℕ → Transaction (Option ReviewAnswer)
request_invoice_review invoice_id user_id tx_hash note now db =
    elim (lookup invoice_id db.invoices) [
      | none ↦ (ok none, db)
      | some inv ↦
          if not (inv.user_id == user_id)
          then (ok none, db)
          else if is_pending inv.status || is_expired inv.status
          then (
            ok (some (review_opened inv.status)),
            put_invoice invoice_id (reviewed tx_hash note now inv) db,
          )
          else (ok (some (review_refused inv.status)), db)
    ]

abbrev pub is_resolved : ReviewStatus → Bool
is_resolved resolved = true
is_resolved _ = false

abbrev pub close_review : ReviewStatus → Option String → Option String → ℕ → Invoice → Invoice
close_review status reason note now inv =
    let inv' = record inv { review_status = some status } in
    if truthy reason
    then decide reason note now inv'
    else if is_resolved status
    then record inv' { decision_reason = none; decision_note = none }
    else inv'

abbrev pub mark_paid : Option String → ℕ → Invoice → Invoice
mark_paid none now inv = inv
mark_paid (some tx) now inv = if is_confirmed inv.status then inv else record inv {
  status = confirmed;
  tx_hash = if tx == "" then inv.tx_hash else some tx;
  confirmed_at = some now;
}

-- `set_review_status`
unfoldable pub set_review_status :
    String
    → ReviewStatus
    → Option String
    → Option String
    → Option String
    → ℕ
    → Transaction (Unit {0})
set_review_status invoice_id status paid_tx reason note now db =
    elim (lookup invoice_id db.invoices) [
      | none ↦ (ok tt, db)
      | some inv ↦ (
        ok tt,
        put_invoice invoice_id (mark_paid paid_tx now (close_review status reason note now inv)) db,
      )
    ]
