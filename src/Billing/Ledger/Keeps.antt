-- ===== src/Billing/Ledger/Keeps.antt =====
-- The methods that post nothing: invoices, reviews, deposits and holds, apart from their credits.
use greencompute_api.Prelude.{
  ℕ, String, refl, not, ◌==◌, string_eq, ◌||◌, Option, if-cases, option-cases, is_some, find,
}
use greencompute_api.Prelude.Int.{ℤ}
use greencompute_api.Prelude.Dict.{lookup}
use greencompute_api.Prelude.Text.{strip, truthy}
use greencompute_api.Billing.Schema.{Invoice, Deposit, StripeSession, ReviewStatus, Db}
use greencompute_api.Billing.Holds.{release_inference_hold}
use greencompute_api.Billing.Invoices.{
  is_pending, is_expired, is_confirmed, clashes, create_crypto_invoice,
  expire_stale_pending_invoices,
}
use greencompute_api.Billing.Reviews.{
  confirm_crypto_invoice, reject_crypto_invoice, report_invoice_tx_hash, request_invoice_review,
  set_review_status,
}
use greencompute_api.Billing.Deposits.{
  is_unmatched, Fields, record_deposit, mark_deposit, mark_deposits_by_tx, ignore_deposit,
}
use greencompute_api.Billing.Stripe.{
  complete_stripe_session, same_session, create_stripe_session, set_stripe_payment_intent,
}
use greencompute_api.Billing.Ledger.Posts.{Posts, kept}

pub release_inference_hold-Posts : (r : String) (db : Db) → Posts db (release_inference_hold r db)
unfolding release_inference_hold
release_inference_hold-Posts r db = kept refl refl

pub create_crypto_invoice-Posts :
    (i : String) (inv : Invoice) (db : Db) → Posts db (create_crypto_invoice i inv db)
unfolding create_crypto_invoice
create_crypto_invoice-Posts i inv db =
    if-cases (Posts db) (is_some (lookup i db.invoices) || clashes inv db.invoices)
      (λ _. kept refl refl) (λ _. kept refl refl)

pub expire_stale_pending_invoices-Posts :
    (grace : ℤ) (now : ℕ) (db : Db) → Posts db (expire_stale_pending_invoices grace now db)
unfolding expire_stale_pending_invoices
expire_stale_pending_invoices-Posts grace now db = kept refl refl

pub confirm_crypto_invoice-Posts :
    (i tx : String) (now : ℕ) (db : Db) → Posts db (confirm_crypto_invoice i tx now db)
unfolding confirm_crypto_invoice
confirm_crypto_invoice-Posts i tx now db =
    option-cases (Posts db) (lookup i db.invoices) (λ _. kept refl refl) (λ inv _. kept refl refl)

pub reject_crypto_invoice-Posts :
    (i : String) (reason text : Option String) (now : ℕ) (db : Db)
    → Posts db (reject_crypto_invoice i reason text now db)
unfolding reject_crypto_invoice
reject_crypto_invoice-Posts i reason text now db =
    option-cases (Posts db) (lookup i db.invoices) (λ _. kept refl refl)
      (λ inv _.
        if-cases (Posts db) (is_confirmed inv.status) (λ _. kept refl refl) (λ _. kept refl refl))

pub report_invoice_tx_hash-Posts :
    (i u tx : String) (db : Db) → Posts db (report_invoice_tx_hash i u tx db)
unfolding report_invoice_tx_hash
report_invoice_tx_hash-Posts i u tx db =
    option-cases (Posts db) (lookup i db.invoices) (λ _. kept refl refl)
      (λ inv _.
        if-cases (Posts db) (not (inv.user_id == u)) (λ _. kept refl refl)
          (λ _.
            if-cases (Posts db) (is_confirmed inv.status) (λ _. kept refl refl)
              (λ _. kept refl refl)))

pub request_invoice_review-Posts :
    (i u tx : String) (text : Option String) (now : ℕ) (db : Db)
    → Posts db (request_invoice_review i u tx text now db)
unfolding request_invoice_review
request_invoice_review-Posts i u tx text now db =
    option-cases (Posts db) (lookup i db.invoices) (λ _. kept refl refl)
      (λ inv _.
        if-cases (Posts db) (not (inv.user_id == u)) (λ _. kept refl refl)
          (λ _.
            if-cases (Posts db) (is_pending inv.status || is_expired inv.status)
              (λ _. kept refl refl) (λ _. kept refl refl)))

pub set_review_status-Posts :
    (i : String) (s : ReviewStatus) (paid reason text : Option String) (now : ℕ) (db : Db)
    → Posts db (set_review_status i s paid reason text now db)
unfolding set_review_status
set_review_status-Posts i s paid reason text now db =
    option-cases (Posts db) (lookup i db.invoices) (λ _. kept refl refl) (λ inv _. kept refl refl)

pub record_deposit-Posts :
    (r : String) (d : Deposit) (now : ℕ) (db : Db) → Posts db (record_deposit r d now db)
unfolding record_deposit
record_deposit-Posts r d now db =
    option-cases (Posts db) (lookup r db.deposits) (λ _. kept refl refl) (λ dep _. kept refl refl)

pub mark_deposit-Posts :
    (r : String) (f : Fields) (now : ℕ) (db : Db) → Posts db (mark_deposit r f now db)
unfolding mark_deposit
mark_deposit-Posts r f now db =
    option-cases (Posts db) (lookup r db.deposits) (λ _. kept refl refl) (λ dep _. kept refl refl)

pub mark_deposits_by_tx-Posts :
    (c : Option String) (tx : String) (f : Fields) (now : ℕ) (db : Db)
    → Posts db (mark_deposits_by_tx c tx f now db)
unfolding mark_deposits_by_tx
mark_deposits_by_tx-Posts c tx f now db = kept refl refl

pub ignore_deposit-Posts : (r : String) (db : Db) → Posts db (ignore_deposit r db)
unfolding ignore_deposit
ignore_deposit-Posts r db =
    option-cases (Posts db) (lookup r db.deposits) (λ _. kept refl refl)
      (λ dep _.
        if-cases (Posts db) (is_unmatched dep.status) (λ _. kept refl refl) (λ _. kept refl refl))

pub complete_stripe_session-Posts :
    (id : String) (now : ℕ) (db : Db) → Posts db (complete_stripe_session id now db)
unfolding complete_stripe_session
complete_stripe_session-Posts id now db =
    option-cases (Posts db) (lookup id db.sessions) (λ _. kept refl refl) (λ s _. kept refl refl)

pub create_stripe_session-Posts :
    (id : String) (s : StripeSession) (db : Db) → Posts db (create_stripe_session id s db)
unfolding create_stripe_session
create_stripe_session-Posts id s db =
    if-cases (Posts db)
      (is_some (lookup id db.sessions) || is_some (find (same_session s.session_id) db.sessions))
      (λ _. kept refl refl) (λ _. kept refl refl)

pub set_stripe_payment_intent-Posts :
    (id pi : String) (db : Db) → Posts db (set_stripe_payment_intent id pi db)
unfolding set_stripe_payment_intent
set_stripe_payment_intent-Posts id pi db =
    if-cases (Posts db) (strip pi == "") (λ _. kept refl refl)
      (λ _.
        option-cases (Posts db) (lookup id db.sessions) (λ _. kept refl refl)
          (λ s _.
            if-cases (Posts db) (truthy s.payment_intent_id) (λ _. kept refl refl)
              (λ _. kept refl refl)))
