-- ===== src/Billing/Ledger/Calls.antt =====
-- Sequences of calls of BillingRepository, each in its own transaction, as the services make them: its
-- methods that write a table of `Db`. Those that write verified_wallets, miner_payout_accrual and
-- inference_demand_stats are left out.
use greencompute_api.Prelude.{ℕ, String, Bool, Option, List, [], ◌∷◌}
use greencompute_api.Prelude.Int.{ℤ}
use greencompute_api.Billing.Schema.{Invoice, Deposit, StripeSession, ReviewStatus, Db, Result, ok}
use greencompute_api.Billing.Balance
use greencompute_api.Billing.Holds
use greencompute_api.Billing.Invoices
use greencompute_api.Billing.Reviews
use greencompute_api.Billing.Deposits
use greencompute_api.Billing.Deposits.{Fields}
use greencompute_api.Billing.Stripe
use greencompute_api.Billing.Ledger.Posts
use greencompute_api.Billing.Ledger.Posts.{Posts, kept, posted}
use greencompute_api.Billing.Ledger.Keeps

-- One call with its arguments and the time of its transaction.
pub data Call : Type 0 where
  credit_user : String → ℤ → String → Option String → String → ℕ → Call
  debit_user : String → ℤ → String → Option String → String → Bool → ℕ → Call
  debit_user_to_floor : String → ℤ → String → Option String → String → ℕ → Call
  reserve_inference_hold : String → ℤ → String → ℕ → ℕ → Call
  release_inference_hold : String → Call
  create_crypto_invoice : String → Invoice → Call
  confirm_crypto_invoice : String → String → ℕ → Call
  confirm_and_credit_invoice : String → String → String → Option String → Bool → Option ℤ → ℕ → Call
  expire_stale_pending_invoices : ℤ → ℕ → Call
  reject_crypto_invoice : String → Option String → Option String → ℕ → Call
  report_invoice_tx_hash : String → String → String → Call
  request_invoice_review : String → String → String → Option String → ℕ → Call
  set_review_status :
      String → ReviewStatus → Option String → Option String → Option String → ℕ → Call
  record_deposit : String → Deposit → ℕ → Call
  mark_deposit : String → Fields → ℕ → Call
  mark_deposits_by_tx : Option String → String → Fields → ℕ → Call
  ignore_deposit : String → Call
  credit_deposit : String → String → ℤ → String → String → ℕ → Call
  create_stripe_session : String → StripeSession → Call
  set_stripe_payment_intent : String → String → Call
  complete_stripe_session : String → ℕ → Call
  complete_and_credit_stripe_session : String → ℕ → Call
  reverse_stripe_topup : String → ℤ → String → Option String → String → String → ℕ → Call

-- The database that a call leaves behind.
unfoldable pub call : Call → Db → Db
call (credit_user u a k r d now) db = (Balance.credit_user u a k r d now db).1
call (debit_user u a k r d neg now) db = (Balance.debit_user u a k r d neg now db).1
call (debit_user_to_floor u a k r d now) db = (Balance.debit_user_to_floor u a k r d now db).1
call (reserve_inference_hold u a r ttl now) db = (Holds.reserve_inference_hold u a r ttl now db).1
call (release_inference_hold r) db = (Holds.release_inference_hold r db).1
call (create_crypto_invoice i inv) db = (Invoices.create_crypto_invoice i inv db).1
call (confirm_crypto_invoice i tx now) db = (Reviews.confirm_crypto_invoice i tx now db).1
call (confirm_and_credit_invoice i tx d ref late cents now) db =
    (Invoices.confirm_and_credit_invoice i tx d ref late cents now db).1
call (expire_stale_pending_invoices g now) db = (Invoices.expire_stale_pending_invoices g now db).1
call (reject_crypto_invoice i r n now) db = (Reviews.reject_crypto_invoice i r n now db).1
call (report_invoice_tx_hash i u tx) db = (Reviews.report_invoice_tx_hash i u tx db).1
call (request_invoice_review i u tx n now) db = (Reviews.request_invoice_review i u tx n now db).1
call (set_review_status i s p r n now) db = (Reviews.set_review_status i s p r n now db).1
call (record_deposit r d now) db = (Deposits.record_deposit r d now db).1
call (mark_deposit r f now) db = (Deposits.mark_deposit r f now db).1
call (mark_deposits_by_tx c tx f now) db = (Deposits.mark_deposits_by_tx c tx f now db).1
call (ignore_deposit r) db = (Deposits.ignore_deposit r db).1
call (credit_deposit r u a d by now) db = (Deposits.credit_deposit r u a d by now db).1
call (create_stripe_session id s) db = (Stripe.create_stripe_session id s db).1
call (set_stripe_payment_intent id pi) db = (Stripe.set_stripe_payment_intent id pi db).1
call (complete_stripe_session id now) db = (Stripe.complete_stripe_session id now db).1
call (complete_and_credit_stripe_session id now) db =
    (Stripe.complete_and_credit_stripe_session id now db).1
call (reverse_stripe_topup u a e r d k now) db = (Stripe.reverse_stripe_topup u a e r d k now db).1

unfoldable pub run : List Call → Db → Db
run [] db = db
run (c ∷ cs) db = run cs (call c db)

abbrev pub Moves : Db → Db → Type 0
Moves db db' = Posts {A = Unit} db (ok tt, db')

committed : {A : Type 0} {db : Db} {r : Result A × Db} → Posts db r → Moves db r.1
committed (kept u l) = kept u l
committed (posted row b known new after u l) = posted row b known new after u l

-- Every call leaves the balances and the ledger alone or posts one row.
pub call-Moves : (c : Call) (db : Db) → Moves db (call c db)
unfolding call
call-Moves (credit_user u a k r d now) db = committed (Posts.credit_user-Posts u a k r d now db)
call-Moves (debit_user u a k r d neg now) db =
    committed (Posts.debit_user-Posts u a k r d neg now db)
call-Moves (debit_user_to_floor u a k r d now) db =
    committed (Posts.debit_user_to_floor-Posts u a k r d now db)
call-Moves (reserve_inference_hold u a r ttl now) db =
    committed (Posts.reserve_inference_hold-Posts u a r ttl now db)
call-Moves (release_inference_hold r) db = committed (Keeps.release_inference_hold-Posts r db)
call-Moves (create_crypto_invoice i inv) db = committed (Keeps.create_crypto_invoice-Posts i inv db)
call-Moves (confirm_crypto_invoice i tx now) db =
    committed (Keeps.confirm_crypto_invoice-Posts i tx now db)
call-Moves (confirm_and_credit_invoice i tx d ref late cents now) db =
    committed (Posts.confirm_and_credit_invoice-Posts i tx d ref late cents now db)
call-Moves (expire_stale_pending_invoices g now) db =
    committed (Keeps.expire_stale_pending_invoices-Posts g now db)
call-Moves (reject_crypto_invoice i r n now) db =
    committed (Keeps.reject_crypto_invoice-Posts i r n now db)
call-Moves (report_invoice_tx_hash i u tx) db =
    committed (Keeps.report_invoice_tx_hash-Posts i u tx db)
call-Moves (request_invoice_review i u tx n now) db =
    committed (Keeps.request_invoice_review-Posts i u tx n now db)
call-Moves (set_review_status i s p r n now) db =
    committed (Keeps.set_review_status-Posts i s p r n now db)
call-Moves (record_deposit r d now) db = committed (Keeps.record_deposit-Posts r d now db)
call-Moves (mark_deposit r f now) db = committed (Keeps.mark_deposit-Posts r f now db)
call-Moves (mark_deposits_by_tx c tx f now) db =
    committed (Keeps.mark_deposits_by_tx-Posts c tx f now db)
call-Moves (ignore_deposit r) db = committed (Keeps.ignore_deposit-Posts r db)
call-Moves (credit_deposit r u a d by now) db =
    committed (Posts.credit_deposit-Posts r u a d by now db)
call-Moves (create_stripe_session id s) db = committed (Keeps.create_stripe_session-Posts id s db)
call-Moves (set_stripe_payment_intent id pi) db =
    committed (Keeps.set_stripe_payment_intent-Posts id pi db)
call-Moves (complete_stripe_session id now) db =
    committed (Keeps.complete_stripe_session-Posts id now db)
call-Moves (complete_and_credit_stripe_session id now) db =
    committed (Posts.complete_and_credit_stripe_session-Posts id now db)
call-Moves (reverse_stripe_topup u a e r d k now) db =
    committed (Posts.reverse_stripe_topup-Posts u a e r d k now db)
