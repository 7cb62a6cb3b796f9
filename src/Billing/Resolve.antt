-- ===== src/Billing/Resolve.antt =====
-- resolve_deposit and its helpers in services/gateway/.../application/billing_service.py.
pub mod Bookings
pub mod Outcomes
pub mod Payments
pub mod Replays
mod Tests
use greencompute_api.Prelude.{
  ℕ, ◌+◌, ◌-◌, ◌*◌, ◌^◌, String, Bool, true, false, not, ◌&&◌, ◌||◌, Option, none, some, List, [],
  ◌∷◌, ◌==◌, string_eq, nat_eq, if◌then◌else◌, leb, ltb, find, select, ◌++◌,
}
use greencompute_api.Prelude.Int.{ℤ, pos, ltb_ℤ}
use greencompute_api.Prelude.Text.{codes, lower, same_text, strip, truthy}
use greencompute_api.Billing.Schema.{
  second, LedgerEntry, Invoice, Deposit, DepositStatus, credited, ignored, Db, Result, ok, raised,
  Transaction,
}
use greencompute_api.Billing.Invoices.{
  Confirmation, refused, already_confirmed, duplicate_deposit, credited_now, is_pending, is_expired,
  confirm_and_credit_invoice,
}
use greencompute_api.Billing.Deposits.{
  Fields, DepositCredit, deposit_credited, is_unmatched, record_deposit, mark_deposit,
  earlier_credit, credit_deposit,
}
use greencompute_api.Billing.Matches.{
  How, matched_text, Resolution, Quotes, Wallet, is_evm, currency_chain, is_wallet, user_of,
  owner_of_sender, difference_within, tolerance, exact_amount, same_address, is_at,
  pending_invoices, late_payment_window, recently_expired_invoices, exact, late, overpay, underpay,
  seen, paid, paid_wallet, left_ignored, left_unmatched,
}

-- The next transaction of a call, with what the earlier one answered and committed.
abbrev pub on_ok : {A B : Type 0} → (A → Transaction B) → Result A × Db → Result B × Db
on_ok f (ok a, db) = f a db
on_ok f (raised e, db) = (raised e, db)

-- `if outcome: return outcome`, and else the next rule.
abbrev pub or_next :
    {A : Type 0} → Result (Option A) × Db → Transaction (Option A) → Result (Option A) × Db
or_next (ok none, db) f = f db
or_next (ok (some a), db) f = (ok (some a), db)
or_next (raised e, db) f = (raised e, db)

abbrev pub only_credited : Fields
only_credited = record {
  status = some credited;
  matched_by = none;
  invoice_id = none;
  user_id = none;
  credited_cents = none;
}

abbrev pub only_ignored : Fields
only_ignored = record only_credited { status = some ignored }

-- `deposit.get("tx_hash") or deposit["deposit_ref"]`
abbrev pub tx_or_ref : Option String → String → String
tx_or_ref none ref = ref
tx_or_ref (some tx) ref = if tx == "" then ref else tx

module _ (q : Quotes) (ref : String) (dep : Deposit) (now : ℕ) where
  -- `_credit_invoice` once the confirmation has answered.
  abbrev pub after_confirm :
      How → String × Invoice → Option Confirmation → Transaction (Option Resolution)
  after_confirm how (i, inv) none db = (ok none, db)
  after_confirm how (i, inv) (some (refused status)) db = (ok none, db)
  after_confirm how (i, inv) (some (credited_now total balance)) db = (
    ok (some (paid how)),
    (mark_deposit ref
        (record only_credited {
          matched_by = some (matched_text how);
          invoice_id = some i;
          user_id = some inv.user_id;
          credited_cents = some total;
        })
        now db).1,
  )
  after_confirm how (i, inv) (some already_confirmed) db =
      (ok (some seen), (mark_deposit ref only_credited now db).1)
  after_confirm how (i, inv) (some (duplicate_deposit other)) db =
      (ok (some seen), (mark_deposit ref only_credited now db).1)

  -- `_credit_invoice`
  unfoldable pub _credit_invoice :
      How → Option ℤ → Bool → String × Invoice → Transaction (Option Resolution)
  _credit_invoice how cents allow_expired (i, inv) db = on_ok (after_confirm how (i, inv)) (
      confirm_and_credit_invoice i (tx_or_ref dep.tx_hash ref) (q.invoice_text how inv dep)
        (some ref) allow_expired cents now db)

  -- Rule 1: `for inv in exact`
  unfoldable pub credit_exact : List (String × Invoice) → Transaction (Option Resolution)
  credit_exact [] db = (ok none, db)
  credit_exact (inv ∷ rest) db =
      or_next (_credit_invoice exact none false inv db) (credit_exact rest)

  -- `_credit_invoice` of an expired invoice, for the value at arrival.
  abbrev pub credit_late : String × Invoice → Transaction (Option Resolution)
  credit_late inv = _credit_invoice late (some (q.value_cents dep)) true inv

  -- Rule 2: `if len(late) == 1`
  unfoldable pub credit_only_late : List (String × Invoice) → Transaction (Option Resolution)
  credit_only_late (inv ∷ []) db = credit_late inv db
  credit_only_late _ db = (ok none, db)

  abbrev pub after_credit : Option DepositCredit → Transaction (Option Resolution)
  after_credit (some (deposit_credited cents balance)) db = (ok (some paid_wallet), db)
  after_credit _ db = (ok (some seen), db)

  -- Rule 3: the owner of the sending wallet.
  unfoldable pub credit_owner : Option String → Transaction (Option Resolution)
  credit_owner none db = (ok none, db)
  credit_owner (some owner) db =
      if ltb_ℤ (q.value_cents dep) (pos 1)
      then (ok none, db)
      else on_ok after_credit
          (credit_deposit ref owner (q.value_cents dep) (q.wallet_text dep) "wallet" now db)

  abbrev pub last {ℓ} : {A : Type ℓ} → A → List A → A
  last a [] = a
  last a (b ∷ rest) = last b rest

  -- `len({inv["user_id"] for inv in candidates}) == 1`, after the first candidate.
  abbrev pub all_of : String → List (String × Invoice) → Bool
  all_of user [] = true
  all_of user ((i, inv) ∷ rest) = inv.user_id == user && all_of user rest

  abbrev pub one_customer : List (String × Invoice) → Bool
  one_customer [] = false
  one_customer ((i, inv) ∷ rest) = all_of inv.user_id rest

  abbrev pub over_or_under : Invoice → How
  over_or_under inv = if q.exceeds inv dep then overpay else underpay

  abbrev pub credit_fitting :
      List (String × Invoice) → List (String × Invoice) → Transaction (Option Resolution)
  credit_fitting ((i, inv) ∷ rest) expired_fit db =
      _credit_invoice (over_or_under inv) (some (q.value_at_invoice_rate inv dep)) false (i, inv) db
  credit_fitting [] (inv ∷ rest) db = credit_late (last inv rest) db
  credit_fitting [] [] db = (ok none, db)

  abbrev pub fitting : List (String × Invoice) → List (String × Invoice)
  fitting = select (λ (i, inv). q.fits inv dep)

  -- Rule 4: `_credit_one_customers_invoice`
  unfoldable pub _credit_one_customers_invoice :
      List (String × Invoice) → Transaction (Option Resolution)
  unfolding recently_expired_invoices
  _credit_one_customers_invoice open_invoices db =
      let open_fit = fitting open_invoices in
      let expired_fit = fitting (recently_expired_invoices dep now db) in
      if one_customer (open_fit ++ expired_fit)
      then credit_fitting open_fit expired_fit db
      else (ok none, db)

  -- Rules 1 to 4; `invoices` are the open ones when the first rule is tried.
  unfoldable pub try_rules : List Wallet → Transaction (Option Resolution)
  unfolding recently_expired_invoices pending_invoices
  try_rules wallets db =
      let invoices = pending_invoices dep db in
      or_next (credit_exact (select (exact_amount dep) invoices) db) (λ db₁.
        or_next
          (credit_only_late (select (exact_amount dep) (recently_expired_invoices dep now db₁)) db₁)
          (λ db₂.
            or_next (credit_owner (owner_of_sender dep wallets) db₂)
              (_credit_one_customers_invoice invoices)))

  -- Rule 5, when no rule has an outcome.
  abbrev pub or_leave : Option Resolution → Transaction Resolution
  or_leave (some outcome) db = (ok outcome, db)
  or_leave none db =
      if ltb_ℤ (q.value_cents dep) (pos 1)
      then (ok left_ignored, (mark_deposit ref only_ignored now db).1)
      else (ok left_unmatched, db)

  abbrev pub earlier_by : Bool → String
  earlier_by manual = if manual then "admin_invoice" else "invoice"

  -- A row that is still unmatched has no invoice_id that a None could clear.
  abbrev pub credited_earlier : LedgerEntry → Bool → Fields
  credited_earlier e manual = record {
    status = some credited;
    matched_by = some (earlier_by manual);
    invoice_id = e.reference_id;
    user_id = some e.user_id;
    credited_cents = some e.amount_cents;
  }

  -- `resolve_deposit` once the transfer is logged, by the row's status.
  unfoldable pub resolve_logged : List Wallet → DepositStatus → Transaction Resolution
  resolve_logged wallets status db =
      if not (is_unmatched status)
      then (ok seen, db)
      else elim (earlier_credit ref dep.tx_hash db) [
        | some e ↦ (ok seen, (mark_deposit ref (credited_earlier e.0 e.1) now db).1)
        | none ↦ on_ok or_leave (try_rules wallets db)
      ]

  -- `resolve_deposit`; the e-mails and the alert are left out.
  unfoldable pub resolve_deposit : List Wallet → Transaction Resolution
  resolve_deposit wallets db = on_ok (resolve_logged wallets) (record_deposit ref dep now db)
