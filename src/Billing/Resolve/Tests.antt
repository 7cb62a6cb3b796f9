-- ===== src/Billing/Resolve/Tests.antt =====
-- Ann owes 5 and has an open invoice for it, Bob a verified wallet: transfers at their address.
use greencompute_api.Prelude.{◌≡◌, refl, true, none, some, List, [], ◌∷◌, string_eq}
use greencompute_api.Prelude.Int.{pos}
use greencompute_api.Billing.Schema.{Db, Invoice, Deposit, pending, unmatched, Result, ok}
use greencompute_api.Billing.Ledger.Calls.{Call, run}
use greencompute_api.Billing.Ledger.Calls
use greencompute_api.Billing.Matches.{
  exact, Quotes, Wallet, paid, paid_wallet, left_unmatched, Resolution, exact_amount,
  pending_invoices, recently_expired_invoices, owner_of_sender,
}
use greencompute_api.Billing.Resolve.{
  resolve_deposit, resolve_logged, try_rules, credit_exact, _credit_invoice, credit_only_late,
  credit_owner, _credit_one_customers_invoice,
}
use greencompute_api.Billing.Deposits.{record_deposit, earlier_credit, credit_deposit, mark_deposit}
use greencompute_api.Billing.Invoices.{confirm_and_credit_invoice, credit_invoice}
use greencompute_api.Prelude.Text.{same_text, lower, strip}
use greencompute_api.Billing.Resolve.Bookings.{Resolved}
use greencompute_api.Billing.Resolve.Outcomes.{resolve_deposit-Resolved}
use greencompute_api.Billing.Resolve.Payments.{Pays, resolve_deposit-Pays}
use greencompute_api.Billing.Resolve.Replays.{Sees, resolve_deposit-Sees}

abbrev invoice : Invoice
invoice = record {
  user_id = "ann";
  currency = "usdt-eth";
  amount_units = some 5000003;
  total_credits = pos 500;
  deposit_address = "0xD";
  status = pending;
  tx_hash = none;
  expires_at = 9000000;
  confirmed_at = none;
  review_status = none;
  review_note = none;
  review_requested_at = none;
  decision_reason = none;
  decision_note = none;
  decided_at = none;
}

abbrev transfer : Deposit
transfer = record {
  currency = "usdt-eth";
  tx_hash = some "0xabc";
  sender = "0xs";
  deposit_address = "0xd";
  amount_raw = 5000003;
  decimals = 6;
  block_number = 7;
  status = unmatched;
  matched_by = none;
  invoice_id = none;
  user_id = none;
  credited_cents = none;
  observed_at = 0;
  credited_at = none;
}

abbrev other_amount : Deposit
other_amount = record transfer { amount_raw = 90000000 }

abbrev start : Db
start = record {
  users = ("ann", pos 100) ∷ ("bob", pos 7) ∷ [];
  ledger = [];
  invoices = ("inv", invoice) ∷ [];
  deposits = [];
  sessions = [];
  holds = [];
}

abbrev quotes : Quotes
quotes = record {
  value_cents = λ d. pos d.amount_raw;
  value_at_invoice_rate = λ inv d. inv.total_credits;
  fits = λ inv d. true;
  exceeds = λ inv d. true;
  invoice_text = λ how inv d. "invoice";
  wallet_text = λ d. "wallet";
}

abbrev bob : Wallet
bob = record { chain = "evm"; address = "0xs"; user_id = "bob" }

resolving : Deposit → Result Resolution
unfolding resolve_deposit record_deposit resolve_logged earlier_credit try_rules credit_exact
    exact_amount _credit_invoice confirm_and_credit_invoice credit_invoice same_text lower strip
    pending_invoices recently_expired_invoices credit_only_late credit_owner owner_of_sender
    credit_deposit _credit_one_customers_invoice mark_deposit
resolving dep = (resolve_deposit quotes "eth:0xabc:1" dep 1000 (bob ∷ []) start).0

exact_paid : resolving transfer ≡ ok (paid exact)
unfolding resolving
exact_paid = refl

wallet_paid : resolving other_amount ≡ ok paid_wallet
unfolding resolving
wallet_paid = refl

stranger_unmatched : resolving (record other_amount { currency = "tao" }) ≡ ok left_unmatched
unfolding resolving
stranger_unmatched = refl

resolve_deposit-Resolved_example :
    Resolved "eth:0xabc:1" start.users []
      (resolve_deposit quotes "eth:0xabc:1" transfer 1000 [] start)
resolve_deposit-Resolved_example =
    resolve_deposit-Resolved quotes "eth:0xabc:1" transfer 1000 refl [] start

abbrev paid_once : Db
paid_once = (resolve_deposit quotes "eth:0xabc:1" transfer 1000 [] start).1

abbrev expired : List Call
expired = Calls.expire_stale_pending_invoices (pos 0) 10000000 ∷ []

resolve_deposit-Sees_example :
    Sees
      (run expired paid_once).users
      (run expired paid_once).ledger
      (resolve_deposit quotes "eth:0xabc:1" transfer 2000 (bob ∷ []) (run expired paid_once))
unfolding resolve_deposit record_deposit resolve_logged earlier_credit try_rules credit_exact
    exact_amount _credit_invoice confirm_and_credit_invoice credit_invoice same_text lower strip
    pending_invoices
resolve_deposit-Sees_example =
    resolve_deposit-Sees quotes quotes "eth:0xabc:1" transfer transfer 1000 2000 [] (bob ∷ [])
      expired start refl refl

resolve_deposit-Pays_example :
    Pays invoice
      (pos 100)
      (paid exact)
      start
      (resolve_deposit quotes "eth:0xabc:1" transfer 1000 (bob ∷ []) start)
unfolding exact_amount pending_invoices same_text lower strip earlier_credit
resolve_deposit-Pays_example =
    resolve_deposit-Pays quotes "eth:0xabc:1" "inv" invoice transfer (pos 100) 1000 [] (bob ∷ [])
      start refl (tt, tt) refl refl refl refl refl
