-- ===== src/Billing/Matches.antt =====
-- What a transfer is matched with: the invoices and the wallet that resolve_deposit looks up, in
-- services/gateway/.../application/billing_service.py and the queries of billing_repository.py. A row of
-- the invoices table stands before the younger ones, so that a query `order_by(created_at)` keeps the
-- order of the table.
use greencompute_api.Prelude.{
  ℕ, ◌+◌, ◌-◌, ◌*◌, ◌^◌, String, Bool, false, ◌&&◌, ◌||◌, Option, none, some, List, ◌==◌, string_eq,
  nat_eq, if◌then◌else◌, leb, find, select,
}
use greencompute_api.Prelude.Int.{ℤ}
use greencompute_api.Prelude.Text.{codes, lower, same_text, strip, truthy}
use greencompute_api.Billing.Schema.{second, Invoice, Deposit, Db}
use greencompute_api.Billing.Invoices.{is_pending, is_expired}

-- What `_credit_invoice` writes to `matched_by`.
pub data How : Type 0 where
  exact late overpay underpay : How

abbrev pub matched_text : How → String
matched_text exact = "invoice"
matched_text late = "invoice_late"
matched_text overpay = "invoice_overpay"
matched_text underpay = "invoice_underpay"

-- What `resolve_deposit` returns.
pub data Resolution : Type 0 where
  seen : Resolution
  paid : How → Resolution
  paid_wallet left_ignored left_unmatched : Resolution

-- The floating-point amounts and the texts of one call: `deposit_value_cents`, `_value_at_invoice_rate`,
-- the range TOLERANT_MATCH, `amount > inv["amount_crypto"]`, and the two descriptions.
pub record Quotes : Type 0 where
  pub value_cents : Deposit → ℤ
  pub value_at_invoice_rate : Invoice → Deposit → ℤ
  pub fits : Invoice → Deposit → Bool
  pub exceeds : Invoice → Deposit → Bool
  pub invoice_text : How → Invoice → Deposit → String
  pub wallet_text : Deposit → String

-- A row of verified_wallets; (chain, address) is UNIQUE.
pub record Wallet : Type 0 where
  pub chain : String
  pub address : String
  pub user_id : String

-- `CURRENCY_CHAIN.get(currency)`
abbrev pub is_evm : String → Bool
is_evm c = c == "usdt-eth" || c == "usdc-eth" || c == "usdt-base" || c == "usdc-base"

abbrev pub currency_chain : String → Option String
currency_chain c =
    if c == "tao" || c == "alpha" then some "bittensor" else if is_evm c then some "evm" else none

abbrev pub is_wallet : String → String → Wallet → Bool
is_wallet chain address w = w.chain == chain && w.address == address

abbrev pub user_of : Option Wallet → Option String
user_of none = none
user_of (some w) = some w.user_id

-- `wallet_owner`, under `if chain` and `if owner`.
unfoldable pub owner_of_sender : Deposit → List Wallet → Option String
owner_of_sender dep wallets = elim (currency_chain dep.currency) [
  | none ↦ none
  | some chain ↦
      let owner = user_of (find (is_wallet chain dep.sender) wallets) in
      if truthy owner then owner else none
]

abbrev pub difference_within : ℕ → ℕ → ℕ → Bool
difference_within t a b = leb a (b + t) && leb b (a + t)

-- `_exact_amount`: the scale of fewer than 6 decimals, a fraction, is taken without rounding.
abbrev pub tolerance : ℕ → ℕ
tolerance decimals = if leb 9 decimals then 100 else 0

unfoldable pub exact_amount : Deposit → String × Invoice → Bool
exact_amount dep (i, inv) = elim inv.amount_units [
  | none ↦ false
  | some units ↦
      if leb 6 dep.decimals
      then difference_within (tolerance dep.decimals) dep.amount_raw
          (units * 10 ^ (dep.decimals - 6))
      else dep.amount_raw * 10 ^ (6 - dep.decimals) == units
]

-- `_invoices_where`: the currency, the condition, and the addresses compared in lower case.
abbrev pub same_address : String → String → Bool
same_address a b = same_text (lower (codes (strip a))) (lower (codes (strip b)))

abbrev pub is_at : Deposit → Invoice → Bool
is_at dep inv = inv.currency == dep.currency && same_address inv.deposit_address dep.deposit_address

unfoldable pub pending_invoices : Deposit → Db → List (String × Invoice)
pending_invoices dep db = select (λ (i, inv). is_pending inv.status && is_at dep inv) db.invoices

-- `datetime.now(UTC) - LATE_PAYMENT_WINDOW`, on the other side of the comparison.
abbrev pub late_payment_window : ℕ
late_payment_window = 86400 * second

unfoldable pub recently_expired_invoices : Deposit → ℕ → Db → List (String × Invoice)
recently_expired_invoices dep now db =
    select
      (λ (i, inv).
        (is_expired inv.status && leb now (inv.expires_at + late_payment_window)) && is_at dep inv)
      db.invoices
