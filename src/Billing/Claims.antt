-- ===== src/Billing/Claims.antt =====
-- Unmatched transfers that find their owner later: claim_wallet_deposits, when a wallet is linked, and
-- _assign_deposit, by an admin, in services/gateway/.../application/billing_service.py.
pub mod Booked
mod Tests
use greencompute_api.Prelude.{
  ℕ, ◌+◌, ◌*◌, String, Bool, true, false, ◌&&◌, ◌||◌, Option, none, some, List, [], ◌∷◌, ◌==◌,
  string_eq, if◌then◌else◌, leb, select,
}
use greencompute_api.Prelude.Int.{ℤ, pos, ltb_ℤ}
use greencompute_api.Prelude.Dict.{lookup}
use greencompute_api.Billing.Schema.{
  second, Deposit, DepositStatus, unmatched, credited, ignored, Db, Result, ok, Transaction, is_ref,
}
use greencompute_api.Billing.Deposits.{
  is_unmatched, DepositCredit, already_credited, deposit_credited, credit_deposit,
}
use greencompute_api.Billing.Matches.{currency_chain}
use greencompute_api.Billing.Resolve.{on_ok}

-- `WALLET_LINK_LOOKBACK`, thirty days.
abbrev pub wallet_link_lookback : ℕ
wallet_link_lookback = 30 * 86400 * second

abbrev pub is_ignored : DepositStatus → Bool
is_ignored ignored = true
is_ignored _ = false

-- Not credited, and not ignored but by an admin's mark.
abbrev pub may_be_claimed : Deposit → Bool
may_be_claimed dep =
    is_unmatched dep.status || is_ignored dep.status && is_ref "admin_ignored" dep.matched_by

-- `currency in currencies`, the currencies of the chain.
abbrev pub is_on : String → Deposit → Bool
is_on chain dep = is_ref chain (currency_chain dep.currency)

-- `unmatched_deposits_from`: a row stands before those observed later.
unfoldable pub unmatched_deposits_from : String → String → ℕ → Db → List (String × Deposit)
unmatched_deposits_from address chain now db =
    select
      (λ (ref, dep).
        (dep.sender == address && is_on chain dep)
        && (may_be_claimed dep && leb now (dep.observed_at + wallet_link_lookback)))
      db.deposits

-- An entry of the answer: the transfer, and what it credited.
pub record Claim : Type 0 where
  pub deposit_ref : String
  pub tx_hash : Option String
  pub currency : String
  pub credited_cents : ℤ

-- The float amounts and the texts, as for `resolve_deposit`.
module _ (value_cents : Deposit → ℤ) (text : Deposit → String) (user : String) (now : ℕ) where
  abbrev pub add_claim : String → Deposit → Option DepositCredit → List Claim → List Claim
  add_claim ref dep (some (deposit_credited cents balance)) claims =
      record {
        deposit_ref = ref;
        tx_hash = dep.tx_hash;
        currency = dep.currency;
        credited_cents = value_cents dep;
      }
      ∷ claims
  add_claim ref dep (some already_credited) claims = claims
  add_claim ref dep none claims = claims

  abbrev pub credit_claim : String → Deposit → Transaction (Option DepositCredit)
  credit_claim ref dep db =
      if ltb_ℤ (value_cents dep) (pos 1)
      then (ok none, db)
      else credit_deposit ref user (value_cents dep) (text dep) "wallet_link" now db

  unfoldable pub claim_each : List (String × Deposit) → Transaction (List Claim)
  claim_each [] db = (ok [], db)
  claim_each ((ref, dep) ∷ rest) db =
      on_ok
        (λ answer db₁.
          on_ok (λ claims db₂. (ok (add_claim ref dep answer claims), db₂)) (claim_each rest db₁))
        (credit_claim ref dep db)

  -- `claim_wallet_deposits`
  unfoldable pub claim_wallet_deposits : String → String → Transaction (List Claim)
  unfolding claim_each unmatched_deposits_from
  claim_wallet_deposits chain address db =
      claim_each (unmatched_deposits_from address chain now db) db

  -- `_assign_deposit`: `none` if the transfer isn't logged.
  unfoldable pub _assign_deposit : String → Transaction (Option DepositCredit)
  _assign_deposit ref db = elim (lookup ref db.deposits) [
    | none ↦ (ok none, db)
    | some dep ↦ credit_deposit ref user (value_cents dep) (text dep) "admin" now db
  ]
