-- ===== src/Billing/Balance.antt =====
-- BillingRepository's balance operations: get_balance, credit_user, debit_user and
-- debit_user_to_floor.
use greencompute_api.Prelude.{
  ℕ, ◌-◌, String, Bool, not, ◌&&◌, Option, none, some, string_eq, if◌then◌else◌, min, ltb,
}
use greencompute_api.Prelude.Int.{ℤ, pos, negate_ℕ, ◌-ℤ◌, ◌+ℤ◌, ltb_ℤ, max_zero}
use greencompute_api.Prelude.Dict.{lookup}
use greencompute_api.Billing.Schema.{
  Result, ok, raised, Transaction, key_error, insufficient_balance, book, balance_of,
}

unfoldable pub get_balance : String → Transaction ℤ
get_balance user_id db = (ok (balance_of user_id db), db)

-- `credit_user`: the result is the balance after it, as in the returned ledger entry.
unfoldable pub credit_user : String → ℤ → String → Option String → String → ℕ → Transaction ℤ
credit_user user_id amount kind reference_id description now db = elim (lookup user_id db.users) [
  | none ↦ (raised key_error, db)
  | some balance ↦ (
    ok (balance +ℤ amount),
    book user_id balance amount kind reference_id none description now db,
  )
]

-- `debit_user`, strict unless `allow_negative`.
unfoldable pub debit_user : String → ℤ → String → Option String → String → Bool → ℕ → Transaction ℤ
debit_user user_id amount kind reference_id description allow_negative now db =
    elim (lookup user_id db.users) [
      | none ↦ (raised key_error, db)
      | some balance ↦
          if not allow_negative && ltb_ℤ balance amount
          then (raised insufficient_balance, db)
          else (
            ok (balance +ℤ (pos 0 -ℤ amount)),
            book user_id balance (pos 0 -ℤ amount) kind reference_id none description now db,
          )
    ]

pub record Drained : Type 0 where
  pub debited_cents : ℕ
  pub shortfall_cents : ℕ

abbrev pub drained : ℤ → ℤ → Result Drained
drained amount balance =
    let amount_cents = max_zero amount in
    let take = min amount_cents (max_zero balance) in
    ok (record { debited_cents = take; shortfall_cents = amount_cents - take })

-- `debit_user_to_floor`: takes min(amount, max(0, balance)), with a ledger row only if it takes
-- something. `max_zero` is Python's `max(0, …)`.
unfoldable pub debit_user_to_floor :
    String → ℤ → String → Option String → String → ℕ → Transaction Drained
debit_user_to_floor user_id amount kind reference_id description now db =
    elim (lookup user_id db.users) [
      | none ↦ (raised key_error, db)
      | some balance ↦
          let amount_cents = max_zero amount in
          let take = min amount_cents (max_zero balance) in
          (
            ok (record { debited_cents = take; shortfall_cents = amount_cents - take }),
            if ltb 0 take
                then book user_id balance (negate_ℕ take) kind reference_id none description now db
                else db,
          )
    ]
