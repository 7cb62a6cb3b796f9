-- ===== src/Billing/Charges.antt =====
-- What debit_user_to_floor takes.
use greencompute_api.Prelude.{
  ◌⊎◌, ◌≤◌, ℕ, ◌+◌, ◌-◌, ◌∙◌, String, ◌≡◌, Option, none, some, arith, eq_iff, ltb, ltb→not_lt, min,
  if-cases, string_eq,
}
use greencompute_api.Prelude.Int.{
  ℤ, pos, ◌+ℤ◌, ◌-ℤ◌, max_zero, negate_ℕ, int_laws, parts_of_eq, parts_apart, -ℤ_parts,
}
use greencompute_api.Prelude.Dict.{lookup, lookup-insert}
use greencompute_api.Billing.Schema.{Db, ok, balance_of, book}
use greencompute_api.Billing.Balance.{drained, debit_user_to_floor}

-- The balance after a row is booked.
pub book-balance :
    (u : String) (b a : ℤ) (k : String) (r ref : Option String) (d : String) (now : ℕ) (db : Db)
    → balance_of u (book u b a k r ref d now db) ≡ b +ℤ a
unfolding book
book-balance u b a k r ref d now db = rw lookup-insert (ground (arith, eq_iff u u))

module _ (u : String) (amount balance : ℤ) (k : String) (r : Option String) (d : String) (now : ℕ)
    (db : Db) (known : lookup u db.users ≡ some balance) where
  floor-result : (debit_user_to_floor u amount k r d now db).0 ≡ drained amount balance
  unfolding debit_user_to_floor
  floor-result = rw (known, debit_user_to_floor)

  floor-balance :
      balance_of u (debit_user_to_floor u amount k r d now db).1
      ≡ balance -ℤ pos (min (max_zero amount) (max_zero balance))
  unfolding debit_user_to_floor
  floor-balance =
      let take = min (max_zero amount) (max_zero balance) in
      rw (known, debit_user_to_floor)
        (if-cases (λ d'. balance_of u d' ≡ balance -ℤ pos take) (ltb 0 take)
          (λ _. book-balance u balance (negate_ℕ take) k r none d now db ∙ omega int_laws)
          (λ nothing. rw known (omega (int_laws, ltb→not_lt 0 take nothing))))

-- For a known user: what `debit_user_to_floor` takes and its shortfall add up to the amount asked
-- for (0 for a negative one); the balance falls by exactly what is taken; no more is taken than the
-- balance has above 0; and either nothing is short or all that was above 0 is taken.
pub debit_user_to_floor_lem :
    (u : String) (amount balance : ℤ) (k : String) (r : Option String) (d : String) (now : ℕ)
    (db : Db)
    → lookup u db.users ≡ some balance
    → (taken short : ℕ) × ((debit_user_to_floor u amount k r d now db).0
        ≡ ok (record { debited_cents = taken; shortfall_cents = short }))
      × (taken + short ≡ max_zero amount)
      × (balance_of u (debit_user_to_floor u amount k r d now db).1 +ℤ pos taken ≡ balance)
      × (taken ≤ max_zero balance)
      × ((short ≡ 0) ⊎ (taken ≡ max_zero balance))
debit_user_to_floor_lem u amount balance k r d now db known =
    let take = min (max_zero amount) (max_zero balance) in
    let (p, n) = parts_of_eq (floor-balance u amount balance k r d now db known) in
    (
      take,
      max_zero amount - take,
      floor-result u amount balance k r d now db known,
      omega arith,
      omega (int_laws, p, n, parts_apart balance, -ℤ_parts balance (pos take)),
      omega arith,
      omega arith,
    )
