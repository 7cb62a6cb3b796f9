-- ===== src/Billing/Holds/Capacity.antt =====
-- The holds of reserve_inference_hold against the balance.
use greencompute_api.Prelude.{
  ℕ, ◌+◌, ◌*◌, String, ◌≡◌, ◌∙◌, ap, refl, Bool, true, Option, none, some, [], ◌∷◌, ◌==◌, string_eq,
  eq_iff, arith, max, ltb→not_lt, if-cases, Bool-cases, inl, inr,
}
use greencompute_api.Prelude.Int.{ℤ, pos, ◌-ℤ◌, ◌≤ℤ◌, ltb_ℤ, max_zero, int_laws, -ℤ_parts}
use greencompute_api.Prelude.Dict.{
  Dict, lookup, insert, UniqueKeys, UniqueKeys-select, lookup-select-some, IsAbsent,
}
use greencompute_api.Billing.Schema.{second, Hold, Db, Result, ok}
use greencompute_api.Billing.Holds.{
  is_active, is_other_active, total_held, renewed, sweep_stale, reserve_inference_hold,
  active_hold_cents,
}

module _ (u r : String) (now : ℕ) where
  -- Where there is no hold under `r`, leaving it out leaves out nothing.
  total-other :
      (d : Dict String Hold)
      → IsAbsent (lookup r d)
      → total_held (is_active u now) d ≡ total_held (is_other_active u r now) d
  unfolding total_held
  total-other [] a = refl
  total-other ((j, h) ∷ d) a = elim (Bool-cases (r == j)) [
    | inl e ↦ absurd (rw e at a)
    | inr e ↦ ground (arith, eq_iff r j, eq_iff j r, total-other d (rw e at a))
  ]

  -- After a write under `r`, the active total is the new hold and the others.
  total-insert :
      (h : Hold) (d : Dict String Hold)
      → UniqueKeys d
      → is_active u now (r, h) ≡ true
      → total_held (is_active u now) (insert r h d)
        ≡ h.amount_cents + total_held (is_other_active u r now) d
  unfolding total_held
  total-insert h [] k act = ground arith
  total-insert h ((j, g) ∷ d) k act = elim (Bool-cases (r == j)) [
    | inl e ↦ ground (arith, eq_iff r j, eq_iff j r, total-other d (rw ((eq_iff r j).0 e) k.0))
    | inr e ↦ ground (arith, eq_iff r j, eq_iff j r, total-insert h d k.1 act)
  ]

-- The row that a granted request writes is the user's, and counts.
renewed-active :
    (u r : String) (amount now ttl : ℕ) (o : Option Hold)
    → ((h : Hold) → o ≡ some h → h.user_id ≡ u)
    → is_active u now (r, renewed u amount now (now + max 1 ttl * second) o) ≡ true
renewed-active u r amount now ttl none own = ground (arith, eq_iff u u)
renewed-active u r amount now ttl (some h) own = ground (arith, eq_iff h.user_id u, own h refl)

renewed-amount :
    (u : String) (amount now e : ℕ) (o : Option Hold)
    → (renewed u amount now e o).amount_cents ≡ amount
renewed-amount u amount now e none = refl
renewed-amount u amount now e (some h) = refl

-- Where the holds have unique keys, and a hold under the request's id, if there is one, is the
-- user's own: once a reservation of a known user is granted, all the active holds of the user, the
-- new one included, sum to no more than the balance.
pub reserve-within_balance :
    (u r : String) (amount balance : ℤ) (ttl now : ℕ) (db : Db)
    → UniqueKeys db.holds
    → ((h : Hold) → lookup r db.holds ≡ some h → h.user_id ≡ u)
    → lookup u db.users ≡ some balance
    → (reserve_inference_hold u amount r ttl now db).0 ≡ ok true
    → pos (active_hold_cents u now (reserve_inference_hold u amount r ttl now db).1) ≤ℤ balance
unfolding reserve_inference_hold active_hold_cents
reserve-within_balance u r amount balance ttl now db keys own known =
    let holds = sweep_stale u now db.holds in
    let active = total_held (is_other_active u r now) holds in
    let expires = now + max 1 ttl * second in
    let own' : (h : Hold) → lookup r holds ≡ some h → h.user_id ≡ u =
      λ h e. own h (lookup-select-some _ r h db.holds keys e) in
    let row = renewed u (max_zero amount) now expires (lookup r holds) in
    let total : total_held (is_active u now) (insert r row holds) ≡ max_zero amount + active =
      total-insert u r now row holds (UniqueKeys-select _ db.holds keys)
        (renewed-active u r (max_zero amount) now ttl (lookup r holds) own')
      ∙ ap (λ (t : ℕ). t + active)
          (renewed-amount u (max_zero amount) now expires (lookup r holds)) in
    rw (known, reserve_inference_hold)
      (if-cases
        (λ (o : Result Bool × Db).
          o.0 ≡ ok true → pos (total_held (is_active u now) o.1.holds) ≤ℤ balance)
        (ltb_ℤ (balance -ℤ pos active) (pos (max_zero amount))) (λ _ c. absurd (cc))
        (λ enough _.
          rw total (omega (int_laws, ltb→not_lt _ _ enough, -ℤ_parts balance (pos active)))))
