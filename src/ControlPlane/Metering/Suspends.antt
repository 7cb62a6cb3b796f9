-- ===== src/ControlPlane/Metering/Suspends.antt =====
-- When the meter leaves a deployment running: a charge against the owner's balance.
use greencompute_api.Prelude.{
  ℕ, ◌<◌, String, ◌≡◌, refl, ◌⊎◌, inl, inr, Bool, some, string_eq, arith, if-cases, ltb,
}
use greencompute_api.Prelude.Int.{
  ℤ, pos, ◌+ℤ◌, max_zero, int_laws, +ℤ_parts, parts_of_eq, parts_apart,
}
use greencompute_api.Prelude.Dict.{lookup}
use greencompute_api.Billing.Schema.{balance_of}
use greencompute_api.Billing.Balance.{debit_user_to_floor}
use greencompute_api.Billing.Charges.{debit_user_to_floor_lem}
use greencompute_api.ControlPlane.Deployment.{Deployment, Control, accrue_metering}
use greencompute_api.ControlPlane.Metering.{
  Monitor, World, settle, collect, charge_owner, charge, decide, meter_deployment,
}
use greencompute_api.ControlPlane.Metering.Exact.{charges}

nothing_left :
    (balance after : ℤ) (taken short : ℕ)
    → after +ℤ pos taken ≡ balance
    → (short ≡ 0) ⊎ (taken ≡ max_zero balance)
    → 0 < short
    → max_zero after ≡ 0
nothing_left balance after taken short paid (inl e) p = absurd (omega (arith, e, p))
nothing_left balance after taken short paid (inr e) p =
    let (a, b) = parts_of_eq paid in
    omega (int_laws, a, b, e, parts_apart after, parts_apart balance, +ℤ_parts after (pos taken))

-- The deployments are left alone, or nothing is left of the balance.
abbrev IsKept : String → Control → ℕ × World → Type 0
IsKept owner c (debited, w) = (w.control ≡ c) ⊎ (max_zero (balance_of owner w.db) ≡ 0)

collect-IsKept :
    (now : ℕ) (id owner description : String) (cents : ℕ) (w : World) (balance : ℤ)
    → lookup owner w.db.users ≡ some balance
    → IsKept owner w.control (collect now id owner description cents w)
unfolding collect settle
collect-IsKept now id owner description cents w balance known =
    let (taken, short, result, _, paid, _, end) =
      debit_user_to_floor_lem owner (pos cents) balance "usage" (some id) description now w.db
        known in
    let after = (debit_user_to_floor owner (pos cents) "usage" (some id) description now w.db).1 in
    rw result (
      if-cases (λ (o : ℕ × Control). (o.1 ≡ w.control) ⊎ (max_zero (balance_of owner after) ≡ 0))
        (ltb 0 short)
        (λ is_short.
          inr (nothing_left balance (balance_of owner after) taken short paid end (ground arith)))
        (λ _. inl refl))

charge-IsKept :
    (now : ℕ) (id owner description : String) (add : ℕ) (w : World) (balance : ℤ)
    → lookup owner w.db.users ≡ some balance
    → IsKept owner
        (accrue_metering id add w.control).1
        (charge_owner now id owner description add w)
unfolding charge_owner
charge-IsKept now id owner description add w balance known =
    let (whole, c) = accrue_metering id add w.control in
    if-cases (IsKept owner c) (ltb 0 whole)
      (λ _. collect-IsKept now id owner description whole (record w { control = c }) balance known)
      (λ _. inl refl)

-- The meter never stops a deployment while its owner has credits. When it charges a deployment whose
-- owner has an account, either it does nothing to the control plane's state but accrue the charge, or
-- nothing is left of the owner's balance above 0.
pub meter_deployment-kept_or_drained :
    (m : Monitor) (now cycle : ℕ) (id : String) (d : Deployment) (w : World) (balance : ℤ)
    (owner : String) (private : Bool) (gpus add : ℕ)
    → decide m now cycle d ≡ charge owner private gpus add
    → lookup owner w.db.users ≡ some balance
    → ((meter_deployment m now cycle id d w).1.control ≡ (accrue_metering id add w.control).1)
      ⊎ (max_zero (balance_of owner (meter_deployment m now cycle id d w).1.db) ≡ 0)
meter_deployment-kept_or_drained m now cycle id d w balance owner private gpus add decided known =
    rw (charges m now cycle id d w owner private gpus add decided)
      (charge-IsKept now id owner _ add w balance known)
