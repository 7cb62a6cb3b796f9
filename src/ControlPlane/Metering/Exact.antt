-- ===== src/ControlPlane/Metering/Exact.antt =====
-- What a charge of meter_usage debits, and what it leaves on the accumulator.
use greencompute_api.Prelude.{
  ℕ, ◌+◌, ◌-◌, ◌*◌, ◌/◌, String, ◌≡◌, refl, Bool, some, string_eq, eq_iff, arith, if-cases, ltb,
  ltb→not_lt, ltb,
}
use native.Mathlib.Nat.{div-add-mod}
use greencompute_api.Prelude.Int.{ℤ, pos, negsuc, ◌+ℤ◌}
use greencompute_api.Prelude.Dict.{lookup, lookup-insert}
use greencompute_api.Billing.Schema.{ok, balance_of}
use greencompute_api.Billing.Balance.{Drained}
use greencompute_api.Billing.Charges.{debit_user_to_floor_lem}
use greencompute_api.ControlPlane.Deployment.{
  accrue_metering, return_metering_mcents, Deployment, Control,
}
use greencompute_api.ControlPlane.Lifecycle.Updates.{remainder_of, update-remainder}
use greencompute_api.ControlPlane.Metering.{
  Monitor, World, hourly_cents, settle, collect, suspension, charge_owner, charge, decide,
  meter_deployment,
}

accrued : ℕ → Deployment → Deployment
accrued add row =
    let total = row.metering_remainder_mcents + add in
    record row { metering_remainder_mcents = total - total / 1000 * 1000 }

accrue-row :
    (id : String) (add : ℕ) (c : Control) (row : Deployment)
    → lookup id c.deployments ≡ some row
    → ((accrue_metering id add c).0 ≡ (row.metering_remainder_mcents + add) / 1000)
      × (lookup id (accrue_metering id add c).1.deployments ≡ some (accrued add row))
unfolding accrue_metering accrued
accrue-row id add c row e = (
  rw (accrue_metering, e),
  rw (accrue_metering, e)
      (rw (lookup-insert id id (accrued add row) c.deployments, (eq_iff id id).1 refl)),
)

return-row :
    (id : String) (mcents : ℕ) (c : Control) (row : Deployment)
    → lookup id c.deployments ≡ some row
    → lookup id (return_metering_mcents id mcents c).deployments
      ≡ some (record row { metering_remainder_mcents = row.metering_remainder_mcents + mcents })
unfolding return_metering_mcents
return-row id mcents c row e =
    rw (return_metering_mcents, e) (rw (lookup-insert id id, (eq_iff id id).1 refl))

settle-exact :
    (id : String) (now : ℕ) (d : Drained) (c : Control) (row : Deployment)
    → lookup id c.deployments ≡ some row
    → ((settle id now (ok d) c).0 ≡ d.debited_cents)
      × (remainder_of (lookup id (settle id now (ok d) c).1.deployments)
          ≡ row.metering_remainder_mcents + d.shortfall_cents * 1000)
unfolding settle
settle-exact id now d c row e =
    if-cases
      (λ (o : ℕ × Control).
        (o.0 ≡ d.debited_cents)
        × (remainder_of (lookup id o.1.deployments)
            ≡ row.metering_remainder_mcents + d.shortfall_cents * 1000))
      (ltb 0 d.shortfall_cents)
      (λ _. (
        refl,
        rw (
          update-remainder (suspension id now) now
              (return_metering_mcents id (d.shortfall_cents * 1000) c) id,
          return-row id (d.shortfall_cents * 1000) c row e,
        ),
      ))
      (λ nothing. (refl, rw e (ground arith)))

-- The millicents of a charge, and the owner's cents.
abbrev IsExact : String → String → ℕ → Deployment → ℤ → ℕ × World → Type 0
IsExact id owner add row balance (debited, w) =
    (1000 * debited + remainder_of (lookup id w.control.deployments)
      ≡ row.metering_remainder_mcents + add)
    × (balance_of owner w.db +ℤ pos debited ≡ balance)

collect-IsExact :
    (now : ℕ) (id owner description : String) (cents : ℕ) (w : World) (row : Deployment)
    (balance : ℤ)
    → lookup id w.control.deployments ≡ some row
    → lookup owner w.db.users ≡ some balance
    → IsExact id owner (1000 * cents) row balance (collect now id owner description cents w)
unfolding collect
collect-IsExact now id owner description cents w row balance e known =
    let (taken, short, result, total, paid, _, _) =
      debit_user_to_floor_lem owner (pos cents) balance "usage" (some id) description now w.db
        known in
    let (debited, carried) =
      settle-exact id now (record { debited_cents = taken; shortfall_cents = short }) w.control row
        e in
    rw result (rw (debited, carried) (omega (arith, total)), rw debited paid)

plus_nothing : (b : ℤ) → b +ℤ pos 0 ≡ b
unfolding ◌+ℤ◌
plus_nothing (pos n) = ground arith
plus_nothing (negsuc n) = ground arith

charge-IsExact :
    (now : ℕ) (id owner description : String) (add : ℕ) (w : World) (row : Deployment) (balance : ℤ)
    → lookup id w.control.deployments ≡ some row
    → lookup owner w.db.users ≡ some balance
    → IsExact id owner add row balance (charge_owner now id owner description add w)
unfolding charge_owner accrued
charge-IsExact now id owner description add w row balance e known =
    let (whole, kept) = accrue-row id add w.control row e in
    let total = row.metering_remainder_mcents + add in
    let after = record w { control = (accrue_metering id add w.control).1 } in
    let (exact, paid) =
      collect-IsExact now id owner description (total / 1000) after (accrued add row) balance kept
        known in
    rw whole (
      if-cases (IsExact id owner add row balance) (ltb 0 (total / 1000))
        (λ _. (omega (arith, exact, div-add-mod total 1000), paid))
        (λ nothing. (
          rw kept (omega (arith, ltb→not_lt 0 (total / 1000) nothing, div-add-mod total 1000)),
          rw known (plus_nothing balance),
        )))

pub charges :
    (m : Monitor) (now cycle : ℕ) (id : String) (d : Deployment) (w : World) (owner : String)
    (private : Bool) (gpus add : ℕ)
    → decide m now cycle d ≡ charge owner private gpus add
    → meter_deployment m now cycle id d w
      ≡ charge_owner now id owner (m.describe private gpus (hourly_cents d)) add w
unfolding meter_deployment
charges m now cycle id d w owner private gpus add decided = rw (meter_deployment, decided)

-- Billing is exact. When the meter charges a deployment of the table whose owner has an account, a
-- thousand times the cents that it debits and the millicents that it leaves on the accumulator add
-- up to the accumulator before and the charge of the cycle, and the owner's balance falls by just
-- the cents debited: an amount that the balance does not cover is carried back whole, also when the
-- deployment is suspended for it.
pub meter_deployment-exact :
    (m : Monitor) (now cycle : ℕ) (id : String) (d row : Deployment) (w : World) (balance : ℤ)
    (owner : String) (private : Bool) (gpus add : ℕ)
    → decide m now cycle d ≡ charge owner private gpus add
    → lookup id w.control.deployments ≡ some row
    → lookup owner w.db.users ≡ some balance
    → let (debited, w') = meter_deployment m now cycle id d w in
      (1000 * debited + remainder_of (lookup id w'.control.deployments)
        ≡ row.metering_remainder_mcents + add)
      × (balance_of owner w'.db +ℤ pos debited ≡ balance)
meter_deployment-exact m now cycle id d row w balance owner private gpus add decided e known =
    rw (charges m now cycle id d w owner private gpus add decided)
      (charge-IsExact now id owner _ add w row balance e known)
