-- ===== src/ControlPlane/Sweeps/Storage.antt =====
-- What the storage charge of a saved pod debits, and what it leaves on its accumulator.
use native.Mathlib.Nat.{div-add-mod}
use greencompute_api.Prelude.{
  ℕ, ◌+◌, ◌-◌, ◌*◌, ◌/◌, String, ◌≡◌, refl, true, Option, none, some, string_eq, eq_iff, arith,
  if-cases, ltb, ltb→not_lt,
}
use greencompute_api.Prelude.Int.{ℤ, pos, ◌+ℤ◌, ◌-ℤ◌, int_laws}
use greencompute_api.Prelude.Dict.{Dict, lookup, lookup-insert}
use greencompute_api.Billing.Schema.{balance_of}
use greencompute_api.Billing.Balance.{debit_user}
use greencompute_api.Billing.Charges.{book-balance}
use greencompute_api.ControlPlane.Deployment.{Deployment, Control, accrue_storage}
use greencompute_api.ControlPlane.Metering.{Metered, World}
use greencompute_api.ControlPlane.Sweeps.{
  Retention, stores, owner_of, debit_storage, store_deployment,
}

-- The storage accumulator of a row; 0 if it is gone.
abbrev pub storage_of : Option Deployment → ℕ
storage_of none = 0
storage_of (some row) = row.storage_remainder_mcents

accrue-storage_of :
    (id : String) (add : ℕ) (c : Control) (row : Deployment)
    → lookup id c.deployments ≡ some row
    → ((accrue_storage id add c).0 ≡ (row.storage_remainder_mcents + add) / 1000)
      × (storage_of (lookup id (accrue_storage id add c).1.deployments)
          ≡ row.storage_remainder_mcents + add - (row.storage_remainder_mcents + add) / 1000 * 1000)
unfolding accrue_storage
accrue-storage_of id add c row e = (
  rw (accrue_storage, e) refl,
  rw (accrue_storage, e) (rw (lookup-insert id id, (eq_iff id id).1 refl) refl),
)

module _ (now : ℕ) (id owner description : String) (cents : ℕ) (w : World) (balance : ℤ)
    (known : lookup owner w.db.users ≡ some balance) where
  debit_storage-cents :
      ((debit_storage now id owner description cents w).0 ≡ cents)
      × ((debit_storage now id owner description cents w).1.control ≡ w.control)
  unfolding debit_storage debit_user
  debit_storage-cents = (rw (debit_storage, debit_user, known) refl, refl)

  debit_storage-balance :
      balance_of owner (debit_storage now id owner description cents w).1.db +ℤ pos cents ≡ balance
  unfolding debit_storage debit_user
  debit_storage-balance =
      let paid =
        book-balance owner balance (pos 0 -ℤ pos cents) "storage" (some id) none description now
          w.db in
      rw (debit_user, known) (less paid)
    where
      less : {b : ℤ} → b ≡ balance +ℤ (pos 0 -ℤ pos cents) → b +ℤ pos cents ≡ balance
      less e = rw e (omega int_laws)

-- Storage is charged exactly, also below 0. When the storage meter bills a saved pod of the table whose
-- owner has an account, a thousand times the cents that it debits and the millicents that it leaves on
-- the pod's storage accumulator add up to the accumulator before and the charge of the cycle, and the
-- owner's balance falls by just those cents, whatever it was.
pub store_deployment-exact :
    (r : Retention) (workloads : Dict String Metered) (description : String) (now : ℕ) (id : String)
    (d row : Deployment) (w : World) (balance : ℤ)
    → stores workloads d ≡ true
    → lookup id w.control.deployments ≡ some row
    → lookup (owner_of d) w.db.users ≡ some balance
    → let (cents, w') = store_deployment r workloads description now id d w in
      (1000 * cents + storage_of (lookup id w'.control.deployments)
        ≡ row.storage_remainder_mcents + r.storage_mcents_per_minute)
      × (balance_of (owner_of d) w'.db +ℤ pos cents ≡ balance)
unfolding store_deployment
store_deployment-exact r workloads description now id d row w balance billed e known =
    let add = r.storage_mcents_per_minute in
    let total = row.storage_remainder_mcents + add in
    let (whole, kept) = accrue-storage_of id add w.control row e in
    let after = record w { control = (accrue_storage id add w.control).1 } in
    let (taken, same) =
      debit_storage-cents now id (owner_of d) description (total / 1000) after balance known in
    let paid =
      debit_storage-balance now id (owner_of d) description (total / 1000) after balance known in
    let Exact : ℕ × World → Type 0 = λ o.
      (1000 * o.0 + storage_of (lookup id o.1.control.deployments) ≡ total)
      × (balance_of (owner_of d) o.1.db +ℤ pos o.0 ≡ balance) in
    rw (billed, whole)
      (if-cases Exact (ltb 0 (total / 1000))
        (λ _. (rw (taken, same, kept) (omega (arith, div-add-mod total 1000)), rw taken paid))
        (λ nothing. (
          rw kept (omega (arith, ltb→not_lt 0 (total / 1000) nothing, div-add-mod total 1000)),
          rw known (omega int_laws),
        )))
