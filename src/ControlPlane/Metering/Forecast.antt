-- ===== src/ControlPlane/Metering/Forecast.antt =====
-- The forecast of hourly_charge_cents and the charges of meter_usage.
use greencompute_api.Prelude.{
  ℕ, ◌-◌, ◌*◌, ◌<◌, String, ◌≡◌, ◌⊎◌, Bool, true, false, not, ◌&&◌, Option, none, some, string_eq,
  nat_eq, min, max,
}
use greencompute_api.Prelude.Dict.{lookup}
use greencompute_api.Prelude.Text.{truthy}
use greencompute_api.ControlPlane.Deployment.{Deployment}
use greencompute_api.ControlPlane.Metering.{
  Metered, Monitor, Decision, skip, stamp, charge, hourly_cents, hour, is_inference_kind,
  is_metered_model, _box_silent, gpus_of,
}
use greencompute_api.ControlPlane.Metering.Rounding.{IsWithinHalf}

-- The time that a cycle bills: since the start of the billing, and at most the cycle; without a start the
-- whole cycle, but never for a private model.
abbrev pub IsBilledTime : Option ℕ → Bool → ℕ → ℕ → ℕ → Type 0
IsBilledTime (some since) private now cycle time = time ≡ min cycle (now - since)
IsBilledTime none true now cycle time = ⊥
IsBilledTime none false now cycle time = time ≡ cycle

-- No owner, or a shared model: nobody to charge by the hour.
abbrev pub HasNoPayer : Monitor → Deployment → Type 0
HasNoPayer m d =
    (truthy d.owner_user_id ≡ false)
    ⊎ (is_inference_kind (lookup d.workload_id m.workloads)
          && not (is_metered_model d.owner_user_id (lookup d.workload_id m.workloads))
        ≡ true)

-- The decision agrees with the forecast of cents an hour, case by case.
pub data Agrees (m : Monitor) (now cycle : ℕ) (d : Deployment) : Decision → Option ℕ → Type 0 where
  unbilled : HasNoPayer m d → Agrees m now cycle d skip none
  silent : _box_silent m now d ≡ true → Agrees m now cycle d skip (some 0)
  starting :
      (cents : ℕ)
      → _box_silent m now d ≡ false
      → is_metered_model d.owner_user_id (lookup d.workload_id m.workloads) ≡ true
      → d.billable_since ≡ none
      → Agrees m now cycle d stamp (some cents)
  charged :
      (owner : String) (private : Bool) (cents add time : ℕ)
      → _box_silent m now d ≡ false
      → d.owner_user_id ≡ some owner
      → is_metered_model d.owner_user_id (lookup d.workload_id m.workloads) ≡ private
      → IsBilledTime d.billable_since private now cycle time
      → IsWithinHalf (cents * 1000 * time) hour add
      → Agrees m now cycle d
          (charge owner private (gpus_of (lookup d.workload_id m.workloads)) add)
          (some cents)

module _ (m : Monitor) (now cycle : ℕ) (d : Deployment)
    (some_gpus : 0 < gpus_of (lookup d.workload_id m.workloads)) where
  abbrev workload : Option Metered
  workload = lookup d.workload_id m.workloads

  abbrev rate : ℕ
  rate = hourly_cents d * gpus_of workload * max d.ready_instances 1
