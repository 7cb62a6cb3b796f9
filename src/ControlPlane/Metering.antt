-- ===== src/ControlPlane/Metering.antt =====
-- The hourly meter: application/services.py meter_usage and hourly_charge_cents with the accumulator
-- of infrastructure/repository.py and the rules of domain/metering.py.
pub mod Rounding
pub mod Exact
pub mod Suspends
pub mod Forecast
use greencompute_api.Prelude.{
  ℕ, ◌+◌, ◌-◌, ◌*◌, ◌/◌, String, Bool, true, false, not, ◌&&◌, ◌||◌, Option, none, some, List, [],
  ◌∷◌, ◌==◌, select, string_eq, nat_eq, if◌then◌else◌, ltb, min, max, find,
}
use greencompute_api.Prelude.Int.{pos}
use greencompute_api.Prelude.Dict.{Dict, lookup, insert}
use greencompute_api.Prelude.Text.{truthy, codes, is_prefix_of}
use greencompute_api.Billing.Schema.{Db, Result, ok, raised}
use greencompute_api.Billing.Balance.{Drained, debit_user_to_floor}
use greencompute_api.ControlPlane.States.{DeploymentState, ready, suspended, same_state}
use greencompute_api.ControlPlane.Deployment.{
  Deployment, Control, accrue_metering, return_metering_mcents, set_billable_since,
}
use greencompute_api.ControlPlane.Lifecycle.{StatusUpdate, update_deployment_status}
use greencompute_api.ControlPlane.Metering.Rounding.{round_half_even}

abbrev pub hour : ℕ
hour = 3600000000

abbrev pub minute : ℕ
minute = 60000000

-- The columns of a workload that the meter reads.
pub record Metered : Type 0 where
  pub workload_id : String
  pub is_inference : Bool
  pub managed_by : Option String
  pub gpu_count : ℕ

-- What the meter looks up of the fleet, the settings' timeouts (in microseconds), and the texts
-- of the ledger rows.
pub record Monitor : Type 0 where
  pub workloads : Dict String Metered
  pub heartbeats : Dict String (Option ℕ)
  pub node_seen : Dict String (Option ℕ)
  pub heartbeat_timeout : ℕ
  pub inventory_timeout : ℕ
  pub describe : Bool → ℕ → ℕ → String

-- The two databases that a metering cycle writes.
pub record World : Type 0 where
  pub control : Control
  pub db : Db

abbrev pub is_text : String → Option String → Bool
is_text s none = false
is_text s (some t) = s == t

-- `is_catalog_workload`
unfoldable pub is_catalog_workload : Metered → Bool
is_catalog_workload w = is_text "flux" w.managed_by || is_prefix_of "catalog-" w.workload_id

-- `is_private_model`
unfoldable pub is_private_model : Option String → Metered → Bool
is_private_model owner w = truthy owner && w.is_inference && not (is_catalog_workload w)

-- Older than a timeout: a time ahead of `now` is not.
abbrev pub older : ℕ → ℕ → ℕ → Bool
older timeout now seen = ltb timeout (now - seen)

abbrev pub node_stale : ℕ → ℕ → Option (Option ℕ) → Bool
node_stale timeout now (some (some seen)) = older timeout now seen
node_stale timeout now _ = false

abbrev pub node_silent : Monitor → ℕ → Option String → Bool
node_silent m now none = false
node_silent m now (some id) =
    not (id == "") && node_stale m.inventory_timeout now (lookup id m.node_seen)

abbrev pub beat_silent : Monitor → ℕ → Option String → Option (Option ℕ) → Bool
beat_silent m now id (some (some seen)) = older m.heartbeat_timeout now seen || node_silent m now id
beat_silent m now id _ = true

-- `_box_silent`
unfoldable pub _box_silent : Monitor → ℕ → Deployment → Bool
_box_silent m now d = elim d.hotkey [
  | none ↦ false
  | some hotkey ↦
      if hotkey == "" then false else beat_silent m now d.node_id (lookup hotkey m.heartbeats)
]

-- `cycle_seconds`, in microseconds: at most an hour, and a minute when nothing was measured.
abbrev pub cycle_time : Option ℕ → ℕ
cycle_time none = minute
cycle_time (some elapsed) = min elapsed hour

abbrev pub is_metered_model : Option String → Option Metered → Bool
is_metered_model owner none = false
is_metered_model owner (some w) = is_private_model owner w

abbrev pub is_inference_kind : Option Metered → Bool
is_inference_kind none = false
is_inference_kind (some w) = w.is_inference

abbrev pub gpus_of : Option Metered → ℕ
gpus_of none = 1
gpus_of (some w) = w.gpu_count

-- `deployment.hourly_rate_cents or 10`
abbrev pub hourly_cents : Deployment → ℕ
hourly_cents d = if d.hourly_rate_cents == 0 then 10 else d.hourly_rate_cents

-- The millicents of a rate in cents per GPU and hour, over a time.
unfoldable pub mcents_of : Deployment → ℕ → ℕ → ℕ
mcents_of d gpus time =
    round_half_even (hourly_cents d * 1000 * gpus * max d.ready_instances 1 * time) hour

-- What a cycle does with a deployment: nothing, a stamp of where its billing starts, or a charge
-- to its owner.
pub data Decision : Type 0 where
  skip stamp : Decision
  charge : String → Bool → ℕ → ℕ → Decision

abbrev pub bill : String → Bool → Option Metered → Deployment → ℕ → Decision
bill owner private w d time = charge owner private (gpus_of w) (mcents_of d (gpus_of w) time)

-- The tests of the loop, in its order.
unfoldable pub decide : Monitor → ℕ → ℕ → Deployment → Decision
decide m now cycle d = elim d.owner_user_id [
  | none ↦ skip
  | some owner ↦
      let w = lookup d.workload_id m.workloads in
      let private = is_metered_model (some owner) w in
      if owner == ""
      then skip
      else if is_inference_kind w && not private
      then skip
      else if _box_silent m now d
      then skip
      else elim d.billable_since [
        | none ↦ if private then stamp else bill owner private w d cycle
        | some since ↦ bill owner private w d (min cycle (now - since))
      ]
]

-- The report by which the meter stops a deployment whose owner has run out of credits.
abbrev pub suspension : String → ℕ → StatusUpdate
suspension id now = record {
  deployment_id = id;
  state = suspended;
  ready_instances = 0;
  endpoint = none;
  ssh_private_key = none;
  port_mappings = none;
  ssh_host_keys = none;
  error = some "Insufficient balance — top up your credits to resume";
  suspended_reason = some "balance";
  observed_at = now;
}

-- After the debit: the cents that the cycle reports, and a shortfall carried back before the
-- deployment is suspended.
unfoldable pub settle : String → ℕ → Result Drained → Control → ℕ × Control
settle id now (raised e) c = (0, c)
settle id now (ok d) c =
    if ltb 0 d.shortfall_cents
    then (
      d.debited_cents,
      (update_deployment_status (suspension id now) now
          (return_metering_mcents id (d.shortfall_cents * 1000) c)).1,
    )
    else (d.debited_cents, c)

-- The debit of the whole cents, down to the floor, and what follows from it.
unfoldable pub collect : ℕ → String → String → String → ℕ → World → ℕ × World
collect now id owner description cents w =
    let (result, db) =
      debit_user_to_floor owner (pos cents) "usage" (some id) description now w.db in
    let (debited, c) = settle id now result w.control in (debited, record { control = c; db = db })

-- One charge: nothing is debited before a whole cent has accrued.
unfoldable pub charge_owner : ℕ → String → String → String → ℕ → World → ℕ × World
charge_owner now id owner description add w =
    let (whole_cents, c) = accrue_metering id add w.control in
    if ltb 0 whole_cents
    then collect now id owner description whole_cents (record w { control = c })
    else (0, record w { control = c })

-- One deployment of the READY list in a cycle.
unfoldable pub meter_deployment : Monitor → ℕ → ℕ → String → Deployment → World → ℕ × World
meter_deployment m now cycle id d w = elim (decide m now cycle d) [
  | skip ↦ (0, w)
  | stamp ↦ (0, record w { control = set_billable_since id now w.control })
  | charge owner private gpus add ↦
      charge_owner now id owner (m.describe private gpus (hourly_cents d)) add w
]

-- The loop of meter_usage over the list read at its start: the cents debited, per deployment that
-- paid something.
unfoldable pub meter_all :
    Monitor → ℕ → ℕ → List (String × Deployment) → World → List (String × ℕ) × World
meter_all m now cycle [] w = ([], w)
meter_all m now cycle ((id, d) ∷ ds) w =
    let (debited, w') = meter_deployment m now cycle id d w in
    let (rest, w'') = meter_all m now cycle ds w' in
    (if ltb 0 debited then (id, debited) ∷ rest else rest, w'')

abbrev pub is_ready_row : String × Deployment → Bool
is_ready_row (id, d) = same_state ready d.state

-- `meter_usage`
unfoldable pub meter_usage : Monitor → Option ℕ → ℕ → World → List (String × ℕ) × World
meter_usage m elapsed now w =
    meter_all m now (cycle_time elapsed) (select is_ready_row w.control.deployments) w

-- `hourly_charge_cents`
unfoldable pub hourly_charge_cents : Monitor → ℕ → Deployment → Option ℕ
hourly_charge_cents m now d = elim d.owner_user_id [
  | none ↦ none
  | some owner ↦
      let w = lookup d.workload_id m.workloads in
      if owner == ""
      then none
      else if is_inference_kind w && not (is_metered_model (some owner) w)
      then none
      else if _box_silent m now d
      then some 0
      else some
          (hourly_cents d * (if gpus_of w == 0 then 1 else gpus_of w) * max d.ready_instances 1)
]
