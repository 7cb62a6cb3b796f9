-- ===== src/ControlPlane/Sweeps.antt =====
-- application/services.py: the sweeps that stop deployments (reap_exhausted_pods,
-- stop_rentals_over_key_limits, stop_expired_runtimes), suspension_terms, and the storage charge of
-- saved pods (meter_pod_storage). A sweep reads the clock once.
pub mod Fates
pub mod Stops
pub mod Storage
use greencompute_api.Prelude.{
  ℕ, ◌+◌, ◌*◌, String, Bool, true, false, not, ◌&&◌, ◌||◌, Option, none, some, List, [], ◌∷◌, ◌==◌,
  string_eq, nat_eq, select, if◌then◌else◌, ltb, leb, is_some,
}
use greencompute_api.Prelude.Int.{pos}
use greencompute_api.Prelude.Dict.{Dict, lookup}
use greencompute_api.Prelude.Text.{truthy}
use greencompute_api.Billing.Schema.{LedgerEntry, Result, ok, raised}
use greencompute_api.Billing.Balance.{debit_user}
use greencompute_api.ControlPlane.States.{DeploymentState, ready, suspended, terminated, same_state}
use greencompute_api.ControlPlane.Deployment.{Deployment, Control, accrue_storage}
use greencompute_api.ControlPlane.Lifecycle.{
  StatusUpdate, Updated, updated, refused, update_deployment_status,
}
use greencompute_api.ControlPlane.Metering.{Metered, World}
use greencompute_api.ControlPlane.KeyLimits.{Invocations, key_spend_cents}

abbrev pub day : ℕ
day = 86400000000

abbrev minute : ℕ
minute = 60000000

-- The settings of saved pods, and STORAGE_CENTS_PER_DAY and storage_mcents_per_minute() of the
-- protocol's billing rates.
pub record Retention : Type 0 where
  pub pod_storage_billing_enabled : Bool
  pub pod_exhaustion_reaper_enabled : Bool
  pub pod_saved_retention_days : ℕ
  pub pod_unsaved_grace_minutes : ℕ
  pub storage_cents_per_day : ℕ
  pub storage_mcents_per_minute : ℕ

abbrev pub is_rental_workload : Option Metered → Bool
is_rental_workload none = false
is_rental_workload (some w) = not w.is_inference

-- `_is_rental`, with the workload looked up.
abbrev pub _is_rental : Dict String Metered → Deployment → Bool
_is_rental workloads d = is_rental_workload (lookup d.workload_id workloads)

-- The report by which a sweep stops a deployment.
abbrev pub termination : String → String → ℕ → StatusUpdate
termination id reason now = record {
  deployment_id = id;
  state = terminated;
  ready_instances = 0;
  endpoint = none;
  ssh_private_key = none;
  port_mappings = none;
  ssh_host_keys = none;
  error = some reason;
  suspended_reason = none;
  observed_at = now;
}

abbrev pub note_stopped : Updated → String → List String → List String
note_stopped (updated d) id stopped = id ∷ stopped
note_stopped (refused e) id stopped = stopped

-- The loop that the three sweeps share: every row of the list that passes the test is reported
-- TERMINATED; a refused report is logged and passed over.
unfoldable pub stop_all :
    (Deployment → Bool)
    → (Deployment → String)
    → ℕ
    → List (String × Deployment)
    → Control
    → List String × Control
stop_all test reason now [] c = ([], c)
stop_all test reason now ((id, d) ∷ ds) c =
    let (outcome, c') = update_deployment_status (termination id (reason d) now) now c in
    let (stopped, c'') = stop_all test reason now ds c' in
    let passed = stop_all test reason now ds c in
    if test d then (note_stopped outcome id stopped, c'') else passed

-- `list_deployments_by_state`
abbrev pub in_state : DeploymentState → String × Deployment → Bool
in_state s (id, d) = same_state s d.state

unfoldable pub list_deployments_by_state : DeploymentState → Control → List (String × Deployment)
list_deployments_by_state s c = select (in_state s) c.deployments

-- How long a suspended pod is kept.
abbrev pub keep_for : Retention → Deployment → ℕ
keep_for r d =
    if d.save_on_exhaustion
    then r.pod_saved_retention_days * day
    else r.pod_unsaved_grace_minutes * minute

abbrev pub is_past : ℕ → ℕ → Option ℕ → Bool
is_past now time none = false
is_past now time (some since) = leb (since + time) now

-- The tests of the reaper's loop.
abbrev pub is_past_retention : Retention → Dict String Metered → ℕ → Deployment → Bool
is_past_retention r workloads now d =
    is_some d.suspended_at && _is_rental workloads d && is_past now (keep_for r d) d.suspended_at

-- `reap_exhausted_pods`
unfoldable pub reap_exhausted_pods :
    Retention → Dict String Metered → (Deployment → String) → ℕ → Control → List String × Control
reap_exhausted_pods r workloads reason now c =
    if not r.pod_exhaustion_reaper_enabled
    then ([], c)
    else stop_all (is_past_retention r workloads now) reason now
        (list_deployments_by_state suspended c) c

abbrev pub deletes_at : Retention → Deployment → ℕ → Option ℕ
deletes_at r d since = if r.pod_exhaustion_reaper_enabled then some (since + keep_for r d) else none

-- `suspension_terms`: the cents per day, and when the pod is deleted.
unfoldable pub suspension_terms : Retention → Dict String Metered → Deployment → ℕ × Option ℕ
suspension_terms r workloads d = elim d.suspended_at [
  | none ↦ (0, none)
  | some since ↦
      if not (same_state suspended d.state) || not (_is_rental workloads d) then (0, none) else (
        if d.save_on_exhaustion && r.pod_storage_billing_enabled
            then r.storage_cents_per_day
            else 0,
        deletes_at r d since,
      )
]

-- The tests of stop_expired_runtimes.
abbrev pub is_expired : ℕ → Deployment → Bool
is_expired now d =
    not (d.max_runtime_minutes == 0) && is_past now (d.max_runtime_minutes * minute) d.ready_at

-- `stop_expired_runtimes`
unfoldable pub stop_expired_runtimes : (Deployment → String) → ℕ → Control → List String × Control
stop_expired_runtimes reason now c =
    stop_all (is_expired now) reason now (list_deployments_by_state ready c) c

abbrev pub reaches : Option ℕ → ℕ → Bool
reaches none spent = false
reaches (some limit) spent = leb limit spent

abbrev pub limit_of : Dict String ℕ → Option String → Option ℕ
limit_of limits none = none
limit_of limits (some key) = lookup key limits

abbrev pub key_or_empty : Option String → String
key_or_empty none = ""
key_or_empty (some k) = k

-- A deployment of a key that has spent its limit. The sweep asks for a key's spend once and keeps it;
-- its reports write nothing that the spend is made of.
unfoldable pub is_over_limit :
    Dict String ℕ → List LedgerEntry → Invocations → ℕ → Control → Deployment → Bool
is_over_limit limits ledger invocations since c d =
    reaches (limit_of limits d.created_by_key_id)
      (key_spend_cents ledger c.deployments invocations (key_or_empty d.created_by_key_id) since)

-- `stop_rentals_over_key_limits`, with the limits of the keys and the start of the window.
unfoldable pub stop_rentals_over_key_limits :
    Dict String ℕ
    → List LedgerEntry
    → Invocations
    → ℕ
    → (Deployment → String)
    → ℕ
    → Control
    → List String × Control
stop_rentals_over_key_limits limits ledger invocations since reason now c =
    stop_all (is_over_limit limits ledger invocations since c) reason now
      (list_deployments_by_state ready c) c

-- The tests of the storage meter's loop.
abbrev pub stores : Dict String Metered → Deployment → Bool
stores workloads d =
    truthy d.owner_user_id
    && d.save_on_exhaustion
    && is_some d.suspended_at
    && _is_rental workloads d

abbrev pub owner_of : Deployment → String
owner_of d = key_or_empty d.owner_user_id

abbrev pub collected : {A : Type 0} → ℕ → Result A → ℕ
collected cents (ok balance) = cents
collected cents (raised e) = 0

-- The debit of the whole cents, below 0 if it must be; a KeyError is passed over.
unfoldable pub debit_storage : ℕ → String → String → String → ℕ → World → ℕ × World
debit_storage now id owner description cents w =
    let (result, db) = debit_user owner (pos cents) "storage" (some id) description true now w.db in
    (collected cents result, record w { db = db })

-- One saved pod in a cycle.
unfoldable pub store_deployment :
    Retention → Dict String Metered → String → ℕ → String → Deployment → World → ℕ × World
store_deployment r workloads description now id d w =
    if stores workloads d
    then (let (cents, c) = accrue_storage id r.storage_mcents_per_minute w.control in
        if ltb 0 cents
        then debit_storage now id (owner_of d) description cents (record w { control = c })
        else (0, record w { control = c }))
    else (0, w)

unfoldable pub store_all :
    Retention
    → Dict String Metered
    → String
    → ℕ
    → List (String × Deployment)
    → World
    → List (String × ℕ) × World
store_all r workloads description now [] w = ([], w)
store_all r workloads description now ((id, d) ∷ ds) w =
    let (cents, w') = store_deployment r workloads description now id d w in
    let (rest, w'') = store_all r workloads description now ds w' in
    (if ltb 0 cents then (id, cents) ∷ rest else rest, w'')

-- `meter_pod_storage`
unfoldable pub meter_pod_storage :
    Retention → Dict String Metered → String → ℕ → World → List (String × ℕ) × World
meter_pod_storage r workloads description now w =
    if not r.pod_storage_billing_enabled
    then ([], w)
    else store_all r workloads description now (list_deployments_by_state suspended w.control) w
