-- ===== src/ControlPlane/Deployment.antt =====
-- The rows of deployments, lease_assignments, placements and lease_history, and the repository's
-- writes to them that the deployment's life goes through (infrastructure/repository.py).
use greencompute_api.Prelude.{
  ◌+◌, ◌-◌, ◌*◌, ◌/◌, ℕ, String, Bool, Option, none, some, List, [], ◌∷◌, ◌==◌, string_eq,
  if◌then◌else◌,
}
use greencompute_api.Prelude.Dict.{Dict, lookup, insert}
use greencompute_api.ControlPlane.States.{DeploymentState}
use greencompute_api.ControlPlane.Reservations.{Reservations}

-- A deployment, with the metering columns of its row; times are in microseconds, and 0 stands for
-- a missing hourly rate, as the meter reads it.
pub record Deployment : Type 0 where
  pub workload_id : String
  pub owner_user_id : Option String
  pub created_by_key_id : Option String
  pub hotkey : Option String
  pub node_id : Option String
  pub state : DeploymentState
  pub ready_instances : ℕ
  pub endpoint : Option String
  pub ssh_private_key : Option String
  pub port_mappings : List (String × ℕ)
  pub ssh_host_keys : List String
  pub hourly_rate_cents : ℕ
  pub save_on_exhaustion : Bool
  pub suspended_at : Option ℕ
  pub suspended_reason : Option String
  pub ready_at : Option ℕ
  pub max_runtime_minutes : ℕ
  pub warmup_state : String
  pub last_error : Option String
  pub failure_class : Option String
  pub health_check_failures : ℕ
  pub retry_count : ℕ
  pub retry_exhausted : Bool
  pub last_retry_reason : Option String
  pub updated_at : ℕ
  pub metering_remainder_mcents : ℕ
  pub storage_remainder_mcents : ℕ
  pub billable_since : Option ℕ

-- The lease of a deployment; `deployment_id` is unique among them.
pub record Assignment : Type 0 where
  pub hotkey : String
  pub node_id : String
  pub status : String
  pub expires_at : Option ℕ

pub record Placement : Type 0 where
  pub deployment_id : String
  pub status : String
  pub reason : Option String
  pub failure_count : ℕ
  pub cooldown_until : Option ℕ

pub record HistoryEntry : Type 0 where
  pub deployment_id : String
  pub status : String
  pub reason : Option String

-- `placements` and `lease_history` keep the newest row first; `events` are the status reports,
-- `published` the messages handed to the bus, newest first.
pub record Control : Type 0 where
  pub deployments : Dict String Deployment
  pub reservations : Reservations
  pub assignments : Dict String Assignment
  pub placements : List Placement
  pub lease_history : List HistoryEntry
  pub events : List (String × DeploymentState)
  pub published : List (String × String)

-- The newest placement of a deployment takes the status.
unfoldable pub mark_placement : String → String → Option String → List Placement → List Placement
mark_placement d status reason [] = []
mark_placement d status reason (p ∷ ps) =
    if p.deployment_id == d
    then record p { status = status; reason = reason } ∷ ps
    else p ∷ mark_placement d status reason ps

-- `update_assignment_status`; nothing happens to a deployment with no assignment.
unfoldable pub update_assignment_status : String → String → Option String → Control → Control
update_assignment_status d status reason c = elim (lookup d c.assignments) [
  | none ↦ c
  | some a ↦ record c {
    assignments = insert d (record a { status = status }) c.assignments;
    placements = mark_placement d status reason c.placements;
    lease_history =
        record { deployment_id = d; status = status; reason = reason } ∷ c.lease_history;
  }
]

-- `update_placement_status`, on the newest placement of a deployment: `failures` more failures, and a
-- cooldown when one is given.
unfoldable pub update_placement_status :
    String → String → Option String → ℕ → Option ℕ → List Placement → List Placement
update_placement_status d status reason failures cooldown [] = []
update_placement_status d status reason failures cooldown (p ∷ ps) =
    if p.deployment_id == d
    then record p {
      status = status;
      reason = reason;
      failure_count = p.failure_count + failures;
      cooldown_until = later cooldown p.cooldown_until;
    }
      ∷ ps
    else p ∷ update_placement_status d status reason failures cooldown ps
  where
    later : Option ℕ → Option ℕ → Option ℕ
    later none old = old
    later (some t) old = some t

-- `update_deployment`, over the columns of the record: the metering columns of the row stay.
unfoldable pub update_deployment : String → Deployment → Control → Control
update_deployment d row c = record c { deployments = insert d row c.deployments }

-- `accrue_metering`: the whole cents and the row's new remainder.
unfoldable pub accrue_metering : String → ℕ → Control → ℕ × Control
accrue_metering id add c = elim (lookup id c.deployments) [
  | none ↦ (0, c)
  | some row ↦
      let total = row.metering_remainder_mcents + add in
      let whole_cents = total / 1000 in
      (
        whole_cents,
        record c {
          deployments =
              insert id (record row { metering_remainder_mcents = total - whole_cents * 1000 })
                c.deployments;
        },
      )
]

-- `return_metering_mcents`, for more than 0.
unfoldable pub return_metering_mcents : String → ℕ → Control → Control
return_metering_mcents id mcents c = elim (lookup id c.deployments) [
  | none ↦ c
  | some row ↦ record c {
    deployments =
        insert id
          (record row { metering_remainder_mcents = row.metering_remainder_mcents + mcents })
          c.deployments;
  }
]

-- `set_billable_since`
unfoldable pub set_billable_since : String → ℕ → Control → Control
set_billable_since id at c = elim (lookup id c.deployments) [
  | none ↦ c
  | some row ↦ record c {
    deployments = insert id (record row { billable_since = some at }) c.deployments;
  }
]

-- `accrue_storage`: the whole cents and the row's new remainder.
unfoldable pub accrue_storage : String → ℕ → Control → ℕ × Control
accrue_storage id add c = elim (lookup id c.deployments) [
  | none ↦ (0, c)
  | some row ↦
      let total = row.storage_remainder_mcents + add in
      let whole_cents = total / 1000 in
      (
        whole_cents,
        record c {
          deployments =
              insert id (record row { storage_remainder_mcents = total - whole_cents * 1000 })
                c.deployments;
        },
      )
]
