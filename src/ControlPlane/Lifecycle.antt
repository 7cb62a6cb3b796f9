-- ===== src/ControlPlane/Lifecycle.antt =====
-- application/services.py: update_deployment_status, with _classify_deployment_failure. Metrics, log
-- lines and the notification of operators are left out.
pub mod Commits
pub mod Updates
use greencompute_api.Prelude.{
  ℕ, String, Bool, true, false, not, ◌&&◌, ◌||◌, Option, none, some, List, [], ◌∷◌, ◌==◌, string_eq,
  if◌then◌else◌, is_none, is_some,
}
use greencompute_api.Prelude.Dict.{Dict, lookup, insert}
use greencompute_api.Prelude.Text.{codes, truthy, lower, mentions}
use greencompute_api.ControlPlane.States.{
  DeploymentState, pending, scheduled, pulling, starting, ready, draining, suspended, failed,
  terminated, same_state, transition_state,
}
use greencompute_api.ControlPlane.Reservations.{release_gpu_reservation}
use greencompute_api.ControlPlane.Deployment.{
  Deployment, Assignment, Control, update_assignment_status, update_deployment,
}

-- A miner's or the control plane's report.
pub record StatusUpdate : Type 0 where
  pub deployment_id : String
  pub state : DeploymentState
  pub ready_instances : ℕ
  pub endpoint : Option String
  pub ssh_private_key : Option String
  pub port_mappings : Option (List (String × ℕ))
  pub ssh_host_keys : Option (List String)
  pub error : Option String
  pub suspended_reason : Option String
  pub observed_at : ℕ

abbrev pub is_state : DeploymentState → DeploymentState → Bool
is_state = same_state

abbrev pub text_or : {A : Type 0} → A → Option A → A
text_or d none = d
text_or d (some a) = a

-- `a or b`, of texts.
abbrev pub or_text : Option String → Option String → Option String
or_text a b = if truthy a then a else b

-- The first part of the message that names a class.
classify_message : List ℕ → Option String → Option String
classify_message message existing =
    if mentions "machine lost" message || mentions "machine_loss" message
    then some "machine_loss"
    else if mentions "lease" message
    then some "lease_loss"
    else if mentions "capacity" message || mentions "scheduler" message
    then some "scheduler_failure"
    else if mentions "health" message
    then some "health_check_failure"
    else if mentions "heartbeat" message || mentions "miner" message
    then some "miner_failure"
    else if mentions "upstream" message || mentions "timeout" message
    then some "upstream_failure"
    else or_text existing (some "deployment_failure")

-- `_classify_deployment_failure`
unfoldable pub _classify_deployment_failure :
    Option String → DeploymentState → Option String → Option String
unfolding classify_message
_classify_deployment_failure error ready existing = none
_classify_deployment_failure error failed existing =
    classify_message (lower (codes (text_or "" error))) existing
_classify_deployment_failure error terminated existing =
    classify_message (lower (codes (text_or "" error))) existing
_classify_deployment_failure error state existing = existing

abbrev pub is_terminal : DeploymentState → Bool
is_terminal failed = true
is_terminal terminated = true
is_terminal _ = false

-- The states whose report gives the GPUs back.
abbrev pub frees_gpus : DeploymentState → Bool
frees_gpus suspended = true
frees_gpus failed = true
frees_gpus terminated = true
frees_gpus _ = false

-- Once READY, or back among the live states.
abbrev pub is_live : DeploymentState → Bool
is_live pulling = true
is_live starting = true
is_live ready = true
is_live _ = false

abbrev pub warmup : DeploymentState → String → String
warmup ready old = "ready"
warmup pulling old = "warming"
warmup starting old = "warming"
warmup failed old = "stopped"
warmup terminated old = "stopped"
warmup _ old = old

abbrev pub suspend_clock : DeploymentState → ℕ → Option ℕ → Option ℕ
suspend_clock s now old =
    if is_state suspended s then some (text_or now old) else if is_live s then none else old

abbrev pub suspend_reason : DeploymentState → Option String → Option String → Option String
suspend_reason s reason old =
    if is_state suspended s then or_text reason old else if is_live s then none else old

-- The record that a report makes of a live deployment, `state` being what transition_state gave.
unfoldable pub reported : StatusUpdate → DeploymentState → ℕ → Deployment → Deployment
reported u state now d =
    let is_ready = is_state ready u.state in
    record d {
      state = state;
      ready_instances = if is_ready then u.ready_instances else 0;
      endpoint = or_text u.endpoint d.endpoint;
      ssh_private_key = or_text u.ssh_private_key d.ssh_private_key;
      port_mappings = text_or d.port_mappings u.port_mappings;
      ssh_host_keys = text_or d.ssh_host_keys u.ssh_host_keys;
      last_error =
          if is_state suspended u.state && is_none u.error && truthy d.last_error
          then d.last_error
          else u.error;
      failure_class = _classify_deployment_failure u.error u.state d.failure_class;
      health_check_failures = if is_ready then 0 else d.health_check_failures;
      retry_exhausted = if is_ready then false else d.retry_exhausted;
      warmup_state = warmup u.state d.warmup_state;
      ready_at = if is_ready then some (text_or now d.ready_at) else d.ready_at;
      updated_at = u.observed_at;
      suspended_at = suspend_clock u.state u.observed_at d.suspended_at;
      suspended_reason = suspend_reason u.state u.suspended_reason d.suspended_reason;
      billable_since =
          if is_ready && not (is_state ready d.state) then some now else d.billable_since;
    }

abbrev pub assignment_status : DeploymentState → Option String
assignment_status pulling = some "activating"
assignment_status starting = some "activating"
assignment_status ready = some "active"
assignment_status suspended = some "suspended"
assignment_status failed = some "failed"
assignment_status terminated = some "terminated"
assignment_status _ = none

abbrev pub subject_of : DeploymentState → String
subject_of ready = "deployment.ready"
subject_of suspended = "deployment.suspended"
subject_of failed = "deployment.failed"
subject_of terminated = "deployment.terminated"
subject_of _ = "deployment.status.updated"

unfoldable pub mark_assignment : String → Option String → Option String → Control → Control
mark_assignment d none reason c = c
mark_assignment d (some status) reason c = update_assignment_status d status reason c

-- The writes of an accepted report, in the source's order.
unfoldable pub commit_status : StatusUpdate → Deployment → ℕ → Control → Control
commit_status u row now c =
    let noted = record c { events = (u.deployment_id, u.state) ∷ c.events } in
    let marked = mark_assignment u.deployment_id (assignment_status u.state) u.error noted in
    let freed =
      if frees_gpus u.state
      then record marked {
        reservations = (release_gpu_reservation u.deployment_id now marked.reservations).1;
      }
      else marked in
    let saved = update_deployment u.deployment_id row freed in
    record saved { published = (subject_of u.state, u.deployment_id) ∷ saved.published }

pub data StatusError : Type 0 where
  not_found invalid_transition : StatusError

pub data Updated : Type 0 where
  updated : Deployment → Updated
  refused : StatusError → Updated

-- `update_deployment_status` at the time `now`.
unfoldable pub update_deployment_status : StatusUpdate → ℕ → Control → Updated × Control
update_deployment_status u now c = elim (lookup u.deployment_id c.deployments) [
  | none ↦ (refused not_found, c)
  | some d ↦
      if is_terminal d.state then (updated d, c) else elim (transition_state d.state u.state) [
        | none ↦ (refused invalid_transition, c)
        | some state ↦
            (updated (reported u state now d), commit_status u (reported u state now d) now c)
      ]
]
