-- ===== src/ControlPlane/Health.antt =====
-- application/services.py: the health checks' record_deployment_health_failure and
-- clear_deployment_health_failures. Metrics are left out.
use greencompute_api.Prelude.{
  ℕ, ◌+◌, String, Bool, true, false, not, ◌&&◌, Option, none, some, ◌==◌, string_eq, nat_eq,
  if◌then◌else◌, leb,
}
use greencompute_api.Prelude.Dict.{lookup}
use greencompute_api.ControlPlane.States.{failed}
use greencompute_api.ControlPlane.Deployment.{Deployment, Control, update_deployment}
use greencompute_api.ControlPlane.Lifecycle.{
  StatusUpdate, Updated, updated, refused, not_found, update_deployment_status,
}

-- A report of FAILED by the control plane itself.
abbrev pub failure : String → String → ℕ → StatusUpdate
failure id reason now = record {
  deployment_id = id;
  state = failed;
  ready_instances = 0;
  endpoint = none;
  ssh_private_key = none;
  port_mappings = none;
  ssh_host_keys = none;
  error = some reason;
  suspended_reason = none;
  observed_at = now;
}

-- The counters of a failed health check.
abbrev pub unhealthy : String → ℕ → Deployment → Deployment
unhealthy error now d = record d {
  health_check_failures = d.health_check_failures + 1;
  last_error = some error;
  failure_class = some "health_check_failure";
  updated_at = now;
}

-- `record_deployment_health_failure`, with deployment_health_failure_threshold.
unfoldable pub record_deployment_health_failure :
    ℕ → String → String → ℕ → Control → Updated × Control
record_deployment_health_failure threshold id error now c = elim (lookup id c.deployments) [
  | none ↦ (refused not_found, c)
  | some d ↦
      let row = unhealthy error now d in
      let saved = update_deployment id row c in
      if leb threshold row.health_check_failures
      then update_deployment_status (failure id error now) now saved
      else (updated row, saved)
]

abbrev pub is_set : Option String → Bool
is_set none = false
is_set (some s) = true

-- `clear_deployment_health_failures`
unfoldable pub clear_deployment_health_failures : String → ℕ → Control → Updated × Control
clear_deployment_health_failures id now c = elim (lookup id c.deployments) [
  | none ↦ (refused not_found, c)
  | some d ↦
      if d.health_check_failures == 0 && not (is_set d.last_error)
      then (updated d, c)
      else (let row = record d { health_check_failures = 0; last_error = none; updated_at = now } in
          (updated row, update_deployment id row c))
]
