-- ===== src/ControlPlane/Operator.antt =====
-- application/services.py: what operators and customers do to a deployment: requeue_deployment with
-- _requeue_assignment, fail_deployment and cleanup_deployment. A method that raises keeps the
-- writes that its earlier transactions have committed. Metrics are left out.
pub mod Outcomes
use greencompute_api.Prelude.{
  ℕ, ◌+◌, String, Bool, true, false, not, ◌&&◌, ◌||◌, Option, none, some, List, [], ◌∷◌, ◌==◌,
  string_eq, nat_eq, if◌then◌else◌, leb,
}
use greencompute_api.Prelude.Int.{ℤ, pos}
use greencompute_api.Prelude.Dict.{Dict, lookup}
use greencompute_api.ControlPlane.States.{
  DeploymentState, pending, suspended, failed, terminated, same_state,
}
use greencompute_api.ControlPlane.Reservations.{release_gpu_reservation}
use greencompute_api.ControlPlane.Placement.{Node}
use greencompute_api.ControlPlane.Assign.{adjust_node_capacity}
use greencompute_api.ControlPlane.Deployment.{
  Deployment, Assignment, Control, update_assignment_status, update_placement_status,
  update_deployment,
}
use greencompute_api.ControlPlane.Lifecycle.{
  StatusUpdate, Updated, updated, refused, not_found, update_deployment_status,
}
use greencompute_api.ControlPlane.Metering.{Metered}
use greencompute_api.ControlPlane.Health.{failure}

-- The control plane's tables, with the nodes as the miners reported them.
pub record Site (F : Type 0) : Type 0 where
  pub control : Control
  pub nodes : List (Node F)

abbrev pub is_active_status : String → Bool
is_active_status s = s == "assigned" || s == "activating" || s == "active"

abbrev pub if_active : Option Assignment → Option Assignment
if_active none = none
if_active (some a) = if is_active_status a.status then some a else none

-- `next(item for item in list_assignments(statuses=[...]) if item.deployment_id == ...)`
abbrev pub active_assignment : String → Control → Option Assignment
active_assignment id c = if_active (lookup id c.assignments)

abbrev pub emit : String → String → Control → Control
emit subject id c = record c { published = (subject, id) ∷ c.published }

abbrev pub is_over : DeploymentState → Bool
is_over failed = true
is_over terminated = true
is_over _ = false

abbrev pub requeued : String → ℕ → Deployment → Deployment
requeued reason now d = record d {
  state = pending;
  hotkey = none;
  node_id = none;
  endpoint = none;
  ssh_host_keys = [];
  ready_instances = 0;
  health_check_failures = 0;
  retry_count = d.retry_count + 1;
  last_error = some reason;
  last_retry_reason = some reason;
  failure_class = some "miner_failure";
  retry_exhausted = false;
  updated_at = now;
}

-- The reset of requeue_deployment.
abbrev pub reset : ℕ → Deployment → Deployment
reset now d = record d {
  state = pending;
  hotkey = none;
  node_id = none;
  endpoint = none;
  ssh_host_keys = [];
  ready_instances = 0;
  retry_count = 0;
  retry_exhausted = false;
  last_error = some "operator requested requeue";
  last_retry_reason = some "operator requested requeue";
  updated_at = now;
}

abbrev pub cleaned : String → ℕ → Deployment → Deployment
cleaned reason now d = record d {
  state = terminated;
  ready_instances = 0;
  endpoint = none;
  ssh_host_keys = [];
  last_error = some reason;
  failure_class = some "operator_cleanup";
  updated_at = now;
}

module _ {F : Type 0} where
  abbrev pub give_back : Option Metered → Assignment → List (Node F) → List (Node F)
  give_back none a nodes = nodes
  give_back (some w) a nodes = adjust_node_capacity a.hotkey a.node_id (pos w.gpu_count) nodes

  -- The writes that take a deployment off its node: the hold, the reported availability, the lease,
  -- the placement.
  unfoldable pub leave_node :
      String
      → Assignment
      → Option Metered
      → String
      → String
      → Option String
      → ℕ
      → Option ℕ
      → ℕ
      → Site F
      → Site F
  leave_node id a w lease placement reason failures cooldown now s =
      let freed = record s.control {
        reservations = (release_gpu_reservation id now s.control.reservations).1;
      } in
      let marked = update_assignment_status id lease reason freed in
      record {
        control = record marked {
          placements =
              update_placement_status id placement reason failures cooldown marked.placements;
        };
        nodes = give_back w a s.nodes;
      }

  abbrev pub in_control : (Control → Control) → Site F → Site F
  in_control f s = record s { control = f s.control }

  -- `_requeue_assignment`; `none` when it does nothing. `cooldown` is placement_failure_cooldown_seconds.
  unfoldable pub _requeue_assignment :
      Dict String Metered → ℕ → String → Assignment → String → ℕ → Site F → Option (Site F)
  _requeue_assignment workloads cooldown id a reason now s =
      elim (lookup id s.control.deployments) [
        | none ↦ none
        | some d ↦ if is_over d.state then none else elim (lookup d.workload_id workloads) [
          | none ↦ none
          | some w ↦ some (
              in_control
                (λ c.
                  emit "deployment.reassigned" id (
                    emit "deployment.requested" id
                      (update_deployment id (requeued reason now d) c)))
                (leave_node id a (some w) "reassigned" "failed" (some reason) 1
                  (some (now + cooldown)) now s))
        ]
      ]

  abbrev pub requeue_active :
      Dict String Metered → ℕ → String → Option Assignment → ℕ → Site F → Option (Site F)
  requeue_active workloads cooldown id none now s = none
  requeue_active workloads cooldown id (some a) now s =
      _requeue_assignment workloads cooldown id a "operator requested requeue" now s

  -- `requeue_deployment`; `none` is the KeyError.
  unfoldable pub requeue_deployment :
      Dict String Metered → ℕ → String → ℕ → Site F → Option (Site F)
  requeue_deployment workloads cooldown id now s = elim (lookup id s.control.deployments) [
    | none ↦ none
    | some d ↦ elim (requeue_active workloads cooldown id (active_assignment id s.control) now s) [
      | some s' ↦ some s'
      | none ↦ some (
          in_control (λ c. emit "deployment.requested" id (update_deployment id (reset now d) c)) s)
    ]
  ]

  abbrev pub report : StatusUpdate → ℕ → Site F → Updated × Site F
  report u now s =
      let (outcome, c) = update_deployment_status u now s.control in
      (outcome, record s { control = c })

  abbrev pub fail_active :
      Dict String Metered → ℕ → String → Deployment → Option Assignment → ℕ → Site F → Site F
  fail_active workloads cooldown id d none now s = s
  fail_active workloads cooldown id d (some a) now s =
      leave_node id a (lookup d.workload_id workloads) "terminated" "failed"
        (some "operator forced failure") 1 (some (now + cooldown)) now s

  -- `fail_deployment`
  unfoldable pub fail_deployment : Dict String Metered → ℕ → String → ℕ → Site F → Updated × Site F
  fail_deployment workloads cooldown id now s = elim (lookup id s.control.deployments) [
    | none ↦ (refused not_found, s)
    | some d ↦
        report (failure id "operator forced failure" now) now
          (fail_active workloads cooldown id d (active_assignment id s.control) now s)
  ]

  -- The lease of a cleaned deployment; a cooldown of 0 is `datetime.min`.
  abbrev pub drop_lease :
      Dict String Metered → String → Deployment → Option Assignment → String → ℕ → Site F → Site F
  drop_lease workloads id d (some a) reason now s =
      leave_node id a (lookup d.workload_id workloads) "terminated" "terminated" (some reason) 0
        (some 0) now s
  drop_lease workloads id d none reason now s =
      if same_state suspended d.state
      then in_control (update_assignment_status id "terminated" (some reason)) s
      else s

  -- `cleanup_deployment`; `none` is the KeyError.
  unfoldable pub cleanup_deployment :
      Dict String Metered → String → String → ℕ → Site F → Option (Site F)
  cleanup_deployment workloads id reason now s = elim (lookup id s.control.deployments) [
    | none ↦ none
    | some d ↦ some (
        in_control
          (λ c.
            let saved = update_deployment id (cleaned reason now d) c in
            record saved { events = (id, terminated) ∷ saved.events })
          (drop_lease workloads id d (active_assignment id s.control) reason now s))
  ]
