-- ===== src/ControlPlane/Operator/Outcomes.antt =====
-- What fail_deployment answers, and what the operators' actions leave of a deployment and of its GPUs.
use greencompute_api.Prelude.{
  ℕ, String, ◌≡◌, refl, ◌∙◌, ap, Bool, true, Option, none, some, ◌==◌, string_eq, eq_iff,
  if◌then◌else◌, if-cases,
}
use greencompute_api.Prelude.Dict.{Dict, lookup, lookup-insert}
use greencompute_api.ControlPlane.States.{
  DeploymentState, pending, scheduled, pulling, starting, ready, draining, suspended, failed,
  terminated, transition_state, same_state,
}
use greencompute_api.ControlPlane.Reservations.{
  Reservation, get_active_reservation, release_gpu_reservation,
}
use greencompute_api.ControlPlane.Deployment.{
  Deployment, Assignment, Control, update_assignment_status, update_deployment,
}
use greencompute_api.ControlPlane.Lifecycle.{
  Updated, updated, refused, invalid_transition, reported, update_deployment_status,
  mark_assignment,
}
use greencompute_api.ControlPlane.Lifecycle.Commits.{release-none, mark-kept}
use greencompute_api.ControlPlane.Metering.{Metered}
use greencompute_api.ControlPlane.Health.{failure}
use greencompute_api.ControlPlane.Operator.{
  Site, active_assignment, leave_node, fail_active, fail_deployment, drop_lease, cleaned,
  cleanup_deployment,
}

-- The answer to a forced failure, by the deployment's state.
abbrev pub FailsAs : DeploymentState → Deployment → Updated → Type 0
FailsAs suspended d o = o ≡ refused invalid_transition
FailsAs failed d o = o ≡ updated d
FailsAs terminated d o = o ≡ updated d
FailsAs _ d o = (row : Deployment) × (o ≡ updated row) × (row.state ≡ failed)

module _ (id reason : String) (now : ℕ) (c : Control) (d : Deployment)
    (found : lookup id c.deployments ≡ some d) where
  status-FailsAs :
      (s : DeploymentState)
      → d.state ≡ s
      → FailsAs s d (update_deployment_status (failure id reason now) now c).0
  unfolding update_deployment_status transition_state reported
  status-FailsAs suspended e = rw (update_deployment_status, found, e) refl
  status-FailsAs failed e = rw (update_deployment_status, found, e) refl
  status-FailsAs terminated e = rw (update_deployment_status, found, e) refl
  status-FailsAs pending e = rw (update_deployment_status, found, e) (_, refl, refl)
  status-FailsAs scheduled e = rw (update_deployment_status, found, e) (_, refl, refl)
  status-FailsAs pulling e = rw (update_deployment_status, found, e) (_, refl, refl)
  status-FailsAs starting e = rw (update_deployment_status, found, e) (_, refl, refl)
  status-FailsAs ready e = rw (update_deployment_status, found, e) (_, refl, refl)
  status-FailsAs draining e = rw (update_deployment_status, found, e) (_, refl, refl)

-- A status write keeps the two tables.
assignment-kept :
    (id status : String) (reason : Option String) (c : Control)
    → ((update_assignment_status id status reason c).deployments ≡ c.deployments)
      × ((update_assignment_status id status reason c).reservations ≡ c.reservations)
unfolding mark_assignment
assignment-kept id status reason c = mark-kept id (some status) reason c

module _ {F : Type 0} (id : String) (a : Assignment) (w : Option Metered) (lease placement : String)
    (reason : Option String) (failures : ℕ) (cooldown : Option ℕ) (now : ℕ) (s : Site F) where
  leave-deployments :
      (leave_node id a w lease placement reason failures cooldown now s).control.deployments
      ≡ s.control.deployments
  unfolding leave_node
  leave-deployments = (assignment-kept id lease reason _).0

  leave-released :
      get_active_reservation id
        (leave_node id a w lease placement reason failures cooldown now s).control.reservations
      ≡ none
  unfolding leave_node
  leave-released =
      let freed = record s.control {
        reservations = (release_gpu_reservation id now s.control.reservations).1;
      } in
      rw ((assignment-kept id lease reason freed).1) (release-none id now s.control.reservations)

fail-deployments :
    {F : Type 0} (workloads : Dict String Metered) (cooldown : ℕ) (id : String) (d : Deployment)
    (o : Option Assignment) (now : ℕ) (s : Site F)
    → (fail_active workloads cooldown id d o now s).control.deployments ≡ s.control.deployments
fail-deployments workloads cooldown id d none now s = refl
fail-deployments workloads cooldown id d (some a) now s = leave-deployments id a _ _ _ _ _ _ now s

-- For a deployment of the table, `fail_deployment` returns it unchanged when it is FAILED or TERMINATED,
-- raises InvalidDeploymentTransition when it is SUSPENDED, and returns it FAILED in any other state.
pub fail_deployment-FailsAs :
    {F : Type 0} (workloads : Dict String Metered) (cooldown : ℕ) (id : String) (d : Deployment)
    (now : ℕ) (s : Site F)
    → lookup id s.control.deployments ≡ some d
    → FailsAs d.state d (fail_deployment workloads cooldown id now s).0
unfolding fail_deployment
fail_deployment-FailsAs workloads cooldown id d now s found =
    let s' = fail_active workloads cooldown id d (active_assignment id s.control) now s in
    let same = fail-deployments workloads cooldown id d (active_assignment id s.control) now s in
    rw (fail_deployment, found)
      (status-FailsAs id "operator forced failure" now s'.control d (ap (lookup id) same ∙ found)
        d.state refl)

-- The GPUs that a site holds for a deployment.
abbrev pub hold_of : {F : Type 0} → String → Site F → Option Reservation
hold_of id s = get_active_reservation id s.control.reservations

-- Without an active lease there is no hold.
abbrev pub LeasedOrFree : Option Assignment → Option Reservation → Type 0
LeasedOrFree none held = held ≡ none
LeasedOrFree (some a) held = Unit

drop-LeasedOrFree :
    {F : Type 0} (workloads : Dict String Metered) (id : String) (d : Deployment)
    (o : Option Assignment) (reason : String) (now : ℕ) (s : Site F)
    → LeasedOrFree o (hold_of id s)
    → ((drop_lease workloads id d o reason now s).control.deployments ≡ s.control.deployments)
      × (hold_of id (drop_lease workloads id d o reason now s) ≡ none)
drop-LeasedOrFree workloads id d (some a) reason now s h =
    (leave-deployments id a _ _ _ _ _ _ now s, leave-released id a _ _ _ _ _ _ now s)
drop-LeasedOrFree workloads id d none reason now s h =
    let kept = assignment-kept id "terminated" (some reason) s.control in
    if-cases (λ t. (t.control.deployments ≡ s.control.deployments) × (hold_of id t ≡ none))
      (same_state suspended d.state) (λ _. (kept.0, rw kept.1 h)) (λ _. (refl, h))

-- A cleanup that has ended the deployment, and left it no GPUs.
abbrev pub IsEnded : {F : Type 0} → String → Option (Site F) → Type 0
IsEnded id none = ⊥
IsEnded id (some s) =
    (row : Deployment) × (lookup id s.control.deployments ≡ some row)
    × (row.state ≡ terminated)
    × (hold_of id s ≡ none)

-- For a deployment of the table that holds no GPUs without an active lease, `cleanup_deployment` answers,
-- and after it the deployment is TERMINATED and holds no GPUs.
pub cleanup_deployment-IsEnded :
    {F : Type 0} (workloads : Dict String Metered) (id reason : String) (d : Deployment) (now : ℕ)
    (s : Site F)
    → lookup id s.control.deployments ≡ some d
    → LeasedOrFree (active_assignment id s.control) (hold_of id s)
    → IsEnded id (cleanup_deployment workloads id reason now s)
unfolding cleanup_deployment update_deployment
cleanup_deployment-IsEnded workloads id reason d now s found leased =
    let dropped = drop_lease workloads id d (active_assignment id s.control) reason now s in
    let (kept, freed) =
      drop-LeasedOrFree workloads id d (active_assignment id s.control) reason now s leased in
    rw (cleanup_deployment, found)
      (
        cleaned reason now d,
        lookup-insert id id (cleaned reason now d) dropped.control.deployments
            ∙ if_same (lookup id dropped.control.deployments) (id == id) ((eq_iff id id).1 refl),
        refl,
        freed,
      )
  where
    if_same :
        {x : Option Deployment} (y : Option Deployment) (b : Bool)
        → b ≡ true
        → (if b then x else y) ≡ x
    if_same y b e = rw e refl
