-- ===== src/ControlPlane/Lifecycle/Commits.antt =====
-- The tables that a committed report of update_deployment_status leaves.
use greencompute_api.Prelude.{
  ℕ, String, ◌≡◌, refl, ap, Bool, true, false, Option, none, some, ◌∷◌, ◌==◌, string_eq, eq_iff,
  arith, if-cases, option-cases,
}
use greencompute_api.Prelude.Dict.{lookup, insert, lookup-insert}
use greencompute_api.ControlPlane.States.{DeploymentState, transition_state}
use greencompute_api.ControlPlane.Reservations.{
  Reservations, release_gpu_reservation, get_active_reservation, is_active, release,
}
use greencompute_api.ControlPlane.Deployment.{
  Deployment, Control, update_assignment_status, update_deployment,
}
use greencompute_api.ControlPlane.Lifecycle.{
  StatusUpdate, frees_gpus, commit_status, mark_assignment, assignment_status,
}

-- After a release the deployment holds nothing, and the other deployments hold what they held.
pub release-none :
    (d : String) (now : ℕ) (rows : Reservations)
    → get_active_reservation d (release_gpu_reservation d now rows).1 ≡ none
unfolding release_gpu_reservation get_active_reservation
release-none d now rows =
    option-cases (λ (o : Bool × Reservations). get_active_reservation d o.1 ≡ none) (lookup d rows)
      (λ e. rw (get_active_reservation, e))
      (λ row e.
        if-cases (λ (o : Bool × Reservations). get_active_reservation d o.1 ≡ none)
          (is_active row.status)
          (λ _.
            rw (
              get_active_reservation,
              lookup-insert d d (release now row) rows,
              (eq_iff d d).1 refl,
            ))
          (λ off. rw (get_active_reservation, e, off)))

pub release-other :
    (d e : String) (now : ℕ) (rows : Reservations)
    → (e == d) ≡ false
    → get_active_reservation e (release_gpu_reservation d now rows).1
      ≡ get_active_reservation e rows
unfolding release_gpu_reservation get_active_reservation
release-other d e now rows other =
    let P : Bool × Reservations → Type 0 =
      λ o. get_active_reservation e o.1 ≡ get_active_reservation e rows in
    option-cases P (lookup d rows) (λ _. refl)
      (λ row _.
        if-cases P (is_active row.status)
          (λ _. rw (get_active_reservation, lookup-insert d e (release now row) rows, other))
          (λ _. refl))

pub mark-kept :
    (d : String) (status reason : Option String) (c : Control)
    → ((mark_assignment d status reason c).deployments ≡ c.deployments)
      × ((mark_assignment d status reason c).reservations ≡ c.reservations)
unfolding mark_assignment update_assignment_status
mark-kept d none reason c = (refl, refl)
mark-kept d (some status) reason c =
    option-cases
      (λ (o : Control). (o.deployments ≡ c.deployments) × (o.reservations ≡ c.reservations))
      (lookup d c.assignments) (λ _. (refl, refl)) (λ _ _. (refl, refl))

module _ (u : StatusUpdate) (row : Deployment) (now : ℕ) (c : Control) where
  abbrev marked : Control
  marked =
      mark_assignment u.deployment_id (assignment_status u.state) u.error
        (record c { events = (u.deployment_id, u.state) ∷ c.events })

  -- The two tables that a committed report leaves.
  pub commit-deployments :
      (commit_status u row now c).deployments ≡ insert u.deployment_id row c.deployments
  unfolding commit_status update_deployment
  commit-deployments =
      let same =
        (mark-kept u.deployment_id (assignment_status u.state) u.error
          (record c { events = (u.deployment_id, u.state) ∷ c.events })).0 in
      if-cases
        (λ (o : Control).
          insert u.deployment_id row o.deployments ≡ insert u.deployment_id row c.deployments)
        (frees_gpus u.state) (λ _. ap (insert u.deployment_id row) same)
        (λ _. ap (insert u.deployment_id row) same)

  pub commit-freed :
      frees_gpus u.state ≡ true
      → (commit_status u row now c).reservations
        ≡ (release_gpu_reservation u.deployment_id now c.reservations).1
  unfolding commit_status update_deployment
  commit-freed e =
      let same =
        (mark-kept u.deployment_id (assignment_status u.state) u.error
          (record c { events = (u.deployment_id, u.state) ∷ c.events })).1 in
      rw (e, same)

  pub commit-held :
      frees_gpus u.state ≡ false → (commit_status u row now c).reservations ≡ c.reservations
  unfolding commit_status update_deployment
  commit-held e =
      let same =
        (mark-kept u.deployment_id (assignment_status u.state) u.error
          (record c { events = (u.deployment_id, u.state) ∷ c.events })).1 in
      rw (e, same)

pub transition-desired :
    (s t : DeploymentState) {r : DeploymentState} → transition_state s t ≡ some r → r ≡ t
unfolding transition_state
transition-desired s t e = ground arith
