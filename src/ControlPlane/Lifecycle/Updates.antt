-- ===== src/ControlPlane/Lifecycle/Updates.antt =====
-- What reports keep of the deployments and of the reservations: update_deployment_status over any
-- sequence of reports.
use greencompute_api.Prelude.{
  ℕ, String, ◌≡◌, refl, ap, true, false, Option, none, some, List, [], ◌∷◌, ◌==◌, string_eq, eq_iff,
  arith, if◌then◌else◌, if-cases, option-cases, Bool-cases, inl, inr, ◌⊎◌, is_some,
}
use greencompute_api.Prelude.Dict.{lookup, lookup-insert}
use greencompute_api.ControlPlane.States.{DeploymentState, suspended, transition_state}
use greencompute_api.ControlPlane.States.Paths.{Reaches, next}
use greencompute_api.ControlPlane.Reservations.{get_active_reservation}
use greencompute_api.ControlPlane.Deployment.{Deployment, Control}
use greencompute_api.ControlPlane.Lifecycle.{
  StatusUpdate, Updated, is_terminal, frees_gpus, reported, commit_status, update_deployment_status,
}
use greencompute_api.ControlPlane.Lifecycle.Commits.{
  release-none, release-other, transition-desired, commit-deployments, commit-freed, commit-held,
}

-- The reports of miners and of the control plane itself, each with the time of its transaction.
abbrev pub play : List (StatusUpdate × ℕ) → Control → Control
play [] c = c
play ((u, now) ∷ us) c = play us (update_deployment_status u now c).1

-- What a report does to the deployments: nothing, or a committed report on a live deployment.
data Step (u : StatusUpdate) (now : ℕ) (c : Control) : Control → Type 0 where
  unchanged : Step u now c c
  committed :
      (d new : Deployment)
      → lookup u.deployment_id c.deployments ≡ some d
      → is_terminal d.state ≡ false
      → transition_state d.state u.state ≡ some u.state
      → new ≡ reported u u.state now d
      → Step u now c (commit_status u new now c)

update-Step :
    (u : StatusUpdate) (now : ℕ) (c : Control) → Step u now c (update_deployment_status u now c).1
unfolding update_deployment_status
update-Step u now c =
    let P : Updated × Control → Type 0 = λ o. Step u now c o.1 in
    option-cases P (lookup u.deployment_id c.deployments) (λ _. unchanged)
      (λ d e.
        if-cases P (is_terminal d.state) (λ _. unchanged)
          (λ live.
            option-cases P (transition_state d.state u.state) (λ _. unchanged)
              (λ s t.
                let same = transition-desired d.state u.state t in
                rw same (committed d _ e live (rw same at t) refl))))

-- The accumulator of a deployment; 0 if it is gone.
abbrev pub remainder_of : Option Deployment → ℕ
remainder_of none = 0
remainder_of (some row) = row.metering_remainder_mcents

-- A deployment that has freed its GPUs holds none.
abbrev pub IsFreed : Control → Type 0
IsFreed c =
    (d : String) (row : Deployment)
    → lookup d c.deployments ≡ some row
    → frees_gpus row.state ≡ true
    → get_active_reservation d c.reservations ≡ none

-- A suspended deployment has its suspend clock, which storage charges and the reaper go by.
abbrev pub IsClocked : Control → Type 0
IsClocked c =
    (d : String) (row : Deployment)
    → lookup d c.deployments ≡ some row
    → row.state ≡ suspended
    → is_some row.suspended_at ≡ true

module _ (u : StatusUpdate) (now : ℕ) (c : Control) where
  -- A row after a committed report: the new one, or another's as it was.
  row_after :
      (new : Deployment) (i : String) (row : Deployment)
      → lookup i (commit_status u new now c).deployments ≡ some row
      → ((i ≡ u.deployment_id) × (new ≡ row))
        ⊎ (((i == u.deployment_id) ≡ false) × (lookup i c.deployments ≡ some row))
  row_after new i row found =
      let written : (if i == u.deployment_id then some new else lookup i c.deployments) ≡ some row =
        rw (commit-deployments u new now c, lookup-insert u.deployment_id i new c.deployments) at
          found in
      elim (Bool-cases (i == u.deployment_id)) [
        | inl same ↦ inl ((eq_iff i u.deployment_id).0 same, ground arith)
        | inr other ↦ inr (other, rw other at written)
      ]

  held_after :
      (new : Deployment) (i : String)
      → (i == u.deployment_id) ≡ false
      → get_active_reservation i (commit_status u new now c).reservations
        ≡ get_active_reservation i c.reservations
  held_after new i other = elim (Bool-cases (frees_gpus u.state)) [
    | inl frees ↦
        rw (commit-freed u new now c frees)
          (release-other u.deployment_id i now c.reservations other)
    | inr holds ↦ rw (commit-held u new now c holds)
  ]

  Step-IsFreed : {c' : Control} → Step u now c c' → IsFreed c → IsFreed c'
  unfolding reported
  Step-IsFreed unchanged h = h
  Step-IsFreed (committed d new e live t made) h = λ i row found frees.
      elim (row_after new i row found) [
        | inl (same, is_new) ↦
            let freed : frees_gpus u.state ≡ true =
              rw (← ap (λ (x : Deployment). x.state) made, is_new) frees in
            rw (same, commit-freed u new now c freed)
              (release-none u.deployment_id now c.reservations)
        | inr (other, old) ↦ rw (held_after new i other) (h i row old frees)
      ]

  Step-IsClocked : {c' : Control} → Step u now c c' → IsClocked c → IsClocked c'
  unfolding reported
  Step-IsClocked unchanged h = h
  Step-IsClocked (committed d new e live t made) h = λ i row found stopped.
      elim (row_after new i row found) [
        | inl (same, is_new) ↦
            let paused : u.state ≡ suspended =
              rw (← ap (λ (x : Deployment). x.state) made, is_new) stopped in
            rw (← is_new, ap (λ (x : Deployment). x.suspended_at) made, paused)
        | inr (other, old) ↦ h i row old stopped
      ]

  Step-terminal :
      {c' : Control} (i : String) (row : Deployment)
      → Step u now c c'
      → lookup i c.deployments ≡ some row
      → is_terminal row.state ≡ true
      → lookup i c'.deployments ≡ some row
  Step-terminal i row unchanged e h = e
  Step-terminal i row (committed d new found live t made) e h =
      rw (commit-deployments u new now c, lookup-insert u.deployment_id i new c.deployments)
        (if-cases (λ (o : Option Deployment). o ≡ some row) (i == u.deployment_id)
          (λ same. ground (arith, eq_iff i u.deployment_id)) (λ _. e))

  Step-Reaches :
      {c' : Control} (i : String) (row : Deployment) {start : DeploymentState}
      → Step u now c c'
      → lookup i c.deployments ≡ some row
      → Reaches start row.state
      → (row' : Deployment) × (lookup i c'.deployments ≡ some row') × Reaches start row'.state
  unfolding reported
  Step-Reaches i row unchanged e p = (row, e, p)
  Step-Reaches i row {start} (committed d new found live t made) e p =
      elim (Bool-cases (i == u.deployment_id)) [
        | inl same ↦ (
          new,
          rw (
            commit-deployments u new now c,
            lookup-insert u.deployment_id i new c.deployments,
            same,
          ),
          let one : row ≡ d = ground (arith, eq_iff i u.deployment_id) in
              rw (ap (λ (x : Deployment). x.state) made)
                (next (rw (← ap (λ (x : Deployment). x.state) one) p) u.state t),
        )
        | inr other ↦ (
          row,
          rw
              (
                commit-deployments u new now c,
                lookup-insert u.deployment_id i new c.deployments,
                other,
              )
              e,
          p,
        )
      ]

  Step-remainder :
      {c' : Control} (i : String)
      → Step u now c c'
      → remainder_of (lookup i c'.deployments) ≡ remainder_of (lookup i c.deployments)
  unfolding reported
  Step-remainder i unchanged = refl
  Step-remainder i (committed d new found live t made) =
      rw (commit-deployments u new now c, lookup-insert u.deployment_id i new c.deployments)
        (if-cases
          (λ (o : Option Deployment). remainder_of o ≡ remainder_of (lookup i c.deployments))
          (i == u.deployment_id)
          (λ same.
            rw ((eq_iff i u.deployment_id).0 same, found)
              (ap (λ (x : Deployment). x.metering_remainder_mcents) made))
          (λ _. refl))

-- A report leaves the meter's accumulators alone.
pub update-remainder :
    (u : StatusUpdate) (now : ℕ) (c : Control) (i : String)
    → remainder_of (lookup i (update_deployment_status u now c).1.deployments)
      ≡ remainder_of (lookup i c.deployments)
update-remainder u now c i = Step-remainder u now c i (update-Step u now c)

-- Reports keep it so that a SUSPENDED, FAILED or TERMINATED deployment holds no GPUs: after any
-- sequence of reports it has no active reservation, if that was so before.
pub play-IsFreed :
    (us : List (StatusUpdate × ℕ)) (c : Control)
    → IsFreed c
    → (d : String) (row : Deployment) → lookup d (play us c).deployments ≡ some row
    → frees_gpus row.state ≡ true
    → get_active_reservation d (play us c).reservations ≡ none
play-IsFreed [] c h = h
play-IsFreed ((u, now) ∷ us) c h =
    play-IsFreed us (update_deployment_status u now c).1
      (Step-IsFreed u now c (update-Step u now c) h)

-- Reports keep it so that a SUSPENDED deployment has its suspend clock, which storage charges and
-- the reaper count from.
pub play-IsClocked :
    (us : List (StatusUpdate × ℕ)) (c : Control) → IsClocked c → IsClocked (play us c)
play-IsClocked [] c h = h
play-IsClocked ((u, now) ∷ us) c h =
    play-IsClocked us (update_deployment_status u now c).1
      (Step-IsClocked u now c (update-Step u now c) h)

-- No sequence of reports changes anything in the row of a FAILED or TERMINATED deployment.
pub play-terminal :
    (us : List (StatusUpdate × ℕ)) (c : Control) (i : String) (row : Deployment)
    → lookup i c.deployments ≡ some row
    → is_terminal row.state ≡ true
    → lookup i (play us c).deployments ≡ some row
play-terminal [] c i row e h = e
play-terminal ((u, now) ∷ us) c i row e h =
    play-terminal us (update_deployment_status u now c).1 i row
      (Step-terminal u now c i row (update-Step u now c) e h) h

-- Whatever the reports, every deployment of the table stays in it, and in a state that
-- transition_state leads to from the state that it was in.
pub play-Reaches :
    (us : List (StatusUpdate × ℕ)) (c : Control) (i : String) (row : Deployment)
    {start : DeploymentState}
    → lookup i c.deployments ≡ some row
    → Reaches start row.state
    → (row' : Deployment) × (lookup i (play us c).deployments ≡ some row')
      × Reaches start row'.state
play-Reaches [] c i row e p = (row, e, p)
play-Reaches ((u, now) ∷ us) c i row e p =
    let (row', e', p') = Step-Reaches u now c i row (update-Step u now c) e p in
    play-Reaches us (update_deployment_status u now c).1 i row' e' p'
