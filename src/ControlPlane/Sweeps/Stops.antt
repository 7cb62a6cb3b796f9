-- ===== src/ControlPlane/Sweeps/Stops.antt =====
-- reap_exhausted_pods, stop_expired_runtimes and stop_rentals_over_key_limits over the whole table.
use mathlib.Core.List.{Memᴰ}
use greencompute_api.Prelude.{
  ℕ, ◌+◌, String, ◌≡◌, refl, sym, ◌∙◌, Bool, true, false, not, ◌&&◌, ◌||◌, Option, none, some, List,
  [], ◌∷◌, string_eq, if◌then◌else◌, leb, Bool-cases, Option-cases, inl, inr,
}
use greencompute_api.Prelude.Dict.{Dict, lookup, UniqueKeys, UniqueKeys-select, IsAbsent}
use greencompute_api.Prelude.Groups.{lookup-mem, mem-lookup}
use greencompute_api.Prelude.Members.{select-mem, mem-select}
use greencompute_api.Billing.Schema.{LedgerEntry}
use greencompute_api.ControlPlane.States.{
  DeploymentState, ready, suspended, same_state, transition_state,
}
use greencompute_api.ControlPlane.Deployment.{Deployment, Control}
use greencompute_api.ControlPlane.Metering.{Metered}
use greencompute_api.ControlPlane.KeyLimits.{Invocations}
use greencompute_api.ControlPlane.Sweeps.{
  Retention, stop_all, in_state, list_deployments_by_state, is_past_retention, keep_for, _is_rental,
  reap_exhausted_pods, suspension_terms, is_expired, stop_expired_runtimes, is_over_limit,
  stop_rentals_over_key_limits,
}
use greencompute_api.ControlPlane.Sweeps.Fates.{
  Fate, CanEnd, Listed, stop_all-Fate, stop_all-absent,
}

-- The rows of a state that may end stand in the table.
rows-Listed :
    (test : Deployment → Bool) (reason : Deployment → String) (now : ℕ) (s : DeploymentState)
    (c : Control) (ds : List (String × Deployment))
    → ((d : Deployment) → same_state s d.state ≡ true → CanEnd d.state)
    → ((id : String) (d : Deployment)
        → Memᴰ (id, d) ds
        → (lookup id c.deployments ≡ some d) × (same_state s d.state ≡ true))
    → Listed test reason now ds c
rows-Listed test reason now s c [] ends there = tt
rows-Listed test reason now s c ((id, d) ∷ ds) ends there =
    let (found, state) = there id d (Memᴰ.head refl) in
    (
      (found, ends d state),
      rows-Listed test reason now s c ds ends (λ j e m. there j e (Memᴰ.tail m)),
    )

module _ (test : Deployment → Bool) (reason : Deployment → String) (now : ℕ) (s : DeploymentState)
    (c : Control) (ends : (d : Deployment) → same_state s d.state ≡ true → CanEnd d.state)
    (unique : UniqueKeys c.deployments) where
  state_rows :
      (id : String) (d : Deployment)
      → Memᴰ (id, d) (list_deployments_by_state s c)
      → (lookup id c.deployments ≡ some d) × (same_state s d.state ≡ true)
  unfolding list_deployments_by_state
  state_rows id d m =
      let (inside, state) = mem-select (in_state s) (id, d) c.deployments m in
      (mem-lookup id d c.deployments unique inside, state)

  -- The sweep over the rows of one state stops those that pass the test, and no other.
  pub sweep-Fate :
      (id : String) (d : Deployment)
      → lookup id c.deployments ≡ some d
      → Fate
          (same_state s d.state && test d)
          d
          (lookup id (stop_all test reason now (list_deployments_by_state s c) c).1.deployments)
  unfolding list_deployments_by_state
  sweep-Fate id d found =
      let rows = list_deployments_by_state s c in
      let own = UniqueKeys-select (in_state s) c.deployments unique in
      let listed = rows-Listed test reason now s c rows ends state_rows in
      elim (Bool-cases (same_state s d.state)) [
        | inl is_state ↦
            let there : Memᴰ (id, d) rows =
              select-mem (in_state s) (id, d) c.deployments (lookup-mem id d c.deployments found)
                is_state in
            rw is_state (
              stop_all-Fate test reason now rows c id d own listed (mem-lookup id d rows own there))
        | inr other ↦ rw other (
            stop_all-absent test reason now rows c id own listed
              (absent_row (lookup id rows) refl other)
            ∙ found)
      ]
    where
      same_row : (a b : Deployment) → some a ≡ some b → a ≡ b
      same_row a b p = cc

      apart : (b : Bool) → b ≡ false → b ≡ true → ⊥
      apart b p q = absurd (cc)

      absent_row :
          (o : Option Deployment)
          → lookup id (list_deployments_by_state s c) ≡ o
          → same_state s d.state ≡ false
          → IsAbsent o
      absent_row none e other = tt
      absent_row (some e) at other =
          let (really, is_state) = state_rows id e (lookup-mem id e _ at) in
          let same : d ≡ e = same_row d e (sym found ∙ really) in
          absurd (apart (same_state s d.state) other (rw same is_state))

suspended-CanEnd : (d : Deployment) → same_state suspended d.state ≡ true → CanEnd d.state
unfolding transition_state
suspended-CanEnd d h = ends d.state h
  where
    ends : (s : DeploymentState) → same_state suspended s ≡ true → CanEnd s
    ends suspended h = (refl, refl)
    ends _ h = absurd (cc)

ready-CanEnd : (d : Deployment) → same_state ready d.state ≡ true → CanEnd d.state
unfolding transition_state
ready-CanEnd d h = ends d.state h
  where
    ends : (s : DeploymentState) → same_state ready s ≡ true → CanEnd s
    ends ready h = (refl, refl)
    ends _ h = absurd (cc)

-- The date of `suspension_terms` has come.
abbrev pub is_due : ℕ → Option ℕ → Bool
is_due now none = false
is_due now (some at) = leb at now

terms-due :
    (r : Retention) (workloads : Dict String Metered) (now : ℕ) (d : Deployment)
    → is_due now (suspension_terms r workloads d).1 ≡ (
        r.pod_exhaustion_reaper_enabled
        && (same_state suspended d.state && is_past_retention r workloads now d))
unfolding suspension_terms
terms-due r workloads now d = elim (Option-cases d.suspended_at) [
  | inl none_set ↦
      rw none_set (nothing r.pod_exhaustion_reaper_enabled (same_state suspended d.state))
  | inr (since, e) ↦ rw e (
      dates r.pod_exhaustion_reaper_enabled (same_state suspended d.state) (_is_rental workloads d)
        (since + keep_for r d) now _)
]
  where
    nothing : (e s : Bool) → false ≡ (e && (s && false))
    nothing true true = refl
    nothing true false = refl
    nothing false s = refl

    shown : Bool → Bool → Bool → ℕ → ℕ → ℕ × Option ℕ
    shown e s rental at cents =
        if not s || not rental then (0, none) else (cents, if e then some at else none)

    dates :
        (e s rental : Bool) (at now cents : ℕ)
        → is_due now (shown e s rental at cents).1 ≡ (e && (s && (rental && leb at now)))
    dates true true true at now cents = refl
    dates true true false at now cents = refl
    dates true false rental at now cents = refl
    dates false true true at now cents = refl
    dates false true false at now cents = refl
    dates false false rental at now cents = refl

-- On a table with unique ids, `reap_exhausted_pods` stops exactly the deployments whose date in
-- `suspension_terms`, which is the one that their owners are shown, has come: each of those is
-- TERMINATED in the table that it leaves, and every other row is as it was.
pub reap_exhausted_pods-Fate :
    (r : Retention) (workloads : Dict String Metered) (reason : Deployment → String) (now : ℕ)
    (c : Control) (id : String) (d : Deployment)
    → UniqueKeys c.deployments
    → lookup id c.deployments ≡ some d
    → Fate
        (is_due now (suspension_terms r workloads d).1)
        d
        (lookup id (reap_exhausted_pods r workloads reason now c).1.deployments)
unfolding reap_exhausted_pods
reap_exhausted_pods-Fate r workloads reason now c id d unique found =
    rw (terms-due r workloads now d) (elim (Bool-cases r.pod_exhaustion_reaper_enabled) [
      | inl on ↦ rw on (
          sweep-Fate (is_past_retention r workloads now) reason now suspended c suspended-CanEnd
            unique id d found)
      | inr off ↦ rw off found
    ])

-- On a table with unique ids, `stop_expired_runtimes` leaves every READY deployment TERMINATED that
-- has run for its max_runtime_minutes since ready_at, and every other row as it was.
pub stop_expired_runtimes-Fate :
    (reason : Deployment → String) (now : ℕ) (c : Control) (id : String) (d : Deployment)
    → UniqueKeys c.deployments
    → lookup id c.deployments ≡ some d
    → Fate
        (same_state ready d.state && is_expired now d)
        d
        (lookup id (stop_expired_runtimes reason now c).1.deployments)
unfolding stop_expired_runtimes
stop_expired_runtimes-Fate reason now c id d unique found =
    sweep-Fate (is_expired now) reason now ready c ready-CanEnd unique id d found

-- On a table with unique ids, `stop_rentals_over_key_limits` leaves every READY deployment TERMINATED
-- whose API key has a limit and has spent it since the start of the window, by `key_spend_cents`, and
-- every other row as it was.
pub stop_rentals_over_key_limits-Fate :
    (limits : Dict String ℕ) (ledger : List LedgerEntry) (invocations : Invocations) (since : ℕ)
    (reason : Deployment → String) (now : ℕ) (c : Control) (id : String) (d : Deployment)
    → UniqueKeys c.deployments
    → lookup id c.deployments ≡ some d
    → Fate (same_state ready d.state && is_over_limit limits ledger invocations since c d) d (
        lookup id
          (stop_rentals_over_key_limits limits ledger invocations since reason now c).1.deployments)
unfolding stop_rentals_over_key_limits
stop_rentals_over_key_limits-Fate limits ledger invocations since reason now c id d unique found =
    sweep-Fate (is_over_limit limits ledger invocations since c) reason now ready c ready-CanEnd
      unique id d found
