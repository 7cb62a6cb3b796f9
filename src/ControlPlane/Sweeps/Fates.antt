-- ===== src/ControlPlane/Sweeps/Fates.antt =====
-- What becomes of each deployment in a sweep.
use greencompute_api.Prelude.{
  ℕ, String, ◌≡◌, refl, ◌∙◌, ap, Bool, true, false, Option, some, List, [], ◌∷◌, ◌==◌, string_eq,
  eq_iff, if◌then◌else◌, if-cases, arith, Bool-cases, inl, inr,
}
use greencompute_api.Prelude.Dict.{lookup, insert, lookup-insert, UniqueKeys, IsAbsent}
use greencompute_api.ControlPlane.States.{DeploymentState, terminated, transition_state}
use greencompute_api.ControlPlane.Deployment.{Deployment, Control}
use greencompute_api.ControlPlane.Lifecycle.{reported, update_deployment_status, is_terminal}
use greencompute_api.ControlPlane.Lifecycle.Commits.{commit-deployments}
use greencompute_api.ControlPlane.Sweeps.{termination, stop_all}

-- A state that may end.
abbrev pub CanEnd : DeploymentState → Type 0
CanEnd s = (is_terminal s ≡ false) × (transition_state s terminated ≡ some terminated)

module _ (id reason : String) (now : ℕ) (d : Deployment) (c : Control) where
  -- The report of a sweep on such a deployment writes its row.
  ends_row :
      lookup id c.deployments ≡ some d
      → CanEnd d.state
      → (update_deployment_status (termination id reason now) now c).1.deployments
        ≡ insert id (reported (termination id reason now) terminated now d) c.deployments
  unfolding update_deployment_status
  ends_row found (live, allowed) =
      rw (update_deployment_status, found, live, allowed)
        (commit-deployments (termination id reason now) _ now c)

-- What a sweep leaves of a deployment that it stops, or does not.
abbrev pub Fate : Bool → Deployment → Option Deployment → Type 0
Fate true d o = (row : Deployment) × (o ≡ some row) × (row.state ≡ terminated)
Fate false d o = o ≡ some d

tested {ℓ κ} :
    {A : Type ℓ} (P : Bool → A → Type κ) (b : Bool) {x y : A}
    → P true x
    → P false y
    → P b (if b then x else y)
tested P true f g = f
tested P false f g = g

module _ (test : Deployment → Bool) (reason : Deployment → String) (now : ℕ) where
  -- The rows of the list stand in the table, and may end.
  abbrev pub Listed : List (String × Deployment) → Control → Type 0
  Listed [] c = Unit
  Listed ((id, d) ∷ ds) c = ((lookup id c.deployments ≡ some d) × CanEnd d.state) × Listed ds c

  insert-Listed :
      (id : String) (row : Deployment) (ds : List (String × Deployment)) (c c' : Control)
      → IsAbsent (lookup id ds)
      → c'.deployments ≡ insert id row c.deployments
      → Listed ds c
      → Listed ds c'
  insert-Listed id row [] c c' absent e h = tt
  insert-Listed id row ((j, d) ∷ ds) c c' absent e ((found, ends), rest) =
      elim (Bool-cases (id == j)) [
        | inl same ↦ absurd (rw same at absent)
        | inr other ↦ (
          (
            rw (e, lookup-insert id j row c.deployments)
                (if-cases (λ o. o ≡ some d) (j == id)
                  (λ same. absurd (ground (arith, eq_iff id j, eq_iff j id))) (λ _. found)),
            ends,
          ),
          insert-Listed id row ds c c' (rw other at absent) e rest,
        )
      ]

  kept_row :
      (id j : String) (row : Deployment) (c c' : Control)
      → c'.deployments ≡ insert id row c.deployments
      → (j == id) ≡ false
      → lookup j c'.deployments ≡ lookup j c.deployments
  kept_row id j row c c' e other = rw (e, lookup-insert id j row c.deployments, other) refl

  -- A deployment that the list does not hold is left as it is.
  pub stop_all-absent :
      (ds : List (String × Deployment)) (c : Control) (j : String)
      → UniqueKeys ds
      → Listed ds c
      → IsAbsent (lookup j ds)
      → lookup j (stop_all test reason now ds c).1.deployments ≡ lookup j c.deployments
  unfolding stop_all
  stop_all-absent [] c j u h absent = refl
  stop_all-absent ((id, d) ∷ ds) c j u ((found, ends), rest) absent = elim (Bool-cases (j == id)) [
    | inl same ↦ absurd (rw same at absent)
    | inr other ↦
        let row = reported (termination id (reason d) now) terminated now d in
        let c' = (update_deployment_status (termination id (reason d) now) now c).1 in
        let e = ends_row id (reason d) now d c found ends in
        let gone : IsAbsent (lookup j ds) = rw other at absent in
        let stopped =
          stop_all-absent ds c' j u.1 (insert-Listed id row ds c c' u.0 e rest) gone
          ∙ kept_row id j row c c' e other in
        let passed = stop_all-absent ds c j u.1 rest gone in
        if-cases (λ (o : List String × Control). lookup j o.1.deployments ≡ lookup j c.deployments)
          (test d) (λ _. stopped) (λ _. passed)
  ]

  pub stop_all-Fate :
      (ds : List (String × Deployment)) (c : Control) (j : String) (e : Deployment)
      → UniqueKeys ds
      → Listed ds c
      → lookup j ds ≡ some e
      → Fate (test e) e (lookup j (stop_all test reason now ds c).1.deployments)
  unfolding stop_all reported
  stop_all-Fate [] c j e u h at = absurd (cc)
  stop_all-Fate ((id, d) ∷ ds) c j e u ((found, ends), rest) at =
      let row = reported (termination id (reason d) now) terminated now d in
      let c' = (update_deployment_status (termination id (reason d) now) now c).1 in
      let written = ends_row id (reason d) now d c found ends in
      let still = insert-Listed id row ds c c' u.0 written rest in
      elim (Bool-cases (j == id)) [
        | inl same ↦
            let name : j ≡ id = (eq_iff j id).0 same in
            let it : d ≡ e = some_row (rw same at at) in
            let gone : IsAbsent (lookup j ds) = rw name u.0 in
            let final =
              stop_all-absent ds c' j u.1 still gone
              ∙ ap (lookup j) written
              ∙ lookup-insert id j row c.deployments
              ∙ if_true (lookup j c.deployments) same in
            let untouched =
              stop_all-absent ds c j u.1 rest gone
              ∙ ap (λ k. lookup k c.deployments) name
              ∙ found in
            rw (← it) (
              tested (λ b (o : List String × Control). Fate b d (lookup j o.1.deployments)) (test d)
                (row, final, refl) untouched)
        | inr other ↦
            let in_rest : lookup j ds ≡ some e = rw other at at in
            if-cases (λ (o : List String × Control). Fate (test e) e (lookup j o.1.deployments))
              (test d) (λ _. stop_all-Fate ds c' j e u.1 still in_rest)
              (λ _. stop_all-Fate ds c j e u.1 rest in_rest)
      ]
    where
      some_row : {a b : Deployment} → some a ≡ some b → a ≡ b
      some_row p = cc

      if_true :
          {b : Bool} {x : Option Deployment} (y : Option Deployment)
          → b ≡ true
          → (if b then x else y) ≡ x
      if_true y p = rw p refl
