-- ===== src/ControlPlane/Reservations/Sums.antt =====
-- How the operations move the sums of the reservations on a node.
use greencompute_api.Prelude.{
  ℕ, ◌+◌, ◌≤◌, String, ◌≡◌, refl, ◌≢◌, Bool, true, Option, List, select, some, [], ◌∷◌, ◌==◌,
  string_eq, eq_iff, arith, if-cases, option-cases, Bool-cases, inl, inr,
}
use greencompute_api.Prelude.Dict.{lookup, insert, lookup-insert, UniqueKeys, IsAbsent}
use greencompute_api.ControlPlane.States.{DeploymentState}
use greencompute_api.ControlPlane.Reservations.{
  delete_reservations, Reservation, Reservations, is_active, held_on, reserved_by_others,
  reserved_gpus_for_node, over_capacity, reserve_gpus, release, release_gpu_reservation,
  release_orphaned_reservations, or_zero, reserved_gpus_by_node,
}

-- The grouped table gives each node the sum of its active reservations, and 0 to a node that it
-- does not list.
pub by_node-eq-for_node :
    (node : String) (rows : Reservations)
    → or_zero (lookup node (reserved_gpus_by_node rows)) ≡ reserved_gpus_for_node node rows
unfolding reserved_gpus_by_node reserved_gpus_for_node
by_node-eq-for_node node [] = refl
by_node-eq-for_node node ((d, row) ∷ rows) = elim (Bool-cases (is_active row.status)) [
  | inl a ↦ rw a (
      rw lookup-insert (elim (Bool-cases (node == row.node_id)) [
        | inl e ↦
            ground (
              arith,
              eq_iff node row.node_id,
              eq_iff row.node_id node,
              by_node-eq-for_node node rows,
            )
        | inr e ↦
            ground (
              arith,
              eq_iff node row.node_id,
              eq_iff row.node_id node,
              by_node-eq-for_node node rows,
            )
      ]))
  | inr a ↦ ground (arith, by_node-eq-for_node node rows)
]

module _ (node : String) where
  others-absent :
      (d : String) (rows : Reservations)
      → IsAbsent (lookup d rows)
      → reserved_by_others node d rows ≡ reserved_gpus_for_node node rows
  unfolding reserved_by_others reserved_gpus_for_node
  others-absent d [] a = refl
  others-absent d ((j, row) ∷ rows) a = elim (Bool-cases (d == j)) [
    | inl e ↦ absurd (rw e at a)
    | inr e ↦ rw (e, others-absent d rows (rw e at a))
  ]

  -- A write under a deployment's id: its row and those of the others.
  pub reserved-insert :
      (d : String) (new : Reservation) (rows : Reservations)
      → UniqueKeys rows
      → reserved_gpus_for_node node (insert d new rows)
        ≡ held_on node new + reserved_by_others node d rows
  unfolding reserved_by_others reserved_gpus_for_node
  reserved-insert d new [] u = refl
  reserved-insert d new ((j, row) ∷ rows) u = elim (Bool-cases (d == j)) [
    | inl e ↦ rw (e, others-absent d rows (rw ((eq_iff d j).0 e) u.0)) (omega arith)
    | inr e ↦ rw (e, reserved-insert d new rows u.1) (omega arith)
  ]

  -- Leaving out a deployment's row leaves out at most that.
  pub others-le :
      (d : String) (rows : Reservations)
      → reserved_by_others node d rows ≤ reserved_gpus_for_node node rows
  unfolding reserved_by_others reserved_gpus_for_node
  others-le d [] = omega arith
  others-le d ((j, row) ∷ rows) =
      if-cases
        (λ (n : ℕ).
          n + reserved_by_others node d rows ≤ held_on node row + reserved_gpus_for_node node rows)
        (d == j) (λ _. omega (arith, others-le d rows)) (λ _. omega (arith, others-le d rows))

module _ (d hotkey node : String) (count now : ℕ) (capacity : Option ℕ) (rows : Reservations) where
  -- A hold on `node` adds nothing to another node.
  pub reserve_gpus-other :
      (n : String)
      → UniqueKeys rows
      → n ≢ node
      → reserved_gpus_for_node n (reserve_gpus d hotkey node count capacity now rows).1
        ≤ reserved_gpus_for_node n rows
  unfolding reserve_gpus
  reserve_gpus-other n u other =
      if-cases
        (λ (o : Bool × Reservations). reserved_gpus_for_node n o.1 ≤ reserved_gpus_for_node n rows)
        (over_capacity capacity (reserved_by_others node d rows + count)) (λ _. omega arith)
        (λ _. rw (reserved-insert n d _ rows u) (ground (arith, eq_iff node n, others-le n d rows)))

  -- With a capacity given, a granted hold leaves the node's sum within it.
  pub reserve_gpus-within :
      (c : ℕ)
      → UniqueKeys rows
      → capacity ≡ some c
      → (reserve_gpus d hotkey node count capacity now rows).0 ≡ true
      → reserved_gpus_for_node node (reserve_gpus d hotkey node count capacity now rows).1 ≤ c
  unfolding reserve_gpus
  reserve_gpus-within c u e =
      if-cases (λ (o : Bool × Reservations). o.0 ≡ true → reserved_gpus_for_node node o.1 ≤ c)
        (over_capacity capacity (reserved_by_others node d rows + count)) (λ _ h. absurd (cc))
        (λ room _. rw (reserved-insert node d _ rows u) (ground (arith, eq_iff node node)))

-- A release never adds to a node's sum.
pub release_gpu_reservation-le :
    (d n : String) (now : ℕ) (rows : Reservations)
    → UniqueKeys rows
    → reserved_gpus_for_node n (release_gpu_reservation d now rows).1
      ≤ reserved_gpus_for_node n rows
unfolding release_gpu_reservation
release_gpu_reservation-le d n now rows u =
    let P : Bool × Reservations → Type 0 =
      λ o. reserved_gpus_for_node n o.1 ≤ reserved_gpus_for_node n rows in
    option-cases P (lookup d rows) (λ _. omega arith)
      (λ row _.
        if-cases P (is_active row.status)
          (λ _.
            rw (reserved-insert n d (release now row) rows u) (omega (arith, others-le n d rows)))
          (λ _. omega arith))

-- Nor does the sweep of orphans.
pub release_orphaned_reservations-le :
    (state : String → Option DeploymentState) (n : String) (now : ℕ) (rows : Reservations)
    → reserved_gpus_for_node n (release_orphaned_reservations state now rows).1
      ≤ reserved_gpus_for_node n rows
unfolding release_orphaned_reservations reserved_gpus_for_node
release_orphaned_reservations-le state n now [] = omega arith
release_orphaned_reservations-le state n now ((d, row) ∷ rows) =
    ground (arith, release_orphaned_reservations-le state n now rows)

select-le :
    (p : String × Reservation → Bool) (n : String) (rows : Reservations)
    → reserved_gpus_for_node n (select p rows) ≤ reserved_gpus_for_node n rows
unfolding reserved_gpus_for_node
select-le p n [] = omega arith
select-le p n ((d, row) ∷ rows) =
    if-cases (λ l. reserved_gpus_for_node n l ≤ reserved_gpus_for_node n ((d, row) ∷ rows))
      (p (d, row)) (λ _. omega (arith, select-le p n rows)) (λ _. omega (arith, select-le p n rows))

pub delete_reservations-le :
    (ds : List String) (n : String) (rows : Reservations)
    → reserved_gpus_for_node n (delete_reservations ds rows) ≤ reserved_gpus_for_node n rows
unfolding delete_reservations
delete_reservations-le ds n rows = select-le _ n rows
