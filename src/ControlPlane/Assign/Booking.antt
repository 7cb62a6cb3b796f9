-- ===== src/ControlPlane/Assign/Booking.antt =====
-- The reservations of _assign_lease against the nodes' reported GPU counts.
use greencompute_api.Prelude.{
  ℕ, ◌+◌, ◌≤◌, String, ◌≡◌, refl, Bool, true, false, Option, some, List, [], ◌∷◌, ◌==◌, string_eq,
  eq_iff, arith, if-cases, option-cases, Bool-cases, inl, inr, All,
}
use greencompute_api.Prelude.Dict.{UniqueKeys, UniqueKeys-insert}
use greencompute_api.ControlPlane.Reservations.{
  Reservations, reserve_gpus, reserved_gpus_by_node, reserved_gpus_for_node, over_capacity,
  reserved_by_others,
}
use greencompute_api.ControlPlane.Reservations.Sums.{reserve_gpus-other, reserve_gpus-within}
use greencompute_api.ControlPlane.Placement.{Floats, Node, Workload, Lease, assign_lease}
use mathlib.Core.List.{Memᴰ}
use greencompute_api.ControlPlane.Placement.Best.{assign_lease-IsBest}
use greencompute_api.ControlPlane.Assign.{Fleet, node_named, commit_lease, _assign_lease}

-- A table with one row for a deployment, whose active rows book each node within its capacity.
pub record NotOverbooked (cap : String → ℕ) (rows : Reservations) : Type 0 where
  pub unique : UniqueKeys rows
  pub within : (node : String) → reserved_gpus_for_node node rows ≤ cap node

-- The reports of nodes, which never name more GPUs than the node has.
abbrev pub WithinHardware : {F : Type 0} → (String → ℕ) → List (Node F) → Type 0
WithinHardware cap = All (λ n. n.gpu_count ≤ cap n.node_id)

module _ (cap : String → ℕ) where
  reserve_gpus_unique :
      (d hotkey node : String) (count : ℕ) (capacity : Option ℕ) (now : ℕ) (rows : Reservations)
      → UniqueKeys rows
      → UniqueKeys (reserve_gpus d hotkey node count capacity now rows).1
  unfolding reserve_gpus
  reserve_gpus_unique d hotkey node count capacity now rows u =
      if-cases (λ (o : Bool × Reservations). UniqueKeys o.1)
        (over_capacity capacity (reserved_by_others node d rows + count)) (λ _. u)
        (λ _. UniqueKeys-insert d _ rows u)

  -- A granted hold within a capacity that the node has.
  pub granted-NotOverbooked :
      (d hotkey node : String) (count c now : ℕ) (rows : Reservations)
      → NotOverbooked cap rows
      → c ≤ cap node
      → (reserve_gpus d hotkey node count (some c) now rows).0 ≡ true
      → NotOverbooked cap (reserve_gpus d hotkey node count (some c) now rows).1
  granted-NotOverbooked d hotkey node count c now rows h fits ok = record {
    unique = reserve_gpus_unique d hotkey node count (some c) now rows h.unique;
    within = λ n. elim (Bool-cases (n == node)) [
      | inl e ↦ rw ((eq_iff n node).0 e) (
          omega
            (arith, reserve_gpus-within d hotkey node count now (some c) rows c h.unique refl ok))
      | inr e ↦ omega (
        arith,
        h.within n,
        reserve_gpus-other d hotkey node count now (some c) rows n h.unique
            (λ same. absurd (ground (arith, eq_iff n node))),
      )
    ];
  }

  refused-same :
      (d hotkey node : String) (count : ℕ) (capacity : Option ℕ) (now : ℕ) (rows : Reservations)
      → (reserve_gpus d hotkey node count capacity now rows).0 ≡ false
      → (reserve_gpus d hotkey node count capacity now rows).1 ≡ rows
  unfolding reserve_gpus
  refused-same d hotkey node count capacity now rows =
      if-cases (λ (o : Bool × Reservations). o.0 ≡ false → o.1 ≡ rows)
        (over_capacity capacity (reserved_by_others node d rows + count)) (λ _ _. refl)
        (λ _ denied. absurd (cc))

  -- A hold asked for within a capacity that the node has, granted or not.
  pub reserve_gpus-NotOverbooked :
      (d hotkey node : String) (count c now : ℕ) (rows : Reservations)
      → NotOverbooked cap rows
      → c ≤ cap node
      → NotOverbooked cap (reserve_gpus d hotkey node count (some c) now rows).1
  reserve_gpus-NotOverbooked d hotkey node count c now rows h fits =
      elim (Bool-cases (reserve_gpus d hotkey node count (some c) now rows).0) [
        | inl ok ↦ granted-NotOverbooked d hotkey node count c now rows h fits ok
        | inr denied ↦ rw (refused-same d hotkey node count (some c) now rows denied) h
      ]

  pub node_named-within :
      {F : Type 0} (id : String) (nodes : List (Node F)) (n : Node F)
      → WithinHardware cap nodes
      → node_named id nodes ≡ some n
      → n.gpu_count ≤ cap id
  node_named-within id [] n h e = absurd (cc)
  node_named-within id (m ∷ ms) n h e = elim (Bool-cases (m.node_id == id)) [
    | inl same ↦ ground (arith, eq_iff m.node_id id, h.0)
    | inr other ↦ node_named-within id ms n h.1 (rw other at e)
  ]

listed-named :
    {F : Type 0} (n : Node F) (nodes : List (Node F))
    → Memᴰ n nodes
    → (m : Node F) × (node_named n.node_id nodes ≡ some m)
listed-named n [] k = elim k [ ]
listed-named n (m ∷ ms) (Memᴰ.head e) = (m, rw (e, (eq_iff m.node_id m.node_id).1 refl))
listed-named n (m ∷ ms) (Memᴰ.tail k) = elim (Bool-cases (m.node_id == n.node_id)) [
  | inl same ↦ (m, rw same)
  | inr other ↦ rw other (listed-named n ms k)
]

module _ (fl : Floats) (cap : String → ℕ) where
  open fl use {Float}

  commit_lease-NotOverbooked :
      (w : Workload) (d : String) (lease : Lease) (nodes : List (Node Float)) (m : Node Float)
      (now : ℕ) (f : Fleet Float)
      → NotOverbooked cap f.reservations
      → WithinHardware cap nodes
      → node_named lease.node_id nodes ≡ some m
      → NotOverbooked cap (commit_lease fl w d lease nodes now f).1.reservations
  unfolding commit_lease
  commit_lease-NotOverbooked w d lease nodes m now f h hw e =
      let held =
        reserve_gpus-NotOverbooked cap d lease.hotkey lease.node_id w.gpu_count m.gpu_count now
          f.reservations h (node_named-within cap lease.node_id nodes m hw e) in
      rw e (
        if-cases (λ (o : Option Lease × Fleet Float). NotOverbooked cap o.1.reservations)
          (reserve_gpus d lease.hotkey lease.node_id w.gpu_count (some m.gpu_count) now
            f.reservations).0
          (λ _. held) (λ _. held))

  -- The hold of _assign_lease: the node that PlacementPolicy chose is among the reports, so the
  -- capacity is known.
  pub _assign_lease-NotOverbooked :
      (w : Workload) (d : String) (nodes : List (Node Float)) (now : ℕ) (f : Fleet Float)
      → WithinHardware cap nodes
      → NotOverbooked cap f.reservations
      → NotOverbooked cap (_assign_lease fl w d nodes now f).1.reservations
  unfolding _assign_lease
  _assign_lease-NotOverbooked w d nodes now f hw h =
      option-cases (λ (o : Option Lease × Fleet Float). NotOverbooked cap o.1.reservations)
        (assign_lease fl w d nodes (reserved_gpus_by_node f.reservations)) (λ _. h)
        (λ lease e.
          let (n, inside, _, _, same, _) =
            assign_lease-IsBest fl w d (reserved_gpus_by_node f.reservations) nodes e in
          let (m, named) = listed-named n nodes inside in
          commit_lease-NotOverbooked w d lease nodes m now f h hw (rw same named))
