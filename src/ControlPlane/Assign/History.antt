-- ===== src/ControlPlane/Assign/History.antt =====
-- Any sequence of the control plane's operations on the fleet: leases, releases, resumes, sweeps,
-- the miners' reports and the deletion of deployments.
use greencompute_api.Prelude.{
  ℕ, ◌+◌, ◌≤◌, String, ◌≡◌, Bool, false, ◌&&◌, Option, none, some, List, [], ◌∷◌, ◌==◌, string_eq,
  eq_iff, arith, if-cases, option-cases, Bool-cases, inl, inr, All,
}
use greencompute_api.Prelude.Int.{ℤ, pos, ltb_ℤ, negate_ℕ}
use greencompute_api.Prelude.Dict.{
  lookup, UniqueKeys, UniqueKeys-insert, UniqueKeys-select, IsAbsent,
}
use greencompute_api.ControlPlane.States.{DeploymentState}
use greencompute_api.ControlPlane.Reservations.{
  Reservations, reserve_gpus, reserved_gpus_by_node, release_gpu_reservation, release,
  release_orphaned_reservations, delete_reservations, reserved_gpus_for_node, is_active, is_orphan,
}
use greencompute_api.ControlPlane.Reservations.Sums.{
  release_gpu_reservation-le, release_orphaned_reservations-le, delete_reservations-le,
  by_node-eq-for_node, reserved-insert, others-le,
}
use greencompute_api.ControlPlane.Placement.{
  Floats, Node, Workload, Lease, assign_lease, effective_available_gpus,
}
use greencompute_api.ControlPlane.Assign.{
  Fleet, node_named, commit_lease, gpu_count_of, _assign_lease, reclaim_orphaned_reservations,
  adjust_node_capacity, Resumed, resumed, refused, resume_gpus,
}
use greencompute_api.ControlPlane.Assign.Booking.{
  NotOverbooked, WithinHardware, _assign_lease-NotOverbooked, node_named-within,
}

module _ (fl : Floats) where
  open fl use {Float}

  -- One operation on the fleet, with what it is called on.
  pub data Event : Type 0 where
    assign : Workload → String → List (Node Float) → ℕ → Event
    release_hold : String → ℕ → Event
    resume : String → String → String → ℕ → ℕ → Event
    reclaim : (String → Option DeploymentState) → ℕ → Event
    report : List (Node Float) → Event
    delete : List String → Event

  abbrev pub resumed_or : Fleet Float → Resumed fl → Fleet Float
  resumed_or f (resumed g) = g
  resumed_or f (refused e) = f

  abbrev pub after : Event → Fleet Float → Fleet Float
  after (assign w d nodes now) f = (_assign_lease fl w d nodes now f).1
  after (release_hold d now) f = record f {
    reservations = (release_gpu_reservation d now f.reservations).1;
  }
  after (resume d hotkey node count now) f = resumed_or f (resume_gpus fl d hotkey node count now f)
  after (reclaim state now) f = (reclaim_orphaned_reservations fl state now f).1
  after (report nodes) f = record f { nodes = nodes }
  after (delete ds) f = record f { reservations = delete_reservations ds f.reservations }

  abbrev pub play : List Event → Fleet Float → Fleet Float
  play [] f = f
  play (e ∷ es) f = play es (after e f)

  -- The nodes that an event brings report no more GPUs than the hardware has.
  abbrev pub IsHonest : (String → ℕ) → Event → Type 0
  IsHonest cap (assign w d nodes now) = WithinHardware cap nodes
  IsHonest cap (report nodes) = WithinHardware cap nodes
  IsHonest cap _ = Unit

adjust-WithinHardware :
    {F : Type 0} (cap : String → ℕ) (hotkey id : String) (delta : ℤ) (nodes : List (Node F))
    → WithinHardware cap nodes
    → WithinHardware cap (adjust_node_capacity hotkey id delta nodes)
unfolding adjust_node_capacity
adjust-WithinHardware cap hotkey id delta [] h = tt
adjust-WithinHardware cap hotkey id delta (n ∷ ns) h =
    if-cases (WithinHardware cap) (n.hotkey == hotkey && n.node_id == id) (λ _. h)
      (λ _. (h.0, adjust-WithinHardware cap hotkey id delta ns h.1))

IsAbsent-orphaned :
    (state : String → Option DeploymentState) (now : ℕ) (k : String) (rows : Reservations)
    → IsAbsent (lookup k rows)
    → IsAbsent (lookup k (release_orphaned_reservations state now rows).1)
unfolding release_orphaned_reservations
IsAbsent-orphaned state now k [] h = h
IsAbsent-orphaned state now k ((d, row) ∷ rows) h = elim (Bool-cases (k == d)) [
  | inl e ↦ absurd (rw e at h)
  | inr e ↦
      let rest : IsAbsent (lookup k (release_orphaned_reservations state now rows).1) =
        IsAbsent-orphaned state now k rows (rw e at h) in
      if-cases (λ (o : ℕ × Reservations). IsAbsent (lookup k o.1))
        (is_active row.status && is_orphan (state d)) (λ _. rw e rest) (λ _. rw e rest)
]

unique-orphaned :
    (state : String → Option DeploymentState) (now : ℕ) (rows : Reservations)
    → UniqueKeys rows
    → UniqueKeys (release_orphaned_reservations state now rows).1
unfolding release_orphaned_reservations
unique-orphaned state now [] u = tt
unique-orphaned state now ((d, row) ∷ rows) u =
    let rest : IsAbsent (lookup d (release_orphaned_reservations state now rows).1)
        × UniqueKeys (release_orphaned_reservations state now rows).1 =
      (IsAbsent-orphaned state now d rows u.0, unique-orphaned state now rows u.1) in
    if-cases (λ (o : ℕ × Reservations). UniqueKeys o.1)
      (is_active row.status && is_orphan (state d)) (λ _. rest) (λ _. rest)

release_gpu-NotOverbooked :
    (cap : String → ℕ) (d : String) (now : ℕ) (rows : Reservations)
    → NotOverbooked cap rows
    → NotOverbooked cap (release_gpu_reservation d now rows).1
unfolding release_gpu_reservation
release_gpu-NotOverbooked cap d now rows h = record {
  unique =
      option-cases (λ (o : Bool × Reservations). UniqueKeys o.1) (lookup d rows) (λ _. h.unique)
        (λ row _.
          if-cases (λ (o : Bool × Reservations). UniqueKeys o.1) (is_active row.status)
            (λ _. UniqueKeys-insert d (release now row) rows h.unique) (λ _. h.unique));
  within = λ n. omega (arith, h.within n, release_gpu_reservation-le d n now rows h.unique);
}

module _ (fl : Floats) (cap : String → ℕ) where
  open fl use {Float}

  -- The headroom that resume_deployment tests for is within what is free of the node.
  headroom-le :
      (n : Node Float) (rows : Reservations) (count : ℕ)
      → ltb_ℤ (effective_available_gpus n (reserved_gpus_by_node rows)) (pos count) ≡ false
      → count + reserved_gpus_for_node n.node_id rows ≤ n.gpu_count
  unfolding effective_available_gpus
  headroom-le n rows count e = ground (arith, by_node-eq-for_node n.node_id rows)

  named-id :
      (id : String) (nodes : List (Node Float)) (n : Node Float)
      → node_named id nodes ≡ some n
      → n.node_id ≡ id
  named-id id [] n e = absurd (cc)
  named-id id (m ∷ ms) n e = elim (Bool-cases (m.node_id == id)) [
    | inl same ↦ ground (arith, eq_iff m.node_id id)
    | inr other ↦ named-id id ms n (rw other at e)
  ]

  hold_taken-NotOverbooked :
      (d hotkey : String) (n : Node Float) (count now : ℕ) (rows : Reservations)
      → NotOverbooked cap rows
      → n.gpu_count ≤ cap n.node_id
      → ltb_ℤ (effective_available_gpus n (reserved_gpus_by_node rows)) (pos count) ≡ false
      → NotOverbooked cap (reserve_gpus d hotkey n.node_id count none now rows).1
  unfolding reserve_gpus
  hold_taken-NotOverbooked d hotkey n count now rows h fits room = record {
    unique = UniqueKeys-insert d _ rows h.unique;
    within = λ i. elim (Bool-cases (n.node_id == i)) [
      | inl e ↦
          rw (reserved-insert i d _ rows h.unique)
            (ground (arith, eq_iff n.node_id i, headroom-le n rows count room, others-le i d rows))
      | inr e ↦
          rw (reserved-insert i d _ rows h.unique)
            (rw e (omega (arith, h.within i, others-le i d rows)))
    ];
  }

  resume-NotOverbooked :
      (d hotkey id : String) (count now : ℕ) (f : Fleet Float)
      → WithinHardware cap f.nodes
      → NotOverbooked cap f.reservations
      → NotOverbooked cap (resumed_or fl f (resume_gpus fl d hotkey id count now f)).reservations
  unfolding resume_gpus
  resume-NotOverbooked d hotkey id count now f hw h =
      option-cases (λ (o : Resumed fl). NotOverbooked cap (resumed_or fl f o).reservations)
        (node_named id f.nodes) (λ _. h)
        (λ n e.
          if-cases (λ (o : Resumed fl). NotOverbooked cap (resumed_or fl f o).reservations)
            (ltb_ℤ (effective_available_gpus n (reserved_gpus_by_node f.reservations)) (pos count))
            (λ _. h)
            (λ room.
              let same = named-id id f.nodes n e in
              rw (← same) (
                hold_taken-NotOverbooked d hotkey n count now f.reservations h
                  (rw same (node_named-within cap id f.nodes n hw e)) room)))

  assign-WithinHardware :
      (w : Workload) (d : String) (nodes : List (Node Float)) (now : ℕ) (f : Fleet Float)
      → WithinHardware cap f.nodes
      → WithinHardware cap (_assign_lease fl w d nodes now f).1.nodes
  unfolding _assign_lease commit_lease
  assign-WithinHardware w d nodes now f hw =
      let P : Option Lease × Fleet Float → Type 0 = λ o. WithinHardware cap o.1.nodes in
      option-cases P (assign_lease fl w d nodes (reserved_gpus_by_node f.reservations)) (λ _. hw)
        (λ l _.
          if-cases P
            (reserve_gpus d l.hotkey l.node_id w.gpu_count
              (gpu_count_of (node_named l.node_id nodes)) now f.reservations).0
            (λ _. adjust-WithinHardware cap l.hotkey l.node_id (negate_ℕ w.gpu_count) f.nodes hw)
            (λ _. hw))

  resume-WithinHardware :
      (d hotkey id : String) (count now : ℕ) (f : Fleet Float)
      → WithinHardware cap f.nodes
      → WithinHardware cap (resumed_or fl f (resume_gpus fl d hotkey id count now f)).nodes
  unfolding resume_gpus
  resume-WithinHardware d hotkey id count now f hw =
      let P : Resumed fl → Type 0 = λ o. WithinHardware cap (resumed_or fl f o).nodes in
      option-cases P (node_named id f.nodes) (λ _. hw)
        (λ n _.
          if-cases P
            (ltb_ℤ (effective_available_gpus n (reserved_gpus_by_node f.reservations)) (pos count))
            (λ _. hw) (λ _. adjust-WithinHardware cap hotkey id (negate_ℕ count) f.nodes hw))

  -- What every sequence of events keeps.
  abbrev pub IsSound : Fleet Float → Type 0
  IsSound f = NotOverbooked cap f.reservations × WithinHardware cap f.nodes

  after-IsSound :
      (e : Event fl) (f : Fleet Float) → IsHonest fl cap e → IsSound f → IsSound (after fl e f)
  unfolding delete_reservations reclaim_orphaned_reservations
  after-IsSound (assign w d nodes now) f hn (h, hw) = (
    _assign_lease-NotOverbooked fl cap w d nodes now f hn h,
    assign-WithinHardware w d nodes now f hw,
  )
  after-IsSound (release_hold d now) f hn (h, hw) =
      (release_gpu-NotOverbooked cap d now f.reservations h, hw)
  after-IsSound (resume d hotkey id count now) f hn (h, hw) = (
    resume-NotOverbooked d hotkey id count now f hw h,
    resume-WithinHardware d hotkey id count now f hw,
  )
  after-IsSound (reclaim state now) f hn (h, hw) = (
    record {
      unique = unique-orphaned state now f.reservations h.unique;
      within = λ n.
          omega (arith, h.within n, release_orphaned_reservations-le state n now f.reservations);
    },
    hw,
  )
  after-IsSound (report nodes) f hn (h, hw) = (h, hn)
  after-IsSound (delete ds) f hn (h, hw) = (
    record {
      unique = UniqueKeys-select _ f.reservations h.unique;
      within = λ n. omega (arith, h.within n, delete_reservations-le ds n f.reservations);
    },
    hw,
  )

  -- No node is ever booked above the GPUs that it has: however leases, releases, resumes, orphan
  -- sweeps, node reports and deletions of deployments follow one another, when the reports name no more GPUs than the nodes
  -- have and the events run one after the other, the active reservations of a node sum to at most
  -- its GPUs, and each deployment has one row.
  pub play-NotOverbooked :
      (es : List (Event fl)) (f : Fleet Float)
      → All (IsHonest fl cap) es
      → IsSound f
      → IsSound (play fl es f)
  play-NotOverbooked [] f hs h = h
  play-NotOverbooked (e ∷ es) f hs h =
      play-NotOverbooked es (after fl e f) hs.1 (after-IsSound e f hs.0 h)
