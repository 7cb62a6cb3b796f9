-- ===== src/ControlPlane/Assign.antt =====
-- application/services.py: ControlPlaneService._assign_lease, reclaim_orphaned_reservations and the
-- part of resume_deployment that takes GPUs again, over the reservations and the reported nodes.
pub mod Booking
pub mod History
use greencompute_api.Prelude.{
  ℕ, ◌+◌, String, Bool, true, false, not, ◌&&◌, Option, none, some, List, [], ◌∷◌, ◌==◌, string_eq,
  if◌then◌else◌, find,
}
use greencompute_api.Prelude.Int.{ℤ, pos, ◌+ℤ◌, negate_ℕ, ltb_ℤ}
use greencompute_api.ControlPlane.States.{DeploymentState}
use greencompute_api.ControlPlane.Reservations.{
  Reservations, reserve_gpus, reserved_gpus_by_node, release_gpu_reservation,
  release_orphaned_reservations,
}
use greencompute_api.ControlPlane.Placement.{
  Floats, Node, Workload, Lease, assign_lease, effective_available_gpus,
}

-- The tables that scheduling writes: the reservations, and the nodes as the miners reported them.
pub record Fleet (F : Type 0) : Type 0 where
  pub reservations : Reservations
  pub nodes : List (Node F)

-- `adjust_node_capacity`: the first node of the hotkey with that id.
unfoldable pub adjust_node_capacity :
    {F : Type 0} → String → String → ℤ → List (Node F) → List (Node F)
adjust_node_capacity hotkey node_id delta [] = []
adjust_node_capacity hotkey node_id delta (n ∷ ns) =
    if n.hotkey == hotkey && n.node_id == node_id
    then record n { available_gpus = n.available_gpus +ℤ delta } ∷ ns
    else n ∷ adjust_node_capacity hotkey node_id delta ns

abbrev pub gpu_count_of : {F : Type 0} → Option (Node F) → Option ℕ
gpu_count_of none = none
gpu_count_of (some n) = some n.gpu_count

abbrev pub node_named : {F : Type 0} → String → List (Node F) → Option (Node F)
node_named id = find (λ n. n.node_id == id)

module _ (fl : Floats) where
  open fl use {Float}

  -- Once the lease is chosen: the capacity-checked hold, then the reported availability.
  unfoldable pub commit_lease :
      Workload → String → Lease → List (Node Float) → ℕ → Fleet Float → Option Lease × Fleet Float
  commit_lease w d lease nodes now f =
      let (reserved_ok, rows) =
        reserve_gpus d lease.hotkey lease.node_id w.gpu_count
          (gpu_count_of (node_named lease.node_id nodes)) now f.reservations in
      if reserved_ok
      then (
        some lease,
        record f {
          reservations = rows;
          nodes = adjust_node_capacity lease.hotkey lease.node_id (negate_ℕ w.gpu_count) f.nodes;
        },
      )
      else (none, record f { reservations = rows })

  -- `_assign_lease`, with what `_schedulable_nodes` gave; the lease's expiry is left out.
  unfoldable pub _assign_lease :
      Workload → String → List (Node Float) → ℕ → Fleet Float → Option Lease × Fleet Float
  _assign_lease w d nodes now f =
      elim (assign_lease fl w d nodes (reserved_gpus_by_node f.reservations)) [
        | none ↦ (none, f)
        | some lease ↦ commit_lease w d lease nodes now f
      ]

  pub data ResumeError : Type 0 where
    node_gone no_capacity : ResumeError

  pub data Resumed : Type 0 where
    resumed : Fleet Float → Resumed
    refused : ResumeError → Resumed

  -- `resume_deployment`, from the lookup of its node: the headroom is tested before the hold, and
  -- the hold is taken with no capacity of its own.
  unfoldable pub resume_gpus : String → String → String → ℕ → ℕ → Fleet Float → Resumed
  resume_gpus d hotkey node_id gpu_count now f = elim (node_named node_id f.nodes) [
    | none ↦ refused node_gone
    | some node ↦
        if ltb_ℤ (effective_available_gpus node (reserved_gpus_by_node f.reservations))
          (pos gpu_count)
        then refused no_capacity
        else resumed (record f {
          reservations = (reserve_gpus d hotkey node_id gpu_count none now f.reservations).1;
          nodes = adjust_node_capacity hotkey node_id (negate_ℕ gpu_count) f.nodes;
        })
  ]

  -- `reclaim_orphaned_reservations`
  unfoldable pub reclaim_orphaned_reservations :
      (String → Option DeploymentState) → ℕ → Fleet Float → ℕ × Fleet Float
  reclaim_orphaned_reservations state now f =
      let (count, rows) = release_orphaned_reservations state now f.reservations in
      (count, record f { reservations = rows })
