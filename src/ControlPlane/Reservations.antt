-- ===== src/ControlPlane/Reservations.antt =====
-- infrastructure/repository.py, "GPU reservations": the table gpu_reservations and its operations.
-- The rows stand under deployment_id, which is UNIQUE.
pub mod Sums
use greencompute_api.Prelude.{
  ℕ, ◌+◌, String, Bool, true, false, not, ◌&&◌, ◌||◌, Option, none, some, List, [], ◌∷◌, ◌==◌,
  string_eq, if◌then◌else◌, ltb, select,
}
use greencompute_api.Prelude.Dict.{Dict, lookup, insert}
use greencompute_api.ControlPlane.States.{DeploymentState, failed, terminated}

pub data ReservationStatus : Type 0 where
  active released : ReservationStatus

pub record Reservation : Type 0 where
  pub hotkey : String
  pub node_id : String
  pub gpu_count : ℕ
  pub status : ReservationStatus
  pub created_at : ℕ
  pub released_at : Option ℕ

abbrev pub Reservations : Type 0
Reservations = Dict String Reservation

abbrev pub is_active : ReservationStatus → Bool
is_active active = true
is_active released = false

-- The GPUs that a row holds on a node.
abbrev pub held_on : String → Reservation → ℕ
held_on node row = if is_active row.status && row.node_id == node then row.gpu_count else 0

-- The rows of other deployments only, as reserve_gpus sums them.
unfoldable pub reserved_by_others : String → String → Reservations → ℕ
reserved_by_others node deployment [] = 0
reserved_by_others node deployment ((d, row) ∷ rows) =
    (if deployment == d then 0 else held_on node row) + reserved_by_others node deployment rows

-- `reserved_gpus_for_node`
unfoldable pub reserved_gpus_for_node : String → Reservations → ℕ
reserved_gpus_for_node node [] = 0
reserved_gpus_for_node node ((d, row) ∷ rows) = held_on node row + reserved_gpus_for_node node rows

abbrev pub created_or : Option Reservation → ℕ → ℕ
created_or none now = now
created_or (some row) now = row.created_at

abbrev pub over_capacity : Option ℕ → ℕ → Bool
over_capacity none total = false
over_capacity (some capacity) total = ltb capacity total

-- `reserve_gpus`: whether a hold is now active, and the table. A lost race of two first inserts
-- answers True without a write of its own; it is not modelled, a call being one transaction.
unfoldable pub reserve_gpus :
    String → String → String → ℕ → Option ℕ → ℕ → Reservations → Bool × Reservations
reserve_gpus deployment_id hotkey node_id gpu_count capacity now rows =
    if over_capacity capacity (reserved_by_others node_id deployment_id rows + gpu_count)
    then (false, rows)
    else (
      true,
      insert deployment_id
          (record {
            hotkey = hotkey;
            node_id = node_id;
            gpu_count = gpu_count;
            status = active;
            created_at = created_or (lookup deployment_id rows) now;
            released_at = none;
          })
          rows,
    )

abbrev pub release : ℕ → Reservation → Reservation
release now row = record row { status = released; released_at = some now }

-- `release_gpu_reservation`
unfoldable pub release_gpu_reservation : String → ℕ → Reservations → Bool × Reservations
release_gpu_reservation deployment_id now rows = elim (lookup deployment_id rows) [
  | none ↦ (false, rows)
  | some row ↦
      if is_active row.status
      then (true, insert deployment_id (release now row) rows)
      else (false, rows)
]

-- The rows that `delete_workload` deletes, for the deployments of the workload.
abbrev pub is_one_of : List String → String → Bool
is_one_of [] id = false
is_one_of (d ∷ ds) id = d == id || is_one_of ds id

unfoldable pub delete_reservations : List String → Reservations → Reservations
delete_reservations deployments rows = select (λ r. not (is_one_of deployments r.0)) rows

-- A reservation whose deployment is gone, or terminal.
abbrev pub is_orphan : Option DeploymentState → Bool
is_orphan none = true
is_orphan (some terminated) = true
is_orphan (some failed) = true
is_orphan (some _) = false

-- `release_orphaned_reservations`, with the states of the deployments: the table and the count.
unfoldable pub release_orphaned_reservations :
    (String → Option DeploymentState) → ℕ → Reservations → ℕ × Reservations
release_orphaned_reservations state now [] = (0, [])
release_orphaned_reservations state now ((d, row) ∷ rows) =
    let (count, rest) = release_orphaned_reservations state now rows in
    if is_active row.status && is_orphan (state d)
    then (count + 1, (d, release now row) ∷ rest)
    else (count, (d, row) ∷ rest)

-- `get_active_reservation`
unfoldable pub get_active_reservation : String → Reservations → Option Reservation
get_active_reservation deployment_id rows = elim (lookup deployment_id rows) [
  | none ↦ none
  | some row ↦ if is_active row.status then some row else none
]

abbrev pub or_zero : Option ℕ → ℕ
or_zero none = 0
or_zero (some n) = n

-- `reserved_gpus_by_node`: the sums, grouped by node.
unfoldable pub reserved_gpus_by_node : Reservations → Dict String ℕ
reserved_gpus_by_node [] = []
reserved_gpus_by_node ((d, row) ∷ rows) =
    let totals = reserved_gpus_by_node rows in
    if is_active row.status
    then insert row.node_id (row.gpu_count + or_zero (lookup row.node_id totals)) totals
    else totals
