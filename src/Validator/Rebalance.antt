-- ===== src/Validator/Rebalance.antt =====
-- domain/flux.py: FluxOrchestrator.rebalance. FluxState and FluxRebalanceEvent are the protocol's; the
-- columns that are read or written here are `State` and `Event`. The event's `reason` and the log line
-- are left out.
pub mod Moves
use greencompute_api.Prelude.{
  ℕ, zero, suc, ◌+◌, ◌-◌, ◌/◌, ◌≤◌, min, max, String, Bool, true, false, not, ◌&&◌, Option, none,
  some, List, [], ◌∷◌, ◌++◌, map, ◌==◌, nat_eq, if◌then◌else◌, ltb,
}
use greencompute_api.Validator.Flux.{Entry, Assignments, Targets, assign_catalog_models}

-- The floats of the rebalance: the ceilings of `total * inference_floor_pct` and of
-- `total * rental_floor_pct`, whether the demands add up to more than 0, and the floor of
-- `pool * (inference_demand / total_demand)`, which is not above the pool.
pub record Shares : Type 1 where
  pub Score : Type 0
  pub ceil_inference : ℕ → ℕ
  pub ceil_rental : ℕ → ℕ
  pub has_demand : Score → Score → Bool
  pub floor_share : ℕ → Score → Score → ℕ
  pub floor_share-le : (pool : ℕ) (a b : Score) → floor_share pool a b ≤ pool

pub record State (Score : Type 0) : Type 0 where
  pub hotkey : String
  pub node_id : String
  pub total_gpus : ℕ
  pub inference_gpus : ℕ
  pub rental_gpus : ℕ
  pub idle_gpus : ℕ
  pub inference_demand_score : Score
  pub rental_demand_score : Score
  pub inference_assignments : Assignments
  pub last_rebalanced_at : ℕ

pub data Mode : Type 0 where
  inference rental : Mode

-- Every event takes an idle GPU to a mode.
pub record Event : Type 0 where
  pub hotkey : String
  pub node_id : String
  pub gpu_index : ℕ
  pub to_mode : Mode
  pub model_id : Option String

-- The targets of the two modes.
abbrev pub Goals : Type 0
Goals = ℕ × ℕ

-- The events of `for i in range(count)`, for the GPUs from `index` on.
abbrev pub moves : {S : Type 0} → State S → Mode → ℕ → ℕ → List Event
moves s mode index zero = []
moves s mode index (suc count) =
    record {
      hotkey = s.hotkey;
      node_id = s.node_id;
      gpu_index = index;
      to_mode = mode;
      model_id = none;
    }
    ∷ moves s mode (index + 1) count

abbrev pub has_index : ℕ → List ℕ → Bool
has_index i [] = false
has_index i (j ∷ l) = if i == j then true else has_index i l

-- `index_to_model.get(i)`: the last model that lists the index.
abbrev pub model_at : ℕ → Assignments → Option String → Option String
model_at i [] found = found
model_at i ((id, l) ∷ d) found = model_at i d (if has_index i l then some id else found)

abbrev pub with_model : Assignments → Mode → Event → Event
with_model d inference e = record e { model_id = model_at e.gpu_index d none }
with_model d rental e = e

abbrev pub backfill : Assignments → Event → Event
backfill d e = with_model d e.to_mode e

abbrev pub is_empty : {A : Type 0} → List A → Bool
is_empty [] = true
is_empty (x ∷ xs) = false

abbrev pub assigned : List Entry → Option ℕ → Targets → List String → ℕ → Option Assignments
assigned catalog none targets pins n = some []
assigned catalog (some vram) targets pins n =
    if not (is_empty catalog) && ltb 0 n
    then assign_catalog_models n vram catalog targets pins
    else some []

module _ (shares : Shares) where
  open shares use {Score, ceil_inference, ceil_rental, has_demand, floor_share}

  abbrev pub flex_to_inference : ℕ → State Score → ℕ
  flex_to_inference pool s =
      if has_demand s.inference_demand_score s.rental_demand_score
      then floor_share pool s.inference_demand_score s.rental_demand_score
      else pool / 2

  -- `target_inference` and `target_rental`
  unfoldable pub goals : State Score → Goals
  goals s =
      let inference_floor = max 1 (ceil_inference s.total_gpus) in
      let rental_floor = max 1 (ceil_rental s.total_gpus) in
      let flex_pool = s.total_gpus - (inference_floor + rental_floor) in
      (
        inference_floor + flex_to_inference flex_pool s,
        rental_floor + (flex_pool - flex_to_inference flex_pool s),
      )

  -- The GPUs that leave the idle ones: `inference_add` and `rental_add`.
  unfoldable pub additions : Goals → State Score → ℕ × ℕ
  additions (to_inference, to_rental) s =
      let inference_add = min (to_inference - min s.inference_gpus s.total_gpus) s.idle_gpus in
      (
        inference_add,
        min (to_rental - min s.rental_gpus s.total_gpus) (s.idle_gpus - inference_add),
      )

  unfoldable pub rebalanced : ℕ → Assignments → ℕ × ℕ → State Score → State Score × List Event
  rebalanced now d (inference_add, rental_add) s = (
    record s {
      inference_gpus = min s.inference_gpus s.total_gpus + inference_add;
      rental_gpus = min s.rental_gpus s.total_gpus + rental_add;
      idle_gpus = s.idle_gpus - inference_add - rental_add;
      inference_assignments = d;
      last_rebalanced_at = now;
    },
    map (backfill d) (
        moves s inference (min s.inference_gpus s.total_gpus) inference_add
        ++ moves s rental (min s.rental_gpus s.total_gpus) rental_add),
  )

  abbrev pub with_assignments :
      ℕ → ℕ × ℕ → State Score → Option Assignments → Option (State Score × List Event)
  with_assignments now add s none = none
  with_assignments now add s (some d) = some (rebalanced now d add s)

  -- `rebalance`; `none` is a loop of assign_catalog_models that has not ended.
  unfoldable pub rebalance :
      ℕ
      → State Score
      → List Entry
      → Option ℕ
      → Targets
      → List String
      → Option (State Score × List Event)
  rebalance now s catalog vram targets pins =
      if s.total_gpus == 0
      then some (s, [])
      else (let add = additions (goals s) s in
          with_assignments now add s
            (assigned catalog vram targets pins (min s.inference_gpus s.total_gpus + add.0)))
