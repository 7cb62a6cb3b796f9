-- ===== src/ControlPlane/Placement.antt =====
-- domain/scheduler.py: normalize_gpu_model, effective_available_gpus and PlacementPolicy.
pub mod Best
use greencompute_api.Prelude.{
  ℕ, ◌-◌, String, Bool, true, false, not, ◌&&◌, ◌||◌, ◌≡◌, ◌⊎◌, Option, none, some, List, [], ◌∷◌,
  map, if◌then◌else◌, leb, ltb, select, string_eq,
}
use greencompute_api.Prelude.Int.{ℤ, pos, sub_ℕ, ltb_ℤ, leb_ℤ}
use greencompute_api.Prelude.Dict.{Dict, lookup}
use greencompute_api.Prelude.Sort.{sorted}
use greencompute_api.ControlPlane.Reservations.{or_zero}
use greencompute_api.Prelude.Text.{allows_kind, alnum_lower, is_one_of}

-- Python's floats, as far as the score uses them: products and sums, a quotient, the literals as
-- numbers of tenths, and an order that is total and transitive on the scores of real nodes.
pub record Floats : Type 1 where
  pub Float : Type 0
  pub plus : Float → Float → Float
  pub times : Float → Float → Float
  pub over : Float → Float → Float
  pub tenths : ℕ → Float
  pub le : Float → Float → Bool
  pub le_total : (a b : Float) → (le a b ≡ true) ⊎ (le b a ≡ true)
  pub le_transitive : (a b c : Float) → le a b ≡ true → le b c ≡ true → le a c ≡ true

-- The protocol's NodeCapability and WorkloadSpec, as far as scheduling reads them.
pub record Node (F : Type 0) : Type 0 where
  pub hotkey : String
  pub node_id : String
  pub gpu_count : ℕ
  pub available_gpus : ℤ
  pub vram_gb_per_gpu : ℕ
  pub cpu_cores : ℕ
  pub memory_gb : ℕ
  pub gpu_model : String
  pub labels : Dict String String
  pub health_score : F
  pub reliability_score : F
  pub performance_score : F
  pub hourly_cost_usd : F

pub record Workload : Type 0 where
  pub workload_id : String
  pub kind : String
  pub gpu_count : ℕ
  pub min_vram_gb_per_gpu : ℕ
  pub cpu_cores : ℕ
  pub memory_gb : ℕ
  pub supported_gpu_models : List String

pub record Lease : Type 0 where
  pub deployment_id : String
  pub workload_id : String
  pub hotkey : String
  pub node_id : String

abbrev pub min_ℤ : ℤ → ℤ → ℤ
min_ℤ a b = if ltb_ℤ b a then b else a

abbrev pub label_or_empty : Option String → String
label_or_empty none = ""
label_or_empty (some s) = s

abbrev pub is_nil {ℓ} : {A : Type ℓ} → List A → Bool
is_nil [] = true
is_nil (x ∷ xs) = false

-- `effective_available_gpus`, with the total of each node in `reserved_by_node`.
unfoldable pub effective_available_gpus : {F : Type 0} → Node F → Dict String ℕ → ℤ
effective_available_gpus node reserved =
    min_ℤ node.available_gpus (sub_ℕ node.gpu_count (or_zero (lookup node.node_id reserved)))

-- The tests of `rank_nodes` that let a node be a candidate, in its order.
unfoldable pub is_candidate : {F : Type 0} → Workload → Dict String ℕ → Node F → Bool
unfolding effective_available_gpus
is_candidate w reserved node =
    allows_kind (label_or_empty (lookup "workload_kinds" node.labels)) w.kind
    && not (ltb_ℤ (effective_available_gpus node reserved) (pos w.gpu_count))
    && not (ltb node.vram_gb_per_gpu w.min_vram_gb_per_gpu)
    && not (ltb node.cpu_cores w.cpu_cores)
    && not (ltb node.memory_gb w.memory_gb)
    && (is_nil w.supported_gpu_models
        || is_one_of (alnum_lower node.gpu_model) w.supported_gpu_models)

module _ (fl : Floats) where
  open fl use {Float, plus, times, over, tenths, le}

  pub record RankedNode : Type 0 where
    pub node : Node Float
    pub score : Float

  -- health * 0.4 + reliability * 0.3 + performance * 0.2 + 1 / (1 + cost) * 0.1
  pub score : Node Float → Float
  score n =
      let cost = over (tenths 10) (plus (tenths 10) n.hourly_cost_usd) in
      plus
        (plus (plus (times n.health_score (tenths 4)) (times n.reliability_score (tenths 3)))
          (times n.performance_score (tenths 2)))
        (times cost (tenths 1))

  abbrev pub ranked : Node Float → RankedNode
  ranked n = record { node = n; score = score n }

  -- `sorted(candidates, key=lambda item: item.score, reverse=True)`
  abbrev pub ranks_before : RankedNode → RankedNode → Bool
  ranks_before a b = le b.score a.score

  -- `rank_nodes`
  unfoldable pub rank_nodes : Workload → List (Node Float) → Dict String ℕ → List RankedNode
  rank_nodes w nodes reserved =
      sorted ranks_before (map ranked (select (is_candidate w reserved) nodes))

  -- `assign_lease`
  abbrev pub lease_on_first : Workload → String → List RankedNode → Option Lease
  lease_on_first w d [] = none
  lease_on_first w d (r ∷ rest) = some (record {
    deployment_id = d;
    workload_id = w.workload_id;
    hotkey = r.node.hotkey;
    node_id = r.node.node_id;
  })

  unfoldable pub assign_lease : Workload → String → List (Node Float) → Dict String ℕ → Option Lease
  assign_lease w d nodes reserved = lease_on_first w d (rank_nodes w nodes reserved)
