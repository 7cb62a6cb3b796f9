-- ===== src/Validator/ReplicaTests.antt =====
-- The theorems on distributed replicas at concrete inputs: two boxes of one operator on one fabric,
-- and a third one that belongs to somebody else.
use mathlib.Core.List.{Memᴰ}
use greencompute_api.Prelude.{
  ℕ, ◌≡◌, refl, ◌↔◌, true, Bool, String, some, none, List, [], ◌∷◌, map, arith, leb, string_eq,
  nat_eq, ◌==◌, if◌then◌else◌,
}
use greencompute_api.Prelude.Groups.{group_by}
use greencompute_api.Prelude.Sort.{sorted}
use greencompute_api.Prelude.Text.{same_text, lower, text_leb, strip}
use greencompute_api.Validator.MultiNode.{
  Speeds, NodeCandidate, Config, RankedNode, Plan, plan_multi_node_placement, chosen_group, plan_of,
  with_ranks, _eligible, interconnect_gbps, groups_of, group_before, ranks_before, slowest,
  _group_key, serves_ingress,
}
use greencompute_api.Validator.MultiNode.Plans.{
  IsReplica, plan_multi_node_placement-IsReplica, plan_multi_node_placement-some,
}
use greencompute_api.Validator.Replicas.{
  Row, teardown_order, keep, rebuild, replica_action, by_live, by_ranks, build_replica_rows,
  validate_topology,
}
use greencompute_api.Validator.Replicas.Rounds.{with_state, build_replica_rows-keep}
use greencompute_api.Validator.Replicas.Keeps.{
  IsComplete, replica_action-IsComplete, teardown_order-select, IsServable,
  validate_topology-IsServable,
}

-- Speeds by whole Gbps; the only label that parses is "10".
abbrev by_gbps : Speeds
by_gbps = record {
  Speed = ℕ;
  zero_speed = 0;
  float = λ s. if s == "10" then some 10 else none;
  le = leb;
}

abbrev box : String → String → ℕ → NodeCandidate
box hotkey id gpus = record {
  hotkey = hotkey;
  node_id = id;
  available_gpus = gpus;
  vram_gb_per_gpu = 32;
  gpu_model = "RTX 5090";
  labels = ("interconnect_gbps", "10") ∷ [];
}

abbrev boxes : List NodeCandidate
boxes = box "h" "a" 8 ∷ box "g" "b" 8 ∷ box "h" "c" 8 ∷ []

abbrev config : Config ℕ
config = record {
  node_count = 2;
  gpus_per_node = 8;
  min_interconnect_gbps = 5;
  is_distributed = true;
  effective_tensor_parallel_size = 8;
  effective_pipeline_parallel_size = 2;
  backend = "ray";
}

abbrev planned : Plan
planned = record {
  model_id = "m";
  assignments =
      record { hotkey = "h"; node_id = "a"; rank = 0; gpu_count = 8 }
      ∷ record { hotkey = "h"; node_id = "c"; rank = 1; gpu_count = 8 }
      ∷ [];
  tensor_parallel_size = 8;
  pipeline_parallel_size = 2;
  backend = "ray";
}

plan_found : plan_multi_node_placement by_gbps "m" config 24 boxes ≡ some planned
unfolding plan_multi_node_placement chosen_group sorted groups_of group_by _eligible
    interconnect_gbps _group_key same_text lower ranks_before group_before slowest with_ranks
    plan_of serves_ingress text_leb strip
plan_found = refl

plan_multi_node_placement-IsReplica_example : IsReplica by_gbps config 24 boxes planned
plan_multi_node_placement-IsReplica_example =
    plan_multi_node_placement-IsReplica by_gbps "m" config 24 boxes planned plan_found

fits : _eligible by_gbps config 24 (box "h" "a" 8) ≡ true
unfolding _eligible interconnect_gbps
fits = refl

plan_multi_node_placement-some_example :
    (plan : Plan) × (plan_multi_node_placement by_gbps "m" config 24 boxes ≡ some plan)
unfolding _eligible interconnect_gbps _group_key same_text lower
plan_multi_node_placement-some_example =
    plan_multi_node_placement-some by_gbps "m" config 24 boxes (box "h" "a" 8) refl (Memᴰ.head refl)
      fits (omega arith)

abbrev is_rank_0 : RankedNode → Bool
is_rank_0 a = leb a.rank 0

build_replica_rows-keep_example :
    replica_action
      (map (with_state (λ r. "starting")) (build_replica_rows is_rank_0 planned "r" "10.0.0.1" 8))
      2
    ≡ some keep
build_replica_rows-keep_example =
    build_replica_rows-keep by_gbps "m" config 24 boxes planned is_rank_0 "r" "10.0.0.1" 8
      (λ r. "starting") plan_found (omega arith) (λ r. refl)

abbrev rank_row : ℕ → String → Row
rank_row rank state = record {
  hotkey = "h";
  node_id = "a";
  multi_node = some (record {
    replica_id = "r";
    role = if rank == 0 then "head" else "worker";
    rank = some rank;
    node_count = 2;
    gpus_per_node = 8;
    tensor_parallel_size = 8;
    pipeline_parallel_size = 2;
    head_host = "10.0.0.1";
    model_id = "m";
  });
  state = some state;
}

kept : replica_action (rank_row 1 "ready" ∷ rank_row 0 "pulling" ∷ []) 2 ≡ some keep
unfolding replica_action by_live by_ranks same_text sorted
kept = refl

dead_rank : replica_action (rank_row 1 "failed" ∷ rank_row 0 "ready" ∷ []) 2 ≡ some rebuild
unfolding replica_action by_live
dead_rank = refl

replica_action-IsComplete_example : IsComplete (rank_row 1 "ready" ∷ rank_row 0 "pulling" ∷ []) 2
replica_action-IsComplete_example =
    replica_action-IsComplete (rank_row 1 "ready" ∷ rank_row 0 "pulling" ∷ []) 2 kept

teardown_order-select_example :
    teardown_order (rank_row 0 "ready" ∷ rank_row 1 "ready" ∷ [])
    ≡ rank_row 1 "ready" ∷ rank_row 0 "ready" ∷ []
teardown_order-select_example = teardown_order-select (rank_row 0 "ready" ∷ rank_row 1 "ready" ∷ [])

validate_topology-IsServable_example :
    (validate_topology by_gbps config ≡ some []) ↔ IsServable by_gbps config
validate_topology-IsServable_example = validate_topology-IsServable by_gbps config (omega arith)
