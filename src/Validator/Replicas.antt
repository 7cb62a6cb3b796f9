-- ===== src/Validator/Replicas.antt =====
-- domain/multinode.py: the rows of a replica, their order on teardown, what is done with them, and the
-- checks of a configuration. A row is a dict; a missing state, multi_node or rank is `none`.
pub mod Rounds
pub mod Keeps
use greencompute_api.Prelude.{
  ℕ, zero, suc, ◌%◌, String, Bool, true, false, not, ◌&&◌, ◌||◌, Option, none, some, List, [], ◌∷◌,
  ◌++◌, map, select, length, ◌==◌, nat_eq, string_eq, if◌then◌else◌, ltb, leb,
}
use greencompute_api.Prelude.Dict.{Dict}
use greencompute_api.Prelude.Groups.{group_by}
use greencompute_api.Prelude.Sort.{sorted}
use greencompute_api.Prelude.Text.{same_text}
use greencompute_api.Validator.Flux.{range}
use greencompute_api.Validator.MultiNode.{Speeds, Config, RankedNode, Plan}

-- The payload of a row, as far as this code reads it again.
pub record MultiNode : Type 0 where
  pub replica_id : String
  pub role : String
  pub rank : Option ℕ
  pub node_count : ℕ
  pub gpus_per_node : ℕ
  pub tensor_parallel_size : ℕ
  pub pipeline_parallel_size : ℕ
  pub head_host : String
  pub model_id : String

pub record Row : Type 0 where
  pub hotkey : String
  pub node_id : String
  pub multi_node : Option MultiNode
  pub state : Option String

abbrev pub rank_before : RankedNode → RankedNode → Bool
rank_before a b = leb a.rank b.rank

-- The row of one assignment; `is_head` is the protocol's property of an assignment.
abbrev pub row_of : (RankedNode → Bool) → Plan → String → String → ℕ → RankedNode → Row
row_of is_head plan replica_id head_host gpus a = record {
  hotkey = a.hotkey;
  node_id = a.node_id;
  multi_node = some (record {
    replica_id = replica_id;
    role = if is_head a then "head" else "worker";
    rank = some a.rank;
    node_count = length plan.assignments;
    gpus_per_node = gpus;
    tensor_parallel_size = plan.tensor_parallel_size;
    pipeline_parallel_size = plan.pipeline_parallel_size;
    head_host = head_host;
    model_id = plan.model_id;
  });
  state = none;
}

-- `build_replica_rows`
unfoldable pub build_replica_rows : (RankedNode → Bool) → Plan → String → String → ℕ → List Row
build_replica_rows is_head plan replica_id head_host gpus =
    map (row_of is_head plan replica_id head_host gpus) (sorted rank_before plan.assignments)

-- `s in words`, of a state that may be missing.
abbrev pub is_any : List String → Option String → Bool
is_any words none = false
is_any [] (some s) = false
is_any (w ∷ ws) (some s) = s == w || is_any ws (some s)

abbrev pub states_ready : List String → Bool
states_ready [] = true
states_ready (s ∷ ss) = s == "ready" && states_ready ss

-- `replica_is_ready`
unfoldable pub replica_is_ready : List String → Bool
replica_is_ready [] = false
replica_is_ready (s ∷ ss) = states_ready (s ∷ ss)

abbrev pub role_worker : Option MultiNode → Bool
role_worker none = false
role_worker (some m) = m.role == "worker"

abbrev pub is_worker : Row → Bool
is_worker r = role_worker r.multi_node

-- The order of the key 0 for a worker and 1 for any other row.
abbrev pub drains_before : Row → Row → Bool
drains_before a b = is_worker a || not (is_worker b)

-- `teardown_order`
unfoldable pub teardown_order : List Row → List Row
teardown_order rows = sorted drains_before rows

pub data Action : Type 0 where
  keep rebuild create : Action

-- LIVE_STATES
abbrev pub live_states : List String
live_states = "ready" ∷ "starting" ∷ "pulling" ∷ "scheduled" ∷ "provisioning" ∷ "pending" ∷ []

abbrev pub is_live : Row → Bool
is_live r = is_any live_states r.state

abbrev pub rank_in : Option MultiNode → Option ℕ
rank_in none = none
rank_in (some m) = m.rank

abbrev pub rank_of : Row → Option ℕ
rank_of r = rank_in r.multi_node

-- The ranks, when none of them is None.
abbrev pub numbers : List (Option ℕ) → Option (List ℕ)
numbers [] = some []
numbers (none ∷ rs) = none
numbers (some r ∷ rs) = elim (numbers rs) [ none ↦ none | some ns ↦ some (r ∷ ns) ]

-- `sorted(ranks) != list(range(node_count))`; two values of which one is None do not compare, which
-- raises a TypeError, here `none`.
abbrev pub compare_ranks : ℕ → Option (List ℕ) → Option Action
compare_ranks n none = none
compare_ranks n (some ns) = some (if same_text (sorted leb ns) (range 0 n) then keep else rebuild)

unfoldable pub by_ranks : ℕ → List (Option ℕ) → Option Action
by_ranks n (none ∷ []) = some rebuild
by_ranks n rs = compare_ranks n (numbers rs)

abbrev pub no_live : List Row → Action
no_live [] = create
no_live (r ∷ rs) = rebuild

unfoldable pub by_live : List Row → List Row → ℕ → Option Action
by_live rows [] n = some (no_live rows)
by_live rows (l ∷ live) n =
    if not (length (l ∷ live) == length rows)
    then some rebuild
    else if not (length (l ∷ live) == n)
    then some rebuild
    else by_ranks n (map rank_of (l ∷ live))

-- `replica_action`
unfoldable pub replica_action : List Row → ℕ → Option Action
replica_action rows n = by_live rows (select is_live rows) n

abbrev pub replica_in : Option MultiNode → Option String
replica_in none = none
replica_in (some m) = if m.replica_id == "" then none else some m.replica_id

-- `group_by_replica`
unfoldable pub group_by_replica : List Row → Dict String (List Row)
group_by_replica rows = group_by (λ (r : Row). replica_in r.multi_node) rows []

pub data Problem : Type 0 where
  tensor_above_node indivisible pipeline_not_nodes no_floor unknown_backend : Problem

abbrev pub problem_if : Bool → Problem → List Problem
problem_if b p = if b then p ∷ [] else []

-- `validate_topology`; `none` is the ZeroDivisionError of `gpus_per_node % 0`.
unfoldable pub validate_topology : (speeds : Speeds) → Config speeds.Speed → Option (List Problem)
validate_topology speeds c =
    let tp = c.effective_tensor_parallel_size in
    let pp = c.effective_pipeline_parallel_size in
    if tp == 0
    then none
    else some (
        problem_if (ltb c.gpus_per_node tp) tensor_above_node
        ++ (problem_if (not (c.gpus_per_node % tp == 0)) indivisible
            ++ (problem_if (not (pp == c.node_count)) pipeline_not_nodes
                ++ (problem_if
                      (c.is_distributed && speeds.le c.min_interconnect_gbps speeds.zero_speed)
                      no_floor
                    ++ problem_if (not (is_any ("ray" ∷ "vllm-native" ∷ []) (some c.backend)))
                        unknown_backend))))
