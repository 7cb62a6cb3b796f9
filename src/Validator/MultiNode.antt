-- ===== src/Validator/MultiNode.antt =====
-- domain/multinode.py: which nodes form a distributed replica, and in what order. MultiNodeConfig,
-- MultiNodePlan and MultiNodeNodeAssignment are the protocol's: `Config`, `Plan` and `RankedNode` have
-- the columns and the computed properties that the code reads.
pub mod Plans
use greencompute_api.Prelude.{
  ℕ, zero, suc, ◌+◌, ◌-◌, ◌≡◌, refl, ◌↔◌, ◌⊎◌, ap, String, Bool, true, false, not, ◌&&◌, ◌||◌,
  Option, none, some, List, [], ◌∷◌, map, select, take, length, sum_by, ◌==◌, nat_eq, string_eq,
  HasEquality, eq_iff, if◌then◌else◌, ltb, leb, arith,
}
use greencompute_api.Prelude.Dict.{Dict, lookup}
use greencompute_api.Prelude.Groups.{group_by}
use greencompute_api.Prelude.Sort.{sorted}
use greencompute_api.Prelude.Text.{codes, lower, strip, truthy, text_leb, same_text, same_text_iff}

-- Python's floats as the link speeds are: `float(s)` may fail, and `<=`.
pub record Speeds : Type 1 where
  pub Speed : Type 0
  pub zero_speed : Speed
  pub float : String → Option Speed
  pub le : Speed → Speed → Bool

pub record NodeCandidate : Type 0 where
  pub hotkey : String
  pub node_id : String
  pub available_gpus : ℕ
  pub vram_gb_per_gpu : ℕ
  pub gpu_model : String
  pub labels : Dict String String

pub record Config (Speed : Type 0) : Type 0 where
  pub node_count : ℕ
  pub gpus_per_node : ℕ
  pub min_interconnect_gbps : Speed
  pub is_distributed : Bool
  pub effective_tensor_parallel_size : ℕ
  pub effective_pipeline_parallel_size : ℕ
  pub backend : String

pub record RankedNode : Type 0 where
  pub hotkey : String
  pub node_id : String
  pub rank : ℕ
  pub gpu_count : ℕ

pub record Plan : Type 0 where
  pub model_id : String
  pub assignments : List RankedNode
  pub tensor_parallel_size : ℕ
  pub pipeline_parallel_size : ℕ
  pub backend : String

-- Operator, fabric, hardware.
abbrev pub GroupKey : Type 0
GroupKey = String × String × List ℕ × ℕ

abbrev pub key_equal : GroupKey → GroupKey → Bool
key_equal (a, b, c, d) (a', b', c', d') = a == a' && b == b' && same_text c c' && d == d'

pub key_equal_iff : (k j : GroupKey) → (key_equal k j ≡ true) ↔ (k ≡ j)
key_equal_iff (a, b, c, d) (a', b', c', d') =
    ground (arith, eq_iff a a', eq_iff b b', same_text_iff c c')

instance abbrev pub group_key_eq : HasEquality GroupKey
group_key_eq = record { equal = key_equal; equal_iff = key_equal_iff }

abbrev pub text_of : Option String → String
text_of none = ""
text_of (some s) = s

-- `domain`
abbrev pub domain : NodeCandidate → String
domain n =
    let label = lookup "interconnect_domain" n.labels in
    if truthy label then text_of label else n.hotkey

-- `_group_key`
unfoldable pub _group_key : NodeCandidate → GroupKey
_group_key n = (n.hotkey, domain n, lower (codes n.gpu_model), n.vram_gb_per_gpu)

abbrev pub is_word : List ℕ → List String → Bool
is_word text [] = false
is_word text (w ∷ ws) = same_text text (codes w) || is_word text ws

-- `serves_ingress`
unfoldable pub serves_ingress : NodeCandidate → Bool
serves_ingress n =
    is_word (lower (codes (strip (text_of (lookup "serves_ingress" n.labels)))))
      ("1" ∷ "true" ∷ "yes" ∷ [])

-- `head_address`
unfoldable pub head_address : NodeCandidate → String
head_address n = strip (text_of (lookup "cluster_ip" n.labels))

-- `range(n)` with the nodes: their ranks, from `rank` on.
unfoldable pub with_ranks : ℕ → ℕ → List NodeCandidate → List RankedNode
with_ranks gpus rank [] = []
with_ranks gpus rank (n ∷ ns) =
    record { hotkey = n.hotkey; node_id = n.node_id; rank = rank; gpu_count = gpus }
    ∷ with_ranks gpus (rank + 1) ns

-- The order of `key=lambda n: (not serves_ingress(n), -n.available_gpus, n.node_id)`.
unfoldable pub ranks_before : NodeCandidate → NodeCandidate → Bool
ranks_before a b =
    if serves_ingress a
    then not (serves_ingress b) || roomier a b
    else not (serves_ingress b) && roomier a b
  where
    roomier : NodeCandidate → NodeCandidate → Bool
    roomier a b =
        ltb b.available_gpus a.available_gpus
        || (a.available_gpus == b.available_gpus && text_leb (codes a.node_id) (codes b.node_id))

abbrev pub values : {K : Type 0} {V : Type 0} → Dict K V → List V
values [] = []
values ((k, v) ∷ d) = v ∷ values d

abbrev pub has_nodes : ℕ → List NodeCandidate → Bool
has_nodes n g = leb n (length g)

abbrev pub first_of : {A : Type 0} → List A → Option A
first_of [] = none
first_of (x ∷ xs) = some x

module _ (speeds : Speeds) where
  open speeds use {Speed, zero_speed, float, le}

  abbrev speed_or_zero : Option Speed → Speed
  speed_or_zero none = zero_speed
  speed_or_zero (some s) = s

  abbrev parsed : Option String → Option Speed
  parsed none = none
  parsed (some s) = float s

  -- `interconnect_gbps`
  unfoldable pub interconnect_gbps : NodeCandidate → Speed
  interconnect_gbps n = speed_or_zero (parsed (lookup "interconnect_gbps" n.labels))

  -- `_eligible`
  unfoldable pub _eligible : Config Speed → ℕ → NodeCandidate → Bool
  _eligible config min_vram_gb n =
      leb config.gpus_per_node n.available_gpus
      && leb min_vram_gb n.vram_gb_per_gpu
      && le config.min_interconnect_gbps (interconnect_gbps n)

  -- `min(n.interconnect_gbps for n in group)`: the first of the least.
  unfoldable pub slowest : Speed → List NodeCandidate → Speed
  slowest s [] = s
  slowest s (n ∷ ns) = slowest (if le s (interconnect_gbps n) then s else interconnect_gbps n) ns

  -- The order of `group_rank` on groups with a node: spare GPUs, the slowest link, the first node's
  -- hotkey and domain.
  unfoldable pub group_before : List NodeCandidate → List NodeCandidate → Bool
  group_before [] h = true
  group_before (a ∷ ns) [] = false
  group_before (a ∷ ns) (b ∷ ms) =
      let spare = sum_by (λ (n : NodeCandidate). n.available_gpus) (a ∷ ns) in
      let other = sum_by (λ (n : NodeCandidate). n.available_gpus) (b ∷ ms) in
      let link = slowest (interconnect_gbps a) ns in
      let other_link = slowest (interconnect_gbps b) ms in
      ltb other spare
      || (spare == other
          && (not (le link other_link)
              || (le other_link link
                  && (not (text_leb (codes b.hotkey) (codes a.hotkey))
                      || (a.hotkey == b.hotkey
                          && text_leb (codes (domain a)) (codes (domain b)))))))

  -- `groups.values()`
  unfoldable pub groups_of : List NodeCandidate → List (List NodeCandidate)
  groups_of eligible = values (group_by (λ n. some (_group_key n)) eligible [])

  -- `chosen_group`, when a group is viable.
  unfoldable pub chosen_group : Config Speed → ℕ → List NodeCandidate → Option (List NodeCandidate)
  chosen_group config min_vram_gb candidates = first_of (
      sorted group_before (
        select (has_nodes config.node_count)
          (groups_of (select (_eligible config min_vram_gb) candidates))))

  unfoldable pub plan_of : String → Config Speed → List NodeCandidate → Plan
  plan_of model_id config group = record {
    model_id = model_id;
    assignments =
        with_ranks config.gpus_per_node 0 (take config.node_count (sorted ranks_before group));
    tensor_parallel_size = config.effective_tensor_parallel_size;
    pipeline_parallel_size = config.effective_pipeline_parallel_size;
    backend = config.backend;
  }

  -- `plan_multi_node_placement`
  unfoldable pub plan_multi_node_placement :
      String → Config Speed → ℕ → List NodeCandidate → Option Plan
  plan_multi_node_placement model_id config min_vram_gb candidates =
      if not config.is_distributed
      then none
      else elim (chosen_group config min_vram_gb candidates) [
        | none ↦ none
        | some group ↦ some (plan_of model_id config group)
      ]
