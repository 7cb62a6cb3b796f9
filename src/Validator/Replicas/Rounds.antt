-- ===== src/Validator/Replicas/Rounds.antt =====
-- The rows that build_replica_rows makes of a plan, read back by replica_action.
use greencompute_api.Prelude.{
  ℕ, zero, suc, ◌+◌, ◌≤◌, ◌≡◌, refl, sym, ◌∙◌, ap, String, Bool, true, Option, some, List, [], ◌∷◌,
  map, select, length, ◌==◌, nat_eq, leb, arith,
}
use greencompute_api.Prelude.Sort.{sorted, InOrder, sorted-InOrder}
use greencompute_api.Prelude.Text.{same_text, same_text_iff}
use greencompute_api.Validator.Flux.{range}
use greencompute_api.Validator.MultiNode.{
  Speeds, NodeCandidate, Config, RankedNode, Plan, with_ranks, plan_multi_node_placement,
}
use greencompute_api.Validator.MultiNode.Plans.{plan_multi_node_placement-IsReplica}
use greencompute_api.Validator.Replicas.{
  Row, rank_before, row_of, build_replica_rows, live_states, is_any, is_live, rank_of, keep,
  numbers, compare_ranks, by_ranks, by_live, replica_action,
}

with_ranks-InOrder :
    (gpus rank : ℕ) (ns : List NodeCandidate) → InOrder rank_before (with_ranks gpus rank ns)
unfolding with_ranks
with_ranks-InOrder gpus rank [] = tt
with_ranks-InOrder gpus rank (n ∷ []) = tt
with_ranks-InOrder gpus rank (n ∷ m ∷ ns) =
    (ground arith, with_ranks-InOrder gpus (rank + 1) (m ∷ ns))

range-InOrder : (start n : ℕ) → InOrder leb (range start n)
range-InOrder start zero = tt
range-InOrder start (suc zero) = tt
range-InOrder start (suc (suc n)) = (ground arith, range-InOrder (start + 1) (suc n))

length-with_ranks :
    (gpus rank : ℕ) (ns : List NodeCandidate) → length (with_ranks gpus rank ns) ≡ length ns
unfolding with_ranks
length-with_ranks gpus rank [] = refl
length-with_ranks gpus rank (n ∷ ns) = omega (arith, length-with_ranks gpus (rank + 1) ns)

equal_refl : (n : ℕ) → (n == n) ≡ true
equal_refl n = ground arith

range_kept : (n : ℕ) → same_text (sorted leb (range 0 n)) (range 0 n) ≡ true
range_kept n =
    (same_text_iff (sorted leb (range 0 n)) (range 0 n)).1
      (sorted-InOrder leb (range 0 n) (range-InOrder 0 n))

compare_ranks-keep :
    (n : ℕ) (o : Option (List ℕ)) → o ≡ some (range 0 n) → compare_ranks n o ≡ some keep
compare_ranks-keep n o e = rw (e, range_kept n) refl

by_ranks-keep :
    (n r : ℕ) (rs ranks : List (Option ℕ))
    → ranks ≡ some r ∷ rs
    → numbers ranks ≡ some (range 0 n)
    → by_ranks n ranks ≡ some keep
unfolding by_ranks
by_ranks-keep n r rs ranks same e =
    rw same (compare_ranks-keep n (numbers (some r ∷ rs)) (ap numbers (sym same) ∙ e))

by_live-keep :
    (rows live : List Row) (l : Row) (n r : ℕ)
    → length (l ∷ live) ≡ length rows
    → length (l ∷ live) ≡ n
    → rank_of l ≡ some r
    → numbers (map rank_of (l ∷ live)) ≡ some (range 0 n)
    → by_live rows (l ∷ live) n ≡ some keep
unfolding by_live
by_live-keep rows live l n r all size ranked e =
    rw (← all, ← size, equal_refl (length (l ∷ live)))
      (by_ranks-keep (length (l ∷ live)) r (map rank_of live) (map rank_of (l ∷ live))
        (ap (λ o. o ∷ map rank_of live) ranked) (e ∙ ap (λ m. some (range 0 m)) (sym size)))

-- A row with the state that was reported for it.
abbrev pub with_state : (Row → String) → Row → Row
with_state state r = record r { state = some (state r) }

module _ (is_head : RankedNode → Bool) (plan : Plan) (id host : String) (gpus : ℕ)
    (state : Row → String) (live : (r : Row) → is_any live_states (some (state r)) ≡ true) where
  rows_of : List RankedNode → List Row
  rows_of ranked = map (with_state state) (map (row_of is_head plan id host gpus) ranked)

  rows-live : (ranked : List RankedNode) → select is_live (rows_of ranked) ≡ rows_of ranked
  unfolding rows_of
  rows-live [] = refl
  rows-live (a ∷ ranked) =
      rw (live (row_of is_head plan id host gpus a))
        (ap (λ l. with_state state (row_of is_head plan id host gpus a) ∷ l) (rows-live ranked))

  rows-numbers :
      (g rank : ℕ) (ns : List NodeCandidate)
      → numbers (map rank_of (rows_of (with_ranks g rank ns))) ≡ some (range rank (length ns))
  unfolding rows_of with_ranks
  rows-numbers g rank [] = refl
  rows-numbers g rank (n ∷ ns) = rw (rows-numbers g (rank + 1) ns) refl

  length-rows : (ranked : List RankedNode) → length (rows_of ranked) ≡ length ranked
  unfolding rows_of
  length-rows [] = refl
  length-rows (a ∷ ranked) = omega (arith, length-rows ranked)

  rows-keep :
      (g : ℕ) (ns : List NodeCandidate)
      → 1 ≤ length ns
      → replica_action (rows_of (with_ranks g 0 ns)) (length ns) ≡ some keep
  unfolding replica_action rows_of with_ranks
  rows-keep g [] h = absurd (omega arith)
  rows-keep g (n ∷ ns) h = rw (rows-live (with_ranks g 0 (n ∷ ns))) (
      by_live-keep (rows_of (with_ranks g 0 (n ∷ ns))) _ _ (length (n ∷ ns)) 0 refl
        (length-rows (with_ranks g 0 (n ∷ ns)) ∙ length-with_ranks g 0 (n ∷ ns)) refl
        (rows-numbers g 0 (n ∷ ns)))

-- The rows that `build_replica_rows` makes of a plan of `plan_multi_node_placement`, each reported in
-- a live state, are a replica of node_count nodes that `replica_action` keeps.
pub build_replica_rows-keep :
    (speeds : Speeds) (model_id : String) (config : Config speeds.Speed) (vram : ℕ)
    (candidates : List NodeCandidate) (plan : Plan) (is_head : RankedNode → Bool) (id host : String)
    (gpus : ℕ) (state : Row → String)
    → plan_multi_node_placement speeds model_id config vram candidates ≡ some plan
    → 1 ≤ config.node_count
    → ((r : Row) → is_any live_states (some (state r)) ≡ true)
    → replica_action
        (map (with_state state) (build_replica_rows is_head plan id host gpus))
        config.node_count
      ≡ some keep
unfolding build_replica_rows rows_of
build_replica_rows-keep speeds model_id config vram candidates plan is_head id host gpus state
      planned nodes live =
    let (ns, k, same, size, inside, times) =
      plan_multi_node_placement-IsReplica speeds model_id config vram candidates plan planned in
    let order : sorted rank_before plan.assignments ≡ with_ranks config.gpus_per_node 0 ns =
      ap (sorted rank_before) same
      ∙ sorted-InOrder rank_before _ (with_ranks-InOrder config.gpus_per_node 0 ns) in
    rw (order, ← size)
      (rows-keep is_head plan id host gpus state live config.gpus_per_node ns (omega (arith, size)))
