-- ===== src/Validator/Replicas/Keeps.antt =====
-- What replica_action keeps, the order of teardown_order, and the problems of validate_topology.
use greencompute_api.Prelude.{
  ℕ, zero, suc, ◌+◌, ◌≤◌, ◌%◌, ◌≡◌, refl, sym, ◌∙◌, ap, ◌↔◌, Bool, true, false, not, ◌&&◌, Option,
  none, some, List, [], ◌∷◌, ◌++◌, map, select, length, sum_by, ◌==◌, nat_eq, string_eq,
  nat_beq_iff, if◌then◌else◌, ltb, leb, arith, if-cases, inl, inr, Bool-cases, Option-cases, All,
}
use greencompute_api.Prelude.Sort.{sorted, sorted-select, sum_by-sorted}
use greencompute_api.Prelude.Text.{same_text, same_text_iff}
use greencompute_api.Validator.Flux.{range}
use greencompute_api.Validator.MultiNode.{Speeds, Config}
use greencompute_api.Validator.Replicas.{
  Row, is_worker, drains_before, teardown_order, is_live, rank_of, Action, keep, rebuild, numbers,
  compare_ranks, by_ranks, by_live, replica_action, problem_if, is_any, tensor_above_node,
  indivisible, pipeline_not_nodes, no_floor, unknown_backend, validate_topology,
}

-- `teardown_order` puts the rows of the workers in front of all others, each part in its old order.
pub teardown_order-select :
    (rows : List Row)
    → teardown_order rows ≡ select is_worker rows ++ select (λ r. not (is_worker r)) rows
unfolding teardown_order
teardown_order-select rows = sorted-select drains_before is_worker (λ a b. refl) rows

abbrev is_rank : ℕ → Option ℕ → ℕ
is_rank i none = 0
is_rank i (some r) = if r == i then 1 else 0

-- The rows with a rank.
abbrev pub times_rank : ℕ → List Row → ℕ
times_rank i rows = sum_by (is_rank i) (map rank_of rows)

numbers-times :
    (i : ℕ) (rs : List (Option ℕ)) (ns : List ℕ)
    → numbers rs ≡ some ns
    → sum_by (λ r. is_rank i (some r)) ns ≡ sum_by (is_rank i) rs
numbers-times i [] [] e = refl
numbers-times i [] (n ∷ ns) e = absurd (cc)
numbers-times i (none ∷ rs) ns e = absurd (cc)
numbers-times i (some r ∷ rs) ns e = elim (Option-cases (numbers rs)) [
  | inl fails ↦ absurd (fail_cases (rw fails at e))
  | inr (ms, runs) ↦
      let same : some (r ∷ ms) ≡ some ns = rw runs at e in
      let list : r ∷ ms ≡ ns = cc in rw (← list) (omega (arith, numbers-times i rs ms runs))
]
  where
    fail_cases : {ns : List ℕ} → none ≡ some ns → ⊥
    fail_cases e = absurd (cc)

times-range :
    (i start n : ℕ)
    → sum_by (λ r. is_rank i (some r)) (range start n)
      ≡ (if leb start i && ltb i (start + n) then 1 else 0)
times-range i start zero = ground arith
times-range i start (suc n) = ground (arith, times-range i (start + 1) n)

length-select : (rows : List Row) → length (select is_live rows) ≤ length rows
length-select [] = omega arith
length-select (r ∷ rows) =
    let rest = length-select rows in
    if-cases (λ l. length l ≤ length (r ∷ rows)) (is_live r) (λ _. omega (arith, rest))
      (λ _. omega (arith, rest))

length-select-All :
    (rows : List Row)
    → length (select is_live rows) ≡ length rows
    → All (λ r. is_live r ≡ true) rows × (select is_live rows ≡ rows)
length-select-All [] e = (tt, refl)
length-select-All (r ∷ rows) e = elim (Bool-cases (is_live r)) [
  | inl live ↦
      let rest = length-select-All rows (omega (arith, rw live at e)) in
      ((live, rest.0), rw live (ap (λ l. r ∷ l) rest.1))
  | inr dead ↦ absurd (omega (arith, rw dead at e, length-select rows))
]

-- Every row is live, there are `n` of them, and each rank below `n` stands on exactly one.
abbrev pub IsComplete : List Row → ℕ → Type 0
IsComplete rows n =
    All (λ r. is_live r ≡ true) rows
    × (length rows ≡ n)
    × ((i : ℕ) → times_rank i rows ≡ (if ltb i n then 1 else 0))

compare-keep :
    (n : ℕ) (o : Option (List ℕ))
    → compare_ranks n o ≡ some keep
    → (ns : List ℕ) × (o ≡ some ns) × (sorted leb ns ≡ range 0 n)
compare-keep n none = λ e. absurd (cc)
compare-keep n (some ns) =
    if-cases
      (λ a. some a ≡ some keep → (ms : List ℕ) × (some ns ≡ some ms) × (sorted leb ms ≡ range 0 n))
      (same_text (sorted leb ns) (range 0 n))
      (λ same e. (ns, refl, (same_text_iff (sorted leb ns) (range 0 n)).0 same))
      (λ _ e. absurd (cc))

ranked :
    (n : ℕ) (rs : List (Option ℕ))
    → (ns : List ℕ) × (numbers rs ≡ some ns) × (sorted leb ns ≡ range 0 n)
    → (i : ℕ) → sum_by (is_rank i) rs ≡ (if ltb i n then 1 else 0)
ranked n rs (ns, runs, order) i =
    let f : ℕ → ℕ = λ r. is_rank i (some r) in
    sym (numbers-times i rs ns runs)
    ∙ sym (sum_by-sorted leb f ns)
    ∙ ap (sum_by f) order
    ∙ times-range i 0 n
    ∙ sym (from_zero i n)
  where
    one_below : ℕ → ℕ → ℕ
    one_below i n = if ltb i n then 1 else 0

    from_zero : (i n : ℕ) → one_below i n ≡ (if leb 0 i && ltb i (0 + n) then 1 else 0)
    from_zero i n = ground arith

by_ranks-times :
    (n : ℕ) (rs : List (Option ℕ))
    → by_ranks n rs ≡ some keep
    → (i : ℕ) → sum_by (is_rank i) rs ≡ (if ltb i n then 1 else 0)
unfolding by_ranks
by_ranks-times n (none ∷ []) e = absurd (cc)
by_ranks-times n [] e = ranked n [] (compare-keep n (numbers []) e)
by_ranks-times n (some r ∷ rs) e = ranked n (some r ∷ rs) (compare-keep n (numbers (some r ∷ rs)) e)
by_ranks-times n (none ∷ r ∷ rs) e = absurd (cc)

true_is_not : true ≡ false → ⊥
true_is_not e = absurd (cc)

both_hold :
    (a b : Bool) (x : Option Action)
    → (if not a then some rebuild else if not b then some rebuild else x) ≡ some keep
    → (a ≡ true) × (b ≡ true) × (x ≡ some keep)
both_hold true true x e = (refl, refl, e)
both_hold true false x e = absurd (cc)
both_hold false b x e = absurd (cc)

by_live-IsComplete :
    (rows live : List Row) (n : ℕ)
    → select is_live rows ≡ live
    → by_live rows live n ≡ some keep
    → IsComplete rows n
unfolding by_live
by_live-IsComplete [] [] n same e = absurd (cc)
by_live-IsComplete (r ∷ rows) [] n same e = absurd (cc)
by_live-IsComplete rows (l ∷ live) n same e =
    let (all, size, ranks) =
      both_hold (length (l ∷ live) == length rows) (length (l ∷ live) == n) _ e in
    let (alive, kept) = length-select-All rows (ap length same ∙ (nat_beq_iff _ _).0 all) in
    let list : l ∷ live ≡ rows = sym same ∙ kept in
    (
      alive,
      ap length (sym list) ∙ (nat_beq_iff _ _).0 size,
      λ i. by_ranks-times n (map rank_of rows) (rw (← list) ranks) i,
    )

-- When `replica_action` keeps a replica of `n` nodes, every one of its rows is live, there are `n` rows,
-- and every rank below `n` stands on exactly one of them, any other rank on none.
pub replica_action-IsComplete :
    (rows : List Row) (n : ℕ) → replica_action rows n ≡ some keep → IsComplete rows n
unfolding replica_action
replica_action-IsComplete rows n e = by_live-IsComplete rows (select is_live rows) n refl e

bare :
    {P Q R : Type 0} (p q r d b : Bool)
    → (p ≡ false) ↔ P
    → (q ≡ false) ↔ Q
    → (r ≡ false) ↔ R
    → (some (
          problem_if p tensor_above_node
          ++ (problem_if q indivisible
              ++ (problem_if r pipeline_not_nodes
                  ++ (problem_if d no_floor ++ problem_if (not b) unknown_backend))))
        ≡ some [])
      ↔ (P × Q × R × (d ≡ false) × (b ≡ true))
bare false false false false true f g h =
    (λ e. (f.0 refl, g.0 refl, h.0 refl, refl, refl), λ s. refl)
bare true q r d b f g h = (λ e. absurd (cc), λ s. absurd (true_is_not (f.1 s.0)))
bare false true r d b f g h = (λ e. absurd (cc), λ s. absurd (true_is_not (g.1 s.1)))
bare false false true d b f g h = (λ e. absurd (cc), λ s. absurd (true_is_not (h.1 s.2)))
bare false false false true b f g h = (λ e. absurd (cc), λ s. absurd (true_is_not s.3))
bare false false false false false f g h = (λ e. absurd (cc), λ s. absurd (true_is_not (sym s.4)))

-- The tensor parallel size fits into a node and divides its GPUs, the pipeline has one stage per node,
-- a distributed model has a link floor above 0, and the backend is known.
abbrev pub IsServable : (speeds : Speeds) → Config speeds.Speed → Type 0
IsServable speeds c =
    (c.effective_tensor_parallel_size ≤ c.gpus_per_node)
    × (c.gpus_per_node % c.effective_tensor_parallel_size ≡ 0)
    × (c.effective_pipeline_parallel_size ≡ c.node_count)
    × ((c.is_distributed && speeds.le c.min_interconnect_gbps speeds.zero_speed) ≡ false)
    × (is_any ("ray" ∷ "vllm-native" ∷ []) (some c.backend) ≡ true)

-- For a tensor parallel size above 0, `validate_topology` finds no problem exactly when that size is at
-- most gpus_per_node and divides it, the pipeline has one stage per node, a distributed model has a
-- link floor above 0, and the backend is known.
pub validate_topology-IsServable :
    (speeds : Speeds) (c : Config speeds.Speed)
    → 1 ≤ c.effective_tensor_parallel_size
    → (validate_topology speeds c ≡ some []) ↔ IsServable speeds c
unfolding validate_topology
validate_topology-IsServable speeds c h =
    let tp = c.effective_tensor_parallel_size in
    if-cases (λ o. (o ≡ some []) ↔ IsServable speeds c) (tp == 0) (λ e. absurd (ground arith))
      (λ _.
        bare (ltb c.gpus_per_node tp) (not (c.gpus_per_node % tp == 0))
          (not (c.effective_pipeline_parallel_size == c.node_count))
          (c.is_distributed && speeds.le c.min_interconnect_gbps speeds.zero_speed)
          (is_any ("ray" ∷ "vllm-native" ∷ []) (some c.backend)) (ground arith) (ground arith)
          (ground arith))
