-- ===== src/Validator/MultiNode/Plans.antt =====
-- Which nodes plan_multi_node_placement takes, and when it finds some.
use mathlib.Core.List.{Memᴰ}
use greencompute_api.Prelude.{
  ℕ, zero, suc, ◌+◌, ◌≤◌, ◌≡◌, refl, sym, ◌∙◌, ap, String, Bool, true, not, Option, none, some,
  List, [], ◌∷◌, select, take, length, length-take, sum_by, ◌==◌, string_eq, if◌then◌else◌, arith,
  if-cases, option-cases,
}
use greencompute_api.Prelude.Dict.{Dict, lookup}
use greencompute_api.Prelude.Groups.{
  group_by, group_by-select, group_by-UniqueKeys, mem-lookup, lookup-mem, or_nil,
}
use greencompute_api.Prelude.Members.{mem-select, select-mem, mem-take}
use greencompute_api.Prelude.Sort.{sorted, mem-sorted, sorted-mem, sum_by-sorted}
use greencompute_api.Validator.MultiNode.{
  Speeds, NodeCandidate, Config, Plan, GroupKey, group_key_eq, key_equal, key_equal_iff, _group_key,
  with_ranks, ranks_before, values, has_nodes, _eligible, group_before, groups_of, first_of,
  chosen_group, plan_of, plan_multi_node_placement,
}

-- The nodes of a list with an id.
abbrev pub times_in : String → List NodeCandidate → ℕ
times_in id = sum_by (λ (n : NodeCandidate). if n.node_id == id then 1 else 0)

sum_by-take : {A : Type 0} (f : A → ℕ) (n : ℕ) (xs : List A) → sum_by f (take n xs) ≤ sum_by f xs
sum_by-take f zero xs = omega arith
sum_by-take f (suc n) [] = omega arith
sum_by-take f (suc n) (x ∷ xs) = omega (arith, sum_by-take f n xs)

sum_by-select :
    {A : Type 0} (f : A → ℕ) (p : A → Bool) (xs : List A) → sum_by f (select p xs) ≤ sum_by f xs
sum_by-select f p [] = omega arith
sum_by-select f p (x ∷ xs) =
    let rest = sum_by-select f p xs in
    if-cases (λ l. sum_by f l ≤ f x + sum_by f xs) (p x) (λ _. omega (arith, rest))
      (λ _. omega (arith, rest))

length-sum_by : {A : Type 0} (xs : List A) → length xs ≡ sum_by (λ x. 1) xs
length-sum_by [] = refl
length-sum_by (x ∷ xs) = omega (arith, length-sum_by xs)

-- The nodes of a list with the key of a group.
abbrev pub of_group : GroupKey → List NodeCandidate → List NodeCandidate
of_group k = select (λ (n : NodeCandidate). key_equal k (_group_key n))

values-mem :
    {K : Type 0} {V : Type 0} (k : K) (v : V) (d : Dict K V) → Memᴰ (k, v) d → Memᴰ v (values d)
values-mem k v [] m = elim m [ ]
values-mem {K = K} {V = V} k v ((j, w) ∷ d) (Memᴰ.head e) = Memᴰ.head (ap (λ (p : K × V). p.1) e)
values-mem k v ((j, w) ∷ d) (Memᴰ.tail m) = Memᴰ.tail (values-mem k v d m)

mem-values :
    {K : Type 0} {V : Type 0} (v : V) (d : Dict K V) → Memᴰ v (values d) → (k : K) × Memᴰ (k, v) d
mem-values v [] m = elim m [ ]
mem-values v ((j, w) ∷ d) (Memᴰ.head e) = (j, Memᴰ.head (rw e refl))
mem-values v ((j, w) ∷ d) (Memᴰ.tail m) = let (k, n) = mem-values v d m in (k, Memᴰ.tail n)

module _ (speeds : Speeds) where
  open speeds use {Speed}

  -- A group holds the nodes with its key.
  group_of :
      (g es : List NodeCandidate)
      → Memᴰ g (groups_of speeds es)
      → (k : GroupKey) × (g ≡ of_group k es)
  unfolding groups_of
  group_of g es m =
      let (k, n) = mem-values g _ m in
      let found = mem-lookup k g _ (group_by-UniqueKeys (λ n. some (_group_key n)) es [] tt) n in
      (k, ap or_nil (sym found) ∙ group_by-select (λ n. some (_group_key n)) k es [])

  first_found :
      (xs : List (List NodeCandidate)) (g : List NodeCandidate) → first_of xs ≡ some g → Memᴰ g xs
  first_found [] g e = absurd (cc)
  first_found (x ∷ xs) g e = Memᴰ.head (cc)

  -- The plan's nodes: as many as configured, from the candidates, eligible, of one group, and none of
  -- them more often than it stands among the candidates; their ranks count from 0.
  abbrev pub IsReplica : Config Speed → ℕ → List NodeCandidate → Plan → Type 0
  IsReplica config vram candidates plan =
      (nodes : List NodeCandidate) × (k : GroupKey) × (plan.assignments
        ≡ with_ranks config.gpus_per_node 0 nodes)
      × (length nodes ≡ config.node_count)
      × ((n : NodeCandidate)
          → Memᴰ n nodes
          → Memᴰ n (of_group k (select (_eligible speeds config vram) candidates)))
      × ((id : String) → times_in id nodes ≤ times_in id candidates)

  chosen_lem :
      (config : Config Speed) (vram : ℕ) (candidates g : List NodeCandidate)
      → chosen_group speeds config vram candidates ≡ some g
      → (k : GroupKey) × (g ≡ of_group k (select (_eligible speeds config vram) candidates))
        × (config.node_count ≤ length g)
  unfolding chosen_group
  chosen_lem config vram candidates g e =
      let m = mem-sorted (group_before speeds) g _ (first_found _ g e) in
      let (inside, large) = mem-select (has_nodes config.node_count) g _ m in
      let (k, same) = group_of g _ inside in (k, same, ground arith)

  plan_of-IsReplica :
      (model_id : String) (config : Config Speed) (vram : ℕ) (candidates g : List NodeCandidate)
      → chosen_group speeds config vram candidates ≡ some g
      → IsReplica config vram candidates (plan_of speeds model_id config g)
  unfolding plan_of
  plan_of-IsReplica model_id config vram candidates g e =
      let (k, same, large) = chosen_lem config vram candidates g e in
      let nodes = take config.node_count (sorted ranks_before g) in
      let size : length (sorted ranks_before g) ≡ length g =
        length-sum_by (sorted ranks_before g)
        ∙ sum_by-sorted ranks_before (λ n. 1) g
        ∙ sym (length-sum_by g) in
      (
        nodes,
        k,
        refl,
        omega (arith, length-take config.node_count (sorted ranks_before g), size, large),
        λ n m. rw (← same) (mem-sorted ranks_before n g (mem-take config.node_count n _ m)),
        λ id. times_below id g config.node_count candidates (_eligible speeds config vram) k same,
      )
    where
      times_below :
          (id : String) (g : List NodeCandidate) (n : ℕ) (candidates : List NodeCandidate)
          (p : NodeCandidate → Bool) (k : GroupKey)
          → g ≡ of_group k (select p candidates)
          → times_in id (take n (sorted ranks_before g)) ≤ times_in id candidates
      times_below id g n candidates p k same =
          let f : NodeCandidate → ℕ = λ c. if c.node_id == id then 1 else 0 in
          omega (
            arith,
            sum_by-take f n (sorted ranks_before g),
            sum_by-sorted ranks_before f g,
            ap (sum_by f) same,
            sum_by-select f (λ c. key_equal k (_group_key c)) (select p candidates),
            sum_by-select f p candidates,
          )

  -- A plan's nodes are as many as the configuration says. All of them are eligible candidates of one
  -- group, no node_id stands among them more often than among the candidates, and their ranks are
  -- 0, 1, 2 and so on.
  pub plan_multi_node_placement-IsReplica :
      (model_id : String) (config : Config Speed) (vram : ℕ) (candidates : List NodeCandidate)
      (plan : Plan)
      → plan_multi_node_placement speeds model_id config vram candidates ≡ some plan
      → IsReplica config vram candidates plan
  unfolding plan_multi_node_placement
  plan_multi_node_placement-IsReplica model_id config vram candidates plan =
      if-cases (λ o. o ≡ some plan → IsReplica config vram candidates plan)
        (not config.is_distributed) (λ _ e. absurd (cc))
        (λ _.
          option-cases (λ o. o ≡ some plan → IsReplica config vram candidates plan)
            (chosen_group speeds config vram candidates) (λ _ e. absurd (cc))
            (λ g chosen e.
              let same : plan_of speeds model_id config g ≡ plan = some_plan e in
              rw (← same) (plan_of-IsReplica model_id config vram candidates g chosen)))
    where
      some_plan : {p q : Plan} → some p ≡ some q → p ≡ q
      some_plan e = cc

  or_nil-some :
      (o : Option (List NodeCandidate)) (c : NodeCandidate)
      → Memᴰ c (or_nil o)
      → (g : List NodeCandidate) × (o ≡ some g)
  or_nil-some none c m = elim m [ ]
  or_nil-some (some g) c m = (g, refl)

  -- The group of an eligible candidate is among the groups.
  group-member :
      (c : NodeCandidate) (es : List NodeCandidate)
      → Memᴰ c es
      → Memᴰ (of_group (_group_key c) es) (groups_of speeds es)
  unfolding groups_of
  group-member c es m =
      let key : NodeCandidate → Option GroupKey = λ n. some (_group_key n) in
      let held = group_by-select key (_group_key c) es [] in
      let inside : Memᴰ c (of_group (_group_key c) es) =
        select-mem (λ n. key_equal (_group_key c) (_group_key n)) c es m
          ((key_equal_iff (_group_key c) (_group_key c)).1 refl) in
      let (g, found) =
        or_nil-some (lookup (_group_key c) (group_by key es [])) c (rw held inside) in
      let same : g ≡ of_group (_group_key c) es = sym (ap or_nil found) ∙ held in
      rw (← same) (values-mem (_group_key c) g _ (lookup-mem (_group_key c) g _ found))

  first_some :
      (xs : List (List NodeCandidate)) (g : List NodeCandidate)
      → Memᴰ g xs
      → (h : List NodeCandidate) × (first_of xs ≡ some h)
  first_some [] g m = elim m [ ]
  first_some (x ∷ xs) g m = (x, refl)

  -- For a distributed model, an eligible candidate whose group has as many eligible candidates as the
  -- replica has nodes is enough for a plan.
  pub plan_multi_node_placement-some :
      (model_id : String) (config : Config Speed) (vram : ℕ) (candidates : List NodeCandidate)
      (c : NodeCandidate)
      → config.is_distributed ≡ true
      → Memᴰ c candidates
      → _eligible speeds config vram c ≡ true
      → config.node_count
        ≤ length (of_group (_group_key c) (select (_eligible speeds config vram) candidates))
      → (plan : Plan) × (plan_multi_node_placement speeds model_id config vram candidates
          ≡ some plan)
  unfolding plan_multi_node_placement chosen_group
  plan_multi_node_placement-some model_id config vram candidates c distributed m fits enough =
      let eligible = select (_eligible speeds config vram) candidates in
      let g = of_group (_group_key c) eligible in
      let there =
        group-member c eligible (select-mem (_eligible speeds config vram) c candidates m fits) in
      let viable = sorted-mem (group_before speeds) g _ (
        select-mem (has_nodes config.node_count) g (groups_of speeds eligible) there
          (ground arith)) in
      let (h, found) = first_some _ g viable in
      (
        plan_of speeds model_id config h,
        planned (plan_of speeds model_id config) h distributed found,
      )
    where
      planned :
          {b : Bool} {o : Option (List NodeCandidate)} (f : List NodeCandidate → Plan)
          (h : List NodeCandidate)
          → b ≡ true
          → o ≡ some h
          → (if not b then none else elim o [ none ↦ none | some g ↦ some (f g) ]) ≡ some (f h)
      planned f h e found = rw (e, found) refl
