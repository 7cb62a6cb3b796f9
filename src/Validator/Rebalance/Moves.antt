-- ===== src/Validator/Rebalance/Moves.antt =====
-- What FluxOrchestrator.rebalance does to the GPUs of a node.
use greencompute_api.Prelude.{
  ℕ, zero, suc, ◌+◌, ◌-◌, ◌/◌, ◌≤◌, min, max, String, ◌≡◌, refl, ◌∙◌, ap, ◌⊎◌, Option, none, some,
  List, [], ◌∷◌, ◌++◌, map, ◌==◌, nat_eq, All, length, length-append, if◌then◌else◌, ltb, arith,
  if-cases,
}
use greencompute_api.Validator.Flux.{Entry, Assignments, Targets}
use greencompute_api.Validator.Flux.Loop.{IsSized}
use greencompute_api.Validator.Flux.Blocks.{uses, Disjoint, assign_catalog_models-Disjoint}
use greencompute_api.Validator.Rebalance.{
  Shares, State, Mode, Event, Goals, moves, backfill, assigned, flex_to_inference, goals, additions,
  rebalanced, with_assignments, rebalance,
}

length-moves :
    {S : Type 0} (s : State S) (mode : Mode) (index count : ℕ)
    → length (moves s mode index count) ≡ count
length-moves s mode index zero = refl
length-moves s mode index (suc count) = omega (arith, length-moves s mode (index + 1) count)

length-map : {A : Type 0} {B : Type 0} (f : A → B) (xs : List A) → length (map f xs) ≡ length xs
length-map f [] = refl
length-map f (x ∷ xs) = omega (arith, length-map f xs)

assigned-Disjoint :
    (catalog : List Entry) (vram : Option ℕ) (targets : Targets) (pins : List String) (n : ℕ)
    → All IsSized catalog
    → Disjoint n (assigned catalog vram targets pins n)
assigned-Disjoint catalog none targets pins n sized = ([], refl, λ i. omega arith)
assigned-Disjoint catalog (some vram) targets pins n sized =
    if-cases (Disjoint n) _ (λ _. assign_catalog_models-Disjoint n vram catalog targets pins sized)
      (λ _. ([], refl, λ i. omega arith))

module _ (shares : Shares) where
  open shares use {Score, floor_share-le}

  -- No GPU is lost, no mode loses one, every GPU that leaves the idle ones has its event, and a mode
  -- gets what it is short of its target while idle GPUs last.
  abbrev pub KeepsGpus : Goals → State Score → State Score × List Event → Type 0
  KeepsGpus (to_inference, to_rental) s (t, events) =
      (t.inference_gpus + t.rental_gpus + t.idle_gpus
        ≡ s.inference_gpus + s.rental_gpus + s.idle_gpus)
      × (s.inference_gpus ≤ t.inference_gpus)
      × (s.rental_gpus ≤ t.rental_gpus)
      × (length events + t.idle_gpus ≡ s.idle_gpus)
      × (t.inference_gpus ≤ max s.inference_gpus to_inference)
      × (t.rental_gpus ≤ max s.rental_gpus to_rental)
      × ((t.idle_gpus ≡ 0) ⊎ ((to_inference ≤ t.inference_gpus) × (to_rental ≤ t.rental_gpus)))

  -- The assignments stay on the GPUs that serve inference, each under one model at most.
  abbrev pub Rebalances : State Score → Option (State Score × List Event) → Type 0
  Rebalances s o =
      (r : State Score × List Event) × (o ≡ some r)
      × KeepsGpus (goals shares s) s r
      × ((i : ℕ) → uses i r.0.inference_assignments ≤ (if ltb i r.0.inference_gpus then 1 else 0))

  rebalanced-KeepsGpus :
      (now : ℕ) (d : Assignments) (g : Goals) (s : State Score)
      → s.inference_gpus ≤ s.total_gpus
      → s.rental_gpus ≤ s.total_gpus
      → KeepsGpus g s (rebalanced shares now d (additions shares g s) s)
  unfolding rebalanced additions
  rebalanced-KeepsGpus now d (a, b) s h k =
      let add = additions shares (a, b) s in
      let inference_moves = moves s Mode.inference (min s.inference_gpus s.total_gpus) add.0 in
      let rental_moves = moves s Mode.rental (min s.rental_gpus s.total_gpus) add.1 in
      let moved : length (map (backfill d) (inference_moves ++ rental_moves)) ≡ add.0 + add.1 =
        length-map (backfill d) (inference_moves ++ rental_moves)
        ∙ length-append inference_moves rental_moves
        ∙ omega (
          arith,
          length-moves s Mode.inference (min s.inference_gpus s.total_gpus) add.0,
          length-moves s Mode.rental (min s.rental_gpus s.total_gpus) add.1,
        ) in
      (
        omega arith,
        omega arith,
        omega arith,
        omega (arith, moved),
        omega arith,
        omega arith,
        last a b (min s.inference_gpus s.total_gpus) (min s.rental_gpus s.total_gpus) s.idle_gpus,
      )
    where
      last :
          (a b inference rental idle : ℕ)
          → let add = min (a - inference) idle in
            let more = min (b - rental) (idle - add) in
            (idle - add - more ≡ 0) ⊎ ((a ≤ inference + add) × (b ≤ rental + more))
      last a b inference rental idle = ground arith

  -- On a node with GPUs, whose modes hold no more than all of them each, and with a catalog whose
  -- models take at least one GPU each, `rebalance` returns. The sum of the three kinds of GPUs stays;
  -- neither mode loses a GPU; there is one event per GPU that leaves the idle ones; no mode goes above
  -- what it had and its target; no GPU stays idle unless both modes reach their targets; and the
  -- assignments use only indices below inference_gpus, each for at most one model.
  pub rebalance-Rebalances :
      (now : ℕ) (s : State Score) (catalog : List Entry) (vram : Option ℕ) (targets : Targets)
      (pins : List String)
      → 1 ≤ s.total_gpus
      → s.inference_gpus ≤ s.total_gpus
      → s.rental_gpus ≤ s.total_gpus
      → All IsSized catalog
      → Rebalances s (rebalance shares now s catalog vram targets pins)
  unfolding rebalance rebalanced
  rebalance-Rebalances now s catalog vram targets pins some_gpus h k sized =
      let add = additions shares (goals shares s) s in
      let (d, runs, apart) =
        assigned-Disjoint catalog vram targets pins (min s.inference_gpus s.total_gpus + add.0)
          sized in
      if-cases (Rebalances s) (s.total_gpus == 0) (λ no_gpus. absurd (ground arith))
        (λ _. (
          rebalanced shares now d add s,
          ap (with_assignments shares now add s) runs,
          rebalanced-KeepsGpus now d (goals shares s) s h k,
          apart,
        ))

  half-le : (pool : ℕ) → pool / 2 ≤ pool
  half-le pool = omega arith

  flex-le : (pool : ℕ) (s : State Score) → flex_to_inference shares pool s ≤ pool
  flex-le pool s =
      if-cases (λ n. n ≤ pool) (shares.has_demand s.inference_demand_score s.rental_demand_score)
        (λ _. floor_share-le pool s.inference_demand_score s.rental_demand_score)
        (λ _. half-le pool)

  -- The two targets of `rebalance` are at least 1 and at least the floors of the settings, and make up
  -- the node's GPUs, or the floors where those are more.
  pub goals-total :
      (s : State Score)
      → let (inference, rental) = goals shares s in
        let floor_inference = max 1 (shares.ceil_inference s.total_gpus) in
        let floor_rental = max 1 (shares.ceil_rental s.total_gpus) in
        (floor_inference ≤ inference)
        × (floor_rental ≤ rental)
        × (inference + rental ≡ max s.total_gpus (floor_inference + floor_rental))
  unfolding goals
  goals-total s =
      let floors =
        max 1 (shares.ceil_inference s.total_gpus) + max 1 (shares.ceil_rental s.total_gpus) in
      let below = flex-le (s.total_gpus - floors) s in
      (omega arith, omega arith, omega (arith, below))
