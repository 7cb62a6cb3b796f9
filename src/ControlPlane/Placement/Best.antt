-- ===== src/ControlPlane/Placement/Best.antt =====
-- The lease of PlacementPolicy.assign_lease among the nodes that fit.
use mathlib.Core.List.{Memᴰ}
use greencompute_api.Prelude.{
  ℕ, ◌≤◌, String, ◌≡◌, refl, ap, inl, inr, true, false, none, some, List, [], ◌∷◌, map, select, All,
  arith, Bool-cases,
}
use greencompute_api.Prelude.Int.{pos, ◌≤ℤ◌}
use greencompute_api.Prelude.Dict.{Dict}
use greencompute_api.Prelude.Sort.{sorted-HeadOf, HeadOf}
use greencompute_api.Prelude.Members.{mem-map, map-mem, mem-select, select-mem, not_mem-nil}
use greencompute_api.ControlPlane.Placement.{
  Floats, Node, Workload, Lease, effective_available_gpus, is_candidate, RankedNode, ranked, score,
  ranks_before, rank_nodes, lease_on_first, assign_lease,
}

-- A node has the GPUs free, in both views of them, and the hardware that the workload requires.
pub record Fits {F : Type 0} (w : Workload) (reserved : Dict String ℕ) (n : Node F) : Type 0 where
  pub gpus : pos w.gpu_count ≤ℤ effective_available_gpus n reserved
  pub vram : w.min_vram_gb_per_gpu ≤ n.vram_gb_per_gpu
  pub cpus : w.cpu_cores ≤ n.cpu_cores
  pub memory : w.memory_gb ≤ n.memory_gb

candidate-Fits :
    {F : Type 0} (w : Workload) (reserved : Dict String ℕ) (n : Node F)
    → is_candidate w reserved n ≡ true
    → Fits w reserved n
unfolding is_candidate
candidate-Fits w reserved n h = ground arith

module _ (fl : Floats) (w : Workload) (d : String) (reserved : Dict String ℕ) where
  open fl use {Float, le, le_total, le_transitive}

  -- A lease is on a node of the list that passes every test, and no such node has a better score.
  abbrev pub IsBest : List (Node Float) → Lease → Type 0
  IsBest nodes lease =
      (n : Node Float) × Memᴰ n nodes
      × Fits w reserved n
      × (lease.hotkey ≡ n.hotkey)
      × (lease.node_id ≡ n.node_id)
      × All (λ m. le (score fl m) (score fl n) ≡ true) (select (is_candidate w reserved) nodes)

  scores_below :
      (top : Float) (ns : List (Node Float))
      → ((m : Node Float) → Memᴰ m ns → le (score fl m) top ≡ true)
      → All (λ m. le (score fl m) top ≡ true) ns
  scores_below top [] h = tt
  scores_below top (n ∷ ns) h =
      (h n (Memᴰ.head refl), scores_below top ns (λ m k. h m (Memᴰ.tail k)))

  first-IsBest :
      (nodes : List (Node Float)) (lease : Lease) (rs : List (RankedNode fl))
      → HeadOf
          (ranks_before fl)
          (λ a b. le_total b.score a.score)
          (λ a b c p q. le_transitive c.score b.score a.score q p)
          (map (ranked fl) (select (is_candidate w reserved) nodes))
          rs
      → lease_on_first fl w d rs ≡ some lease
      → IsBest nodes lease
  first-IsBest nodes lease [] h e = absurd (cc)
  first-IsBest nodes lease (r ∷ rs) (m, all) e =
      let (n, k, same) = mem-map (ranked fl) (select (is_candidate w reserved) nodes) m in
      let (inside, passes) = mem-select (is_candidate w reserved) n nodes k in
      (
        n,
        inside,
        candidate-Fits w reserved n passes,
        ground arith,
        ground arith,
        scores_below (score fl n) (select (is_candidate w reserved) nodes) (λ o k'.
            rw (← ap (λ (x : RankedNode fl). x.score) same)
              (all (ranked fl o) (map-mem (ranked fl) _ k'))),
      )

  -- A lease that assign_lease gives is on a node of the list that has the GPUs free, in the reported
  -- and in the reserved view, and the required VRAM, CPU cores and memory; and among the nodes that
  -- pass every test of rank_nodes none has a better score. The scores' arithmetic is any, and their
  -- order total and transitive.
  pub assign_lease-IsBest :
      (nodes : List (Node Float)) {lease : Lease}
      → assign_lease fl w d nodes reserved ≡ some lease
      → IsBest nodes lease
  unfolding assign_lease rank_nodes
  assign_lease-IsBest nodes {lease} = first-IsBest nodes lease (rank_nodes fl w nodes reserved) (
      sorted-HeadOf (ranks_before fl) (λ a b. le_total b.score a.score)
        (λ a b c p q. le_transitive c.score b.score a.score q p) _)

  none-HeadOf :
      (xs : List (RankedNode fl)) (rs : List (RankedNode fl))
      → HeadOf
          (ranks_before fl)
          (λ a b. le_total b.score a.score)
          (λ a b c p q. le_transitive c.score b.score a.score q p)
          xs
          rs
      → lease_on_first fl w d rs ≡ none
      → xs ≡ []
  none-HeadOf xs [] h e = h
  none-HeadOf xs (r ∷ rs) h e = absurd (cc)

  -- When assign_lease gives none, no node of the list passes the tests of rank_nodes.
  pub assign_lease-none :
      (nodes : List (Node Float)) (n : Node Float)
      → assign_lease fl w d nodes reserved ≡ none
      → Memᴰ n nodes
      → is_candidate w reserved n ≡ false
  unfolding assign_lease rank_nodes
  assign_lease-none nodes n e m = elim (Bool-cases (is_candidate w reserved n)) [
    | inr unfit ↦ unfit
    | inl fits ↦
        let listed : Memᴰ (ranked fl n) (map (ranked fl) (select (is_candidate w reserved) nodes)) =
          map-mem (ranked fl) _ (select-mem (is_candidate w reserved) n nodes m fits) in
        let empty : map (ranked fl) (select (is_candidate w reserved) nodes) ≡ [] =
          none-HeadOf _ (rank_nodes fl w nodes reserved)
            (sorted-HeadOf (ranks_before fl) (λ a b. le_total b.score a.score)
              (λ a b c p q. le_transitive c.score b.score a.score q p) _)
            e in
        absurd (not_mem-nil (rw empty at listed))
  ]
