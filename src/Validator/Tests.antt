-- ===== src/Validator/Tests.antt =====
-- The theorems on Flux at concrete inputs: a catalog of a model on one GPU and one on two.
use greencompute_api.Prelude.{
  ℕ, ◌+◌, ◌*◌, ◌/◌, min, ◌≡◌, refl, some, List, [], ◌∷◌, select, ltb, arith,
}
use greencompute_api.Prelude.Sort.{sorted}
use greencompute_api.Validator.Flux.{
  Entry, is_eligible, assign_catalog_models, pack, pin_one, pinned, pin, fill, candidate, rotate,
  place,
}
use greencompute_api.Validator.Flux.Blocks.{Disjoint, assign_catalog_models-Disjoint}
use greencompute_api.Validator.Flux.Bound.{Bounded, assign_catalog_models-Bounded}
use greencompute_api.Validator.Rebalance.{Shares, State, rebalance}
use greencompute_api.Validator.Rebalance.Moves.{Rebalances, rebalance-Rebalances}

abbrev small : Entry
small = record { model_id = "small"; gpu_count = 1; min_vram_gb_per_gpu = 16 }

abbrev large : Entry
large = record { model_id = "large"; gpu_count = 2; min_vram_gb_per_gpu = 24 }

abbrev catalog : List Entry
catalog = small ∷ large ∷ []

filled :
    assign_catalog_models 4 24 catalog [] []
    ≡ some (("small", 0 ∷ 3 ∷ []) ∷ ("large", 1 ∷ 2 ∷ []) ∷ [])
unfolding assign_catalog_models pack pinned pin fill candidate rotate place
filled = refl

stopped :
    assign_catalog_models 8 24 catalog (("large", 1) ∷ []) ("small" ∷ [])
    ≡ some (("small", 0 ∷ []) ∷ ("large", 1 ∷ 2 ∷ []) ∷ [])
unfolding assign_catalog_models pin_one candidate sorted place
stopped = refl

assign_catalog_models-Disjoint_example : Disjoint 4 (assign_catalog_models 4 24 catalog [] [])
assign_catalog_models-Disjoint_example =
    assign_catalog_models-Disjoint 4 24 catalog [] [] (omega arith, (omega arith, tt))

assign_catalog_models-Bounded_example :
    Bounded
      (("large", 1) ∷ [])
      ("small" ∷ [])
      (select (is_eligible 8 24) catalog)
      (assign_catalog_models 8 24 catalog (("large", 1) ∷ []) ("small" ∷ []))
assign_catalog_models-Bounded_example =
    assign_catalog_models-Bounded 8 24 catalog ("large", 1) [] ("small" ∷ []) ((refl, tt), (tt, tt))
      (omega arith, (omega arith, tt)) refl

-- Demand by numbers: a fifth and a tenth of the GPUs as floors, rounded up.
abbrev by_numbers : Shares
by_numbers = record {
  Score = ℕ;
  ceil_inference = λ total. (total + 4) / 5;
  ceil_rental = λ total. (total + 9) / 10;
  has_demand = λ a b. ltb 0 (a + b);
  floor_share = λ pool a b. min pool (pool * a / (a + b));
  floor_share-le = λ pool a b. omega arith;
}

abbrev node : State ℕ
node = record {
  hotkey = "h";
  node_id = "n";
  total_gpus = 8;
  inference_gpus = 1;
  rental_gpus = 2;
  idle_gpus = 5;
  inference_demand_score = 3;
  rental_demand_score = 1;
  inference_assignments = [];
  last_rebalanced_at = 0;
}

rebalance-Rebalances_example :
    Rebalances by_numbers node (rebalance by_numbers 60 node catalog (some 24) [] ("large" ∷ []))
rebalance-Rebalances_example =
    rebalance-Rebalances by_numbers 60 node catalog (some 24) [] ("large" ∷ []) (omega arith)
      (omega arith) (omega arith) (omega arith, (omega arith, tt))
