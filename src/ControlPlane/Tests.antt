-- ===== src/ControlPlane/Tests.antt =====
-- A node, a workload, a deployment and an owner with credits: the control plane's theorems at
-- concrete inputs. The scores are natural numbers here.
use greencompute_api.Prelude.{
  ℕ, ◌+◌, ◌*◌, ◌/◌, ◌≤◌, String, ◌≡◌, refl, ◌⊎◌, true, none, some, List, [], ◌∷◌, leb, string_eq,
  arith,
}
use greencompute_api.Prelude.Int.{pos}
use greencompute_api.Prelude.Dict.{lookup}
use greencompute_api.Prelude.Sort.{sorted}
use greencompute_api.Prelude.Text.{allows_kind}
use greencompute_api.ControlPlane.States.{pending, scheduled, ready, terminated, transition_state}
use greencompute_api.ControlPlane.States.Paths.{Reaches, here, next}
use greencompute_api.ControlPlane.Reservations.{
  Reservation, Reservations, active, reserve_gpus, reserved_by_others, reserved_gpus_by_node,
  reserved_gpus_for_node, or_zero,
}
use greencompute_api.ControlPlane.Reservations.Sums.{by_node-eq-for_node}
use greencompute_api.ControlPlane.Placement.{
  Floats, Node, Workload, Lease, is_candidate, assign_lease, rank_nodes, effective_available_gpus,
}
use greencompute_api.ControlPlane.Placement.Best.{IsBest, assign_lease-IsBest}
use greencompute_api.ControlPlane.Assign.{Fleet}
use greencompute_api.ControlPlane.Assign.History.{
  Event, assign, release_hold, resume, report, play, IsSound, play-NotOverbooked,
}

leb_total : (a b : ℕ) → (leb a b ≡ true) ⊎ (leb b a ≡ true)
leb_total a b = ground arith

leb_transitive : (a b c : ℕ) → leb a b ≡ true → leb b c ≡ true → leb a c ≡ true
leb_transitive a b c p q = ground arith

abbrev numbers : Floats
numbers = record {
  Float = ℕ;
  plus = λ a b. a + b;
  times = λ a b. a * b;
  over = λ a b. a / b;
  tenths = λ n. n;
  le = leb;
  le_total = leb_total;
  le_transitive = leb_transitive;
}

abbrev node : Node ℕ
node = record {
  hotkey = "hk";
  node_id = "n1";
  gpu_count = 4;
  available_gpus = pos 4;
  vram_gb_per_gpu = 24;
  cpu_cores = 16;
  memory_gb = 64;
  gpu_model = "RTX 4090";
  labels = [];
  health_score = 9;
  reliability_score = 9;
  performance_score = 9;
  hourly_cost_usd = 1;
}

abbrev workload : Workload
workload = record {
  workload_id = "w";
  kind = "pod";
  gpu_count = 2;
  min_vram_gb_per_gpu = 16;
  cpu_cores = 4;
  memory_gb = 16;
  supported_gpu_models = [];
}

abbrev lease : Lease
lease = record { deployment_id = "d"; workload_id = "w"; hotkey = "hk"; node_id = "n1" }

leased : assign_lease numbers workload "d" (node ∷ []) [] ≡ some lease
unfolding assign_lease rank_nodes is_candidate effective_available_gpus sorted allows_kind
leased = refl

assign_lease-IsBest_example : IsBest numbers workload "d" [] (node ∷ []) lease
assign_lease-IsBest_example = assign_lease-IsBest numbers workload "d" [] (node ∷ []) leased

-- Three of the node's four GPUs are held.
abbrev held : Reservation
held = record {
  hotkey = "hk";
  node_id = "n1";
  gpu_count = 3;
  status = active;
  created_at = 0;
  released_at = none;
}

abbrev rows : Reservations
rows = ("d0", held) ∷ []

unleased : assign_lease numbers workload "d" (node ∷ []) (("n1", 3) ∷ []) ≡ none
unfolding assign_lease rank_nodes is_candidate effective_available_gpus sorted allows_kind
unleased = refl

by_node-eq-for_node_example :
    or_zero (lookup "n1" (reserved_gpus_by_node rows)) ≡ reserved_gpus_for_node "n1" rows
by_node-eq-for_node_example = by_node-eq-for_node "n1" rows

granted : (reserve_gpus "d" "hk" "n1" 1 (some 4) 1 rows).0 ≡ true
unfolding reserve_gpus reserved_by_others
granted = refl

abbrev fleet : Fleet ℕ
fleet = record { reservations = []; nodes = node ∷ [] }

abbrev events : List (Event numbers)
events =
    assign workload "d" (node ∷ []) 1
    ∷ resume "e" "hk" "n1" 2 2
    ∷ release_hold "d" 3
    ∷ report (node ∷ [])
    ∷ []

abbrev four : String → ℕ
four id = 4

four_within : node.gpu_count ≤ 4
four_within = omega arith

fleet-IsSound : IsSound numbers four fleet
unfolding reserved_gpus_for_node
fleet-IsSound = (record { unique = tt; within = λ n. omega arith }, (four_within, tt))

play-NotOverbooked_example : IsSound numbers four (play numbers events fleet)
play-NotOverbooked_example =
    play-NotOverbooked numbers four events fleet
      ((four_within, tt), (tt, (tt, ((four_within, tt), tt)))) fleet-IsSound

placed_path : Reaches pending ready
unfolding transition_state
placed_path = next (next here scheduled refl) ready refl

late_path : Reaches terminated terminated
unfolding transition_state
late_path = next here terminated refl
