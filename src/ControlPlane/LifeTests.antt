-- ===== src/ControlPlane/LifeTests.antt =====
-- A rental of one GPU at 240 cents an hour, whose owner has one cent left: the theorems on reports and
-- on the meter at concrete inputs.
use greencompute_api.Prelude.{
  ◌⊎◌, ℕ, ◌+◌, ◌*◌, String, ◌≡◌, refl, inl, inr, true, false, none, some, List, Bool-cases, ◌==◌,
  [], ◌∷◌, string_eq, is_some, arith,
}
use greencompute_api.Prelude.Int.{pos, ◌+ℤ◌, max_zero}
use greencompute_api.ControlPlane.Metering.Suspends.{meter_deployment-kept_or_drained}
use greencompute_api.Prelude.Dict.{lookup}
use greencompute_api.Billing.Schema.{balance_of}
use greencompute_api.ControlPlane.States.{ready, suspended, terminated, transition_state}
use greencompute_api.ControlPlane.States.Paths.{Reaches, here}
use greencompute_api.ControlPlane.Reservations.{
  Reservation, active, get_active_reservation, release_gpu_reservation,
}
use greencompute_api.ControlPlane.Deployment.{
  accrue_metering, Deployment, Control, update_assignment_status, update_deployment,
}
use greencompute_api.ControlPlane.Lifecycle.{
  StatusUpdate, commit_status, reported, mark_assignment, _classify_deployment_failure,
  update_deployment_status,
}
use greencompute_api.ControlPlane.Lifecycle.Updates.{
  play, IsFreed, IsClocked, remainder_of, play-IsFreed, play-IsClocked, play-Reaches,
}
use greencompute_api.ControlPlane.Metering.{
  is_private_model, Monitor, World, charge, decide, meter_deployment, suspension, mcents_of,
  _box_silent,
}
use greencompute_api.ControlPlane.Metering.Rounding.{round_half_even}
use greencompute_api.ControlPlane.Metering.Exact.{meter_deployment-exact}

abbrev pub rental : Deployment
rental = record {
  workload_id = "w";
  owner_user_id = some "ann";
  created_by_key_id = none;
  hotkey = none;
  node_id = some "n1";
  state = ready;
  ready_instances = 1;
  endpoint = none;
  ssh_private_key = none;
  port_mappings = [];
  ssh_host_keys = [];
  hourly_rate_cents = 240;
  save_on_exhaustion = true;
  suspended_at = none;
  suspended_reason = none;
  ready_at = some 0;
  max_runtime_minutes = 0;
  warmup_state = "ready";
  last_error = none;
  failure_class = none;
  health_check_failures = 0;
  retry_count = 0;
  retry_exhausted = false;
  last_retry_reason = none;
  updated_at = 0;
  metering_remainder_mcents = 250;
  storage_remainder_mcents = 0;
  billable_since = some 0;
}

abbrev pub held : Reservation
held = record {
  hotkey = "hk";
  node_id = "n1";
  gpu_count = 1;
  status = active;
  created_at = 0;
  released_at = none;
}

abbrev pub control : Control
control = record {
  deployments = ("d", rental) ∷ [];
  reservations = ("d", held) ∷ [];
  assignments = [];
  placements = [];
  lease_history = [];
  events = [];
  published = [];
}

abbrev reports : List (StatusUpdate × ℕ)
reports = (suspension "d" 5, 5) ∷ []

-- The only row is that of the rental, which is READY.
only_rental :
    (i : String) (row : Deployment) → lookup i control.deployments ≡ some row → row.state ≡ ready
only_rental i row found = elim (Bool-cases (i == "d")) [
  | inl e ↦ ground arith
  | inr e ↦ let gone : none ≡ some row = rw e at found in absurd (cc)
]

IsFreed-before : IsFreed control
IsFreed-before i row found frees = absurd (ground (arith, only_rental i row found))

IsClocked-before : IsClocked control
IsClocked-before i row found stopped = absurd (ground (arith, only_rental i row found))

abbrev pub stopped : Deployment
stopped = record rental {
  state = suspended;
  ready_instances = 0;
  last_error = some "Insufficient balance — top up your credits to resume";
  suspended_at = some 5;
  suspended_reason = some "balance";
  updated_at = 5;
}

stopped_row : lookup "d" (play reports control).deployments ≡ some stopped
unfolding update_deployment_status commit_status reported transition_state mark_assignment
    update_assignment_status update_deployment _classify_deployment_failure release_gpu_reservation
stopped_row = refl

play-IsFreed_example : get_active_reservation "d" (play reports control).reservations ≡ none
play-IsFreed_example = play-IsFreed reports control IsFreed-before "d" stopped stopped_row refl

play-IsClocked_example : is_some stopped.suspended_at ≡ true
play-IsClocked_example =
    play-IsClocked reports control IsClocked-before "d" stopped stopped_row refl

abbrev ended : Control
ended = record control { deployments = ("d", record rental { state = terminated }) ∷ [] }

play-Reaches_example :
    (row : Deployment) × (lookup "d" (play reports control).deployments ≡ some row)
    × Reaches ready row.state
play-Reaches_example = play-Reaches reports control "d" rental refl here

abbrev pub monitor : Monitor
monitor = record {
  workloads =
      ("w", record { workload_id = "w"; is_inference = false; managed_by = none; gpu_count = 1 })
      ∷ [];
  heartbeats = [];
  node_seen = [];
  heartbeat_timeout = 120000000;
  inventory_timeout = 120000000;
  describe = λ private gpus cents. "GPU usage";
}

abbrev pub world : World
world = record {
  control = control;
  db = record {
    users = ("ann", pos 1) ∷ [];
    ledger = [];
    invoices = [];
    deposits = [];
    sessions = [];
    holds = [];
  };
}

minute_charged : decide monitor 60000000 60000000 rental ≡ charge "ann" false 1 4000
unfolding decide mcents_of round_half_even _box_silent is_private_model
minute_charged = refl

meter_deployment-exact_example :
    let (debited, w) = meter_deployment monitor 60000000 60000000 "d" rental world in
    (1000 * debited + remainder_of (lookup "d" w.control.deployments) ≡ 250 + 4000)
    × (balance_of "ann" w.db +ℤ pos debited ≡ pos 1)
meter_deployment-exact_example =
    meter_deployment-exact monitor 60000000 60000000 "d" rental rental world (pos 1) "ann" false 1
      4000 minute_charged refl refl

meter_deployment-kept_or_drained_example :
    ((meter_deployment monitor 60000000 60000000 "d" rental world).1.control
      ≡ (accrue_metering "d" 4000 control).1)
    ⊎ (max_zero
          (balance_of "ann" (meter_deployment monitor 60000000 60000000 "d" rental world).1.db)
        ≡ 0)
meter_deployment-kept_or_drained_example =
    meter_deployment-kept_or_drained monitor 60000000 60000000 "d" rental world (pos 1) "ann" false
      1 4000 minute_charged refl
