-- ===== src/ControlPlane/OperatorTests.antt =====
-- The operators' actions at concrete inputs: a deployment that was suspended and has been resumed, so
-- that its lease is active and its GPU held, while its row is SUSPENDED until the miner reports.
use greencompute_api.Prelude.{ℕ, ◌≡◌, refl, none, some, [], ◌∷◌, string_eq}
use greencompute_api.ControlPlane.States.{transition_state}
use greencompute_api.ControlPlane.Reservations.{get_active_reservation, release_gpu_reservation}
use greencompute_api.ControlPlane.Deployment.{update_assignment_status}
use greencompute_api.ControlPlane.Lifecycle.{refused, invalid_transition, update_deployment_status}
use greencompute_api.ControlPlane.LifeTests.{control, stopped, held, monitor}
use greencompute_api.ControlPlane.Operator.{Site, fail_deployment, cleanup_deployment, leave_node}
use greencompute_api.ControlPlane.Operator.Outcomes.{
  hold_of, IsEnded, fail_deployment-FailsAs, cleanup_deployment-IsEnded,
}

abbrev resumed : Site ℕ
resumed = record {
  control = record control {
    deployments = ("d", stopped) ∷ [];
    assignments =
        ("d", record { hotkey = "hk"; node_id = "n1"; status = "active"; expires_at = none }) ∷ [];
  };
  nodes = [];
}

fail_deployment-FailsAs_example :
    (fail_deployment monitor.workloads 60 "d" 9 resumed).0 ≡ refused invalid_transition
fail_deployment-FailsAs_example =
    fail_deployment-FailsAs monitor.workloads 60 "d" stopped 9 resumed refl

-- The raise comes after the GPU has been given back.
hold_lost :
    (hold_of "d" resumed ≡ some held)
    × (hold_of "d" (fail_deployment monitor.workloads 60 "d" 9 resumed).1 ≡ none)
unfolding fail_deployment leave_node update_assignment_status release_gpu_reservation
    get_active_reservation update_deployment_status transition_state
hold_lost = (refl, refl)

cleanup_deployment-IsEnded_example :
    IsEnded "d" (cleanup_deployment monitor.workloads "d" "done" 9 resumed)
cleanup_deployment-IsEnded_example =
    cleanup_deployment-IsEnded monitor.workloads "d" "done" stopped 9 resumed refl tt
