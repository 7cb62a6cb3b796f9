-- ===== src/ControlPlane/SweepTests.antt =====
-- The theorems on the sweeps at concrete inputs: a saved pod that has been suspended for 31 days, and
-- a running rental past its runtime, whose key has spent its limit.
use greencompute_api.Prelude.{ℕ, ◌+◌, ◌*◌, ◌≡◌, refl, ◌&&◌, true, none, some, [], ◌∷◌, string_eq}
use greencompute_api.Prelude.Int.{pos, negsuc, ◌+ℤ◌}
use greencompute_api.Prelude.Dict.{lookup}
use greencompute_api.Billing.Schema.{LedgerEntry, balance_of}
use greencompute_api.ControlPlane.States.{ready, same_state}
use greencompute_api.ControlPlane.Deployment.{Deployment, Control}
use greencompute_api.ControlPlane.Metering.{World}
use greencompute_api.ControlPlane.LifeTests.{rental, control, stopped, monitor, world}
use greencompute_api.ControlPlane.KeyLimits.{key_spend_cents}
use greencompute_api.ControlPlane.Sweeps.{
  Retention, day, is_expired, is_over_limit, reap_exhausted_pods, suspension_terms,
  stop_rentals_over_key_limits, store_deployment,
}
use greencompute_api.ControlPlane.Sweeps.Fates.{Fate}
use greencompute_api.ControlPlane.Sweeps.Stops.{
  is_due, reap_exhausted_pods-Fate, stop_rentals_over_key_limits-Fate,
}
use greencompute_api.ControlPlane.Sweeps.Storage.{storage_of, store_deployment-exact}

abbrev retention : Retention
retention = record {
  pod_storage_billing_enabled = true;
  pod_exhaustion_reaper_enabled = true;
  pod_saved_retention_days = 30;
  pod_unsaved_grace_minutes = 10;
  storage_cents_per_day = 100;
  storage_mcents_per_minute = 1069;
}

abbrev saved : Control
saved = record control { deployments = ("d", stopped) ∷ ("e", rental) ∷ [] }

abbrev late : ℕ
late = 31 * day

overdue : is_due late (suspension_terms retention monitor.workloads stopped).1 ≡ true
unfolding suspension_terms
overdue = refl

reap_exhausted_pods-Fate_example :
    Fate (is_due late (suspension_terms retention monitor.workloads stopped).1) stopped (
      lookup "d"
        (reap_exhausted_pods retention monitor.workloads (λ d. "expired") late saved).1.deployments)
reap_exhausted_pods-Fate_example =
    reap_exhausted_pods-Fate retention monitor.workloads (λ d. "expired") late saved "d" stopped
      (tt, (tt, tt)) refl

abbrev capped : Deployment
capped = record rental { max_runtime_minutes = 60; created_by_key_id = some "k" }

abbrev running : Control
running = record control { deployments = ("d", capped) ∷ [] }

ran_out : is_expired (3600 * 1000000) capped ≡ true
ran_out = refl

abbrev charge : LedgerEntry
charge = record {
  user_id = "ann";
  amount_cents = negsuc 499;
  balance_after = pos 0;
  kind = "usage";
  reference_id = some "d";
  deposit_ref = none;
  description = "";
  created_at = 10;
}

limit_reached : is_over_limit (("k", 500) ∷ []) (charge ∷ []) [] 0 running capped ≡ true
unfolding is_over_limit key_spend_cents
limit_reached = refl

stop_rentals_over_key_limits-Fate_example :
    Fate
      (same_state ready capped.state
        && is_over_limit (("k", 500) ∷ []) (charge ∷ []) [] 0 running capped)
      capped
      (lookup "d"
        (stop_rentals_over_key_limits
          (("k", 500) ∷ [])
          (charge ∷ [])
          []
          0
          (λ d. "limit")
          20
          running).1.deployments)
stop_rentals_over_key_limits-Fate_example =
    stop_rentals_over_key_limits-Fate (("k", 500) ∷ []) (charge ∷ []) [] 0 (λ d. "limit") 20 running
      "d" capped (tt, tt) refl

abbrev storage_world : World
storage_world = record world { control = saved }

store_deployment-exact_example :
    let (cents, w) =
      store_deployment retention monitor.workloads "storage" late "d" stopped storage_world in
    (1000 * cents + storage_of (lookup "d" w.control.deployments) ≡ 0 + 1069)
    × (balance_of "ann" w.db +ℤ pos cents ≡ pos 1)
store_deployment-exact_example =
    store_deployment-exact retention monitor.workloads "storage" late "d" stopped stopped
      storage_world (pos 1) refl refl refl
