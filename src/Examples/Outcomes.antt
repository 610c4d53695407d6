-- ===== src/Examples/Outcomes.antt =====
-- A reconciliation where the factory has no client, and its outcome.
use perses_operator.Prelude.{◌≡◌, refl, Option, some, [], ◌∷◌}
use perses_operator.Errors.{Error, plain, reason_connection_failed}
use perses_operator.Act.{ok, fail}
use perses_operator.Subreconciler.{empty_result}
use perses_operator.Metrics.{Metrics}
use perses_operator.Metrics.Tracker.{Tracker}
use perses_operator.World.{Env}
use perses_operator.Sync.{connect}
use perses_operator.Dashboards.{sync_perses_dashboard}
use perses_operator.Controller.Reconcile.{reconcile_found}
use perses_operator.Controller.Recorded.{IsTracked, IsCounted, reconcile_found_recorded}
use perses_operator.Controller.Degraded.{Ends, sync_instances-Ends}
use perses_operator.Kinds.{dashboards}
use perses_operator.Examples.{
  Objects, test_env, empty_world, perses_main, perses_other, test_resource, test_request,
}

-- No client can be made, and a resource can be read.
abbrev no_client_env : Env Objects Unit
no_client_env = record test_env {
  create_client = λ p e. (fail (plain "refused"), e);
  resource_get = λ k ns n e. (ok test_resource, e);
}

reconcile_found_recorded_example :
    let (r, w') =
      reconcile_found no_client_env
        (dashboards no_client_env)
        test_request
        test_resource
        empty_world in
    (err : Option Error) × (r ≡ some (empty_result, err))
    × ((rt : Tracker)
        → w'.tracker ≡ some rt
        → IsTracked no_client_env (dashboards no_client_env) test_request err rt)
    × ((m : Metrics)
        → w'.metrics ≡ some m
        → IsCounted no_client_env (dashboards no_client_env) test_request err m)
reconcile_found_recorded_example =
    reconcile_found_recorded no_client_env (dashboards no_client_env) test_request test_resource
      empty_world

refused :
    sync_perses_dashboard no_client_env perses_main test_resource empty_world
    ≡ (fail (record { reason = reason_connection_failed; err = plain "refused" }), empty_world)
unfolding sync_perses_dashboard connect
refused = refl

sync_instances-Ends_example :
    Ends no_client_env
      (dashboards no_client_env)
      test_request
      test_resource
      (perses_main ∷ perses_other ∷ [])
      empty_world
sync_instances-Ends_example =
    sync_instances-Ends no_client_env (dashboards no_client_env) test_request test_resource
      (perses_main ∷ perses_other ∷ []) empty_world
