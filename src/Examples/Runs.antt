-- ===== src/Examples/Runs.antt =====
-- Runs of the controllers' code on the server of the examples.
use perses_operator.Prelude.{◌≡◌, refl, none, some, lookup}
use perses_operator.Errors.{is_request_not_found}
use perses_operator.Act.{ok}
use perses_operator.World.{dashboard, datasource, global_datasource}
use perses_operator.Secret.{
  get_basic_auth_data, read_source, cluster_read, source_namespace, data_at, has_secret_config,
}
use perses_operator.Sync.{connect, get_existing, validate, put, already_in_sync}
use perses_operator.Sync.Guarded.{IsGuarded}
use perses_operator.DatasourceSecret.{sync_secret, build_secret, basic_auth_config, put_secret}
use perses_operator.Dashboards.{desired_object, sync_perses_dashboard}
use perses_operator.Dashboards.Guarded.{NoSecret, sync_perses_dashboard-IsGuarded}
use perses_operator.Datasources.{
  sync_perses_datasource, sync_perses_global_datasource, sync_perses_global_secret,
}
use perses_operator.Datasources.Guarded.{
  AnySecret, sync_perses_datasource-IsGuarded, sync_perses_global_datasource-IsGuarded,
}
use perses_operator.Controller.Reconcile.{reconcile}
use perses_operator.Controller.Returns.{IsImmediate, reconcile-IsImmediate}
use perses_operator.Kinds.{dashboards}
use perses_operator.Server.Reaches.{IsSettled, sync_perses_global_datasource-IsSettled}
use perses_operator.Examples.{test_env, empty_world, perses_main, test_resource, test_request}
use perses_operator.Examples.TestServer.{test_server}

global_datasource_run :
    (sync_perses_global_datasource test_env perses_main test_resource empty_world).0 ≡ ok tt
unfolding sync_perses_global_datasource connect get_existing validate put already_in_sync
    sync_perses_global_secret sync_secret build_secret basic_auth_config put_secret
    get_basic_auth_data has_secret_config read_source cluster_read source_namespace data_at
    is_request_not_found lookup
global_datasource_run = refl

sync_perses_global_datasource-IsSettled_example :
    IsSettled test_server global_datasource none
      (desired_object test_env test_resource)
      perses_main
      (sync_perses_global_datasource test_env perses_main test_resource)
      (sync_perses_global_datasource test_env perses_main test_resource empty_world).1
sync_perses_global_datasource-IsSettled_example =
    sync_perses_global_datasource-IsSettled test_server perses_main test_resource empty_world
      global_datasource_run

sync_perses_dashboard-IsGuarded_example :
    IsGuarded dashboard
      (some "team")
      NoSecret
      (desired_object test_env test_resource)
      (sync_perses_dashboard test_env perses_main test_resource empty_world).1.calls
sync_perses_dashboard-IsGuarded_example =
    sync_perses_dashboard-IsGuarded test_env perses_main test_resource empty_world tt

sync_perses_datasource-IsGuarded_example :
    IsGuarded datasource
      (some "team")
      AnySecret
      (desired_object test_env test_resource)
      (sync_perses_datasource test_env perses_main test_resource empty_world).1.calls
sync_perses_datasource-IsGuarded_example =
    sync_perses_datasource-IsGuarded test_env perses_main test_resource empty_world tt

sync_perses_global_datasource-IsGuarded_example :
    IsGuarded global_datasource none AnySecret
      (desired_object test_env test_resource)
      (sync_perses_global_datasource test_env perses_main test_resource empty_world).1.calls
sync_perses_global_datasource-IsGuarded_example =
    sync_perses_global_datasource-IsGuarded test_env perses_main test_resource empty_world tt

reconcile-IsImmediate_example :
    IsImmediate (reconcile test_env (dashboards test_env) test_request empty_world).0
reconcile-IsImmediate_example =
    reconcile-IsImmediate test_env (dashboards test_env) test_request empty_world
