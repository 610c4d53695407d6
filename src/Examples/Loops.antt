-- ===== src/Examples/Loops.antt =====
-- Runs of the loops over the instances on the server of the examples.
use perses_operator.Prelude.{◌≡◌, refl, true, none, some, List, [], ◌∷◌, All, lookup}
use perses_operator.Errors.{is_request_not_found}
use perses_operator.Subreconciler.{continue_reconciling, should_halt_or_requeue, should_requeue}
use perses_operator.World.{dashboard, datasource, global_datasource}
use perses_operator.Tags.{
  parse_tags, add_tags, split_commas, trim_space, to_lower, to_lower_rune, is_space,
}
use perses_operator.Secret.{
  get_basic_auth_data, read_source, cluster_read, source_namespace, data_at, has_secret_config,
}
use perses_operator.Sync.{
  connect, ensure_project, get_existing, validate, put, already_in_sync, in_sync, tags_equal,
}
use perses_operator.DatasourceSecret.{sync_secret, build_secret, basic_auth_config, put_secret}
use perses_operator.Dashboards.{desired_object, sync_perses_dashboard}
use perses_operator.Datasources.{
  sync_perses_datasource, sync_perses_global_datasource, sync_perses_secret,
  sync_perses_global_secret,
}
use perses_operator.Controller.{sync_instances}
use perses_operator.Kinds.{dashboards, datasources, global_datasources}
use perses_operator.Api.Instance.{Perses}
use perses_operator.Server.{Holds}
use perses_operator.Server.Reaches.{
  dashboard_reaches_instances, datasource_reaches_instances, global_datasource_reaches_instances,
}
use perses_operator.Examples.{
  test_env, empty_world, perses_main, perses_other, test_resource, test_request,
}
use perses_operator.Examples.TestServer.{test_server}

abbrev both_instances : List Perses
both_instances = perses_main ∷ perses_other ∷ []

dashboard_loop :
    (sync_instances test_env
      (dashboards test_env)
      test_request
      test_resource
      both_instances
      empty_world).0
    ≡ continue_reconciling
unfolding sync_instances sync_perses_dashboard connect ensure_project get_existing validate put
    already_in_sync should_halt_or_requeue should_requeue in_sync tags_equal parse_tags add_tags
    split_commas trim_space to_lower to_lower_rune is_space is_request_not_found lookup
dashboard_loop = refl

datasource_loop :
    (sync_instances test_env
      (datasources test_env)
      test_request
      test_resource
      both_instances
      empty_world).0
    ≡ continue_reconciling
unfolding sync_instances sync_perses_datasource connect ensure_project get_existing validate put
    already_in_sync should_halt_or_requeue should_requeue in_sync tags_equal parse_tags add_tags
    split_commas trim_space to_lower to_lower_rune is_space sync_perses_secret sync_secret
    build_secret basic_auth_config put_secret get_basic_auth_data has_secret_config read_source
    cluster_read source_namespace data_at is_request_not_found lookup
datasource_loop = refl

global_datasource_loop :
    (sync_instances test_env
      (global_datasources test_env)
      test_request
      test_resource
      both_instances
      empty_world).0
    ≡ continue_reconciling
unfolding sync_instances sync_perses_global_datasource connect get_existing validate put
    already_in_sync should_halt_or_requeue should_requeue in_sync tags_equal parse_tags add_tags
    split_commas trim_space to_lower to_lower_rune is_space sync_perses_global_secret sync_secret
    build_secret basic_auth_config put_secret get_basic_auth_data has_secret_config read_source
    cluster_read source_namespace data_at is_request_not_found lookup
global_datasource_loop = refl

dashboard_reaches_instances_example :
    All
      (λ i.
        test_env.is_status_condition_true i.conditions "Available" ≡ true
        → Holds test_server dashboard
            (some "team")
            (desired_object test_env test_resource)
            (test_server.address i)
            (sync_instances test_env
              (dashboards test_env)
              test_request
              test_resource
              both_instances
              empty_world).1.env)
      both_instances
dashboard_reaches_instances_example =
    dashboard_reaches_instances test_server test_request test_resource both_instances empty_world
      dashboard_loop

datasource_reaches_instances_example :
    All
      (λ i.
        test_env.is_status_condition_true i.conditions "Available" ≡ true
        → Holds test_server datasource
            (some "team")
            (desired_object test_env test_resource)
            (test_server.address i)
            (sync_instances test_env
              (datasources test_env)
              test_request
              test_resource
              both_instances
              empty_world).1.env)
      both_instances
datasource_reaches_instances_example =
    datasource_reaches_instances test_server test_request test_resource both_instances empty_world
      datasource_loop

global_datasource_reaches_instances_example :
    All
      (λ i.
        test_env.is_status_condition_true i.conditions "Available" ≡ true
        → Holds test_server global_datasource none
            (desired_object test_env test_resource)
            (test_server.address i)
            (sync_instances test_env
              (global_datasources test_env)
              test_request
              test_resource
              both_instances
              empty_world).1.env)
      both_instances
global_datasource_reaches_instances_example =
    global_datasource_reaches_instances test_server test_request test_resource both_instances
      empty_world global_datasource_loop
