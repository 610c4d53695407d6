-- ===== src/Examples/Deletions.antt =====
-- Deletions on the server of the examples.
use perses_operator.Prelude.{◌≡◌, refl, none, some, List, [], ◌∷◌, All}
use perses_operator.Api.Instance.{Perses}
use perses_operator.Subreconciler.{should_halt_or_requeue, should_requeue}
use perses_operator.World.{dashboard, datasource, global_datasource}
use perses_operator.Sync.{get_project_for_delete, delete_object_if_found}
use perses_operator.Dashboards.{delete_dashboard}
use perses_operator.Datasources.{
  delete_datasource, delete_global_datasource, delete_secret_if_found,
}
use perses_operator.Errors.{is_request_not_found}
use perses_operator.Controller.{delete_instances}
use perses_operator.Kinds.{dashboards, datasources, global_datasources}
use perses_operator.Server.Emptied.{
  delete_dashboard_everywhere, delete_datasource_everywhere, delete_global_datasource_everywhere,
}
use perses_operator.Examples.{test_env, empty_world, perses_main, perses_other, test_request}
use perses_operator.Examples.TestServer.{test_server, test_deletes}

abbrev instances : List Perses
instances = perses_main ∷ perses_other ∷ []

dashboard_deletions :
    (delete_instances test_env (dashboards test_env) test_request instances empty_world).0.1 ≡ none
unfolding delete_instances delete_dashboard get_project_for_delete delete_object_if_found
    should_halt_or_requeue should_requeue is_request_not_found
dashboard_deletions = refl

datasource_deletions :
    (delete_instances test_env (datasources test_env) test_request instances empty_world).0.1 ≡ none
unfolding delete_instances delete_datasource get_project_for_delete delete_object_if_found
    delete_secret_if_found should_halt_or_requeue should_requeue is_request_not_found
datasource_deletions = refl

global_datasource_deletions :
    (delete_instances test_env (global_datasources test_env) test_request instances empty_world).0.1
    ≡ none
unfolding delete_instances delete_global_datasource delete_object_if_found delete_secret_if_found
    should_halt_or_requeue should_requeue is_request_not_found
global_datasource_deletions = refl

delete_dashboard_everywhere_example :
    All
      (λ i.
        test_server.stored
          (delete_instances test_env (dashboards test_env) test_request instances empty_world).1.env
          (test_server.address i)
          dashboard
          (some "team")
          "cpu"
        ≡ none)
      instances
delete_dashboard_everywhere_example =
    delete_dashboard_everywhere test_server test_deletes test_request instances empty_world
      dashboard_deletions

delete_datasource_everywhere_example :
    All
      (λ i.
        test_server.stored
          (delete_instances test_env
            (datasources test_env)
            test_request
            instances
            empty_world).1.env
          (test_server.address i)
          datasource
          (some "team")
          "cpu"
        ≡ none)
      instances
delete_datasource_everywhere_example =
    delete_datasource_everywhere test_server test_deletes test_request instances empty_world
      datasource_deletions

delete_global_datasource_everywhere_example :
    All
      (λ i.
        test_server.stored
          (delete_instances test_env
            (global_datasources test_env)
            test_request
            instances
            empty_world).1.env
          (test_server.address i)
          global_datasource
          none
          "cpu"
        ≡ none)
      instances
delete_global_datasource_everywhere_example =
    delete_global_datasource_everywhere test_server test_deletes test_request instances empty_world
      global_datasource_deletions
