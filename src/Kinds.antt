-- ===== src/Kinds.antt =====
-- The three controllers as instances of Controller.
use perses_operator.World.{Env, World, dashboard, datasource, global_datasource}
use perses_operator.Dashboards.{sync_perses_dashboard, delete_dashboard}
use perses_operator.Datasources.{
  sync_perses_datasource, sync_perses_global_datasource, delete_datasource,
  delete_global_datasource,
}
use perses_operator.Prelude.{Option}
use perses_operator.Errors.{Error, ConditionStatusReason}
use perses_operator.Subreconciler.{ReconcileResult}
use perses_operator.Api.{Resource}
use perses_operator.Controller.{
  Kind, Request, Step, update_status, set_status_to_unknown, set_status_to_complete,
  set_status_to_degraded, reconcile_in_all_instances, delete_in_all_instances,
}
use perses_operator.Controller.Reconcile.{ReconcileOutcome, reconcile}

module _ {E C : Type 0} (v : Env E C) where
  -- PersesDashboardReconciler
  abbrev pub dashboards : Kind E
  dashboards = record {
    object_kind = dashboard;
    controller = "persesdashboard";
    resource = "dashboard";
    title = "Dashboard";
    metrics_namespace = λ req. req.namespace;
    sync = sync_perses_dashboard v;
    delete = λ p req. delete_dashboard v p req.namespace req.name;
  }

  -- PersesDatasourceReconciler
  abbrev pub datasources : Kind E
  datasources = record {
    object_kind = datasource;
    controller = "persesdatasource";
    resource = "datasource";
    title = "Datasource";
    metrics_namespace = λ req. req.namespace;
    sync = sync_perses_datasource v;
    delete = λ p req. delete_datasource v p req.namespace req.name;
  }

  -- PersesGlobalDatasourceReconciler
  abbrev pub global_datasources : Kind E
  global_datasources = record {
    object_kind = global_datasource;
    controller = "persesglobaldatasource";
    resource = "globaldatasource";
    title = "GlobalDatasource";
    metrics_namespace = λ req. "";
    sync = sync_perses_global_datasource v;
    delete = λ p req. delete_global_datasource v p req.name;
  }

  unfoldable pub reconcile_dashboard : Request → World E → ReconcileOutcome × World E
  reconcile_dashboard req = reconcile v dashboards req

  unfoldable pub reconcile_datasource : Request → World E → ReconcileOutcome × World E
  reconcile_datasource req = reconcile v datasources req

  unfoldable pub reconcile_global_datasource : Request → World E → ReconcileOutcome × World E
  reconcile_global_datasource req = reconcile v global_datasources req

  -- The functions of this controller.
  unfoldable pub update_datasource_status :
      Request → Option Resource → (Resource → Resource) → Step E
  update_datasource_status req = update_status v datasources req

  unfoldable pub set_datasource_status_to_unknown : Request → Option Resource → Step E
  set_datasource_status_to_unknown req = set_status_to_unknown v datasources req

  unfoldable pub set_datasource_status_to_complete : Request → Option Resource → Step E
  set_datasource_status_to_complete req = set_status_to_complete v datasources req

  unfoldable pub set_datasource_status_to_degraded :
      Request
      → Option Resource
      → Option ReconcileResult
      → ConditionStatusReason
      → Option Error
      → Step E
  set_datasource_status_to_degraded req = set_status_to_degraded v datasources req

  unfoldable pub reconcile_datasources_in_all_instances : Request → Option Resource → Step E
  reconcile_datasources_in_all_instances req = reconcile_in_all_instances v datasources req

  unfoldable pub delete_datasource_in_all_instances : Request → Step E
  delete_datasource_in_all_instances req = delete_in_all_instances v datasources req

  -- The functions of this controller.
  unfoldable pub update_global_datasource_status :
      Request → Option Resource → (Resource → Resource) → Step E
  update_global_datasource_status req = update_status v global_datasources req

  unfoldable pub set_global_datasource_status_to_unknown : Request → Option Resource → Step E
  set_global_datasource_status_to_unknown req = set_status_to_unknown v global_datasources req

  unfoldable pub set_global_datasource_status_to_complete : Request → Option Resource → Step E
  set_global_datasource_status_to_complete req = set_status_to_complete v global_datasources req

  unfoldable pub set_global_datasource_status_to_degraded :
      Request
      → Option Resource
      → Option ReconcileResult
      → ConditionStatusReason
      → Option Error
      → Step E
  set_global_datasource_status_to_degraded req = set_status_to_degraded v global_datasources req

  unfoldable pub reconcile_global_datasources_in_all_instances : Request → Option Resource → Step E
  reconcile_global_datasources_in_all_instances req =
      reconcile_in_all_instances v global_datasources req

  unfoldable pub delete_global_datasource_in_all_instances : Request → Step E
  delete_global_datasource_in_all_instances req = delete_in_all_instances v global_datasources req
