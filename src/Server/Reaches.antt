-- ===== src/Server/Reaches.antt =====
-- What the synchronisation of each kind of resource achieves: on one server, and on all instances.
use perses_operator.Prelude.{true, ◌≡◌, refl, none, some, List, All}
use perses_operator.Act.{ok}
use perses_operator.Api.{Resource}
use perses_operator.Api.Instance.{Perses}
use perses_operator.Subreconciler.{continue_reconciling}
use perses_operator.World.{
  ObjectKind, Object, Project, Env, World, dashboard, datasource, global_datasource,
}
use perses_operator.Sync.{Sync}
use perses_operator.Controller.{Request, sync_instances}
use perses_operator.Dashboards.{desired_object}
use perses_operator.Datasources.{sync_perses_global_datasource}
use perses_operator.Kinds.{dashboards, datasources, global_datasources}
use perses_operator.Server.{IsServer, Holds}
use perses_operator.Server.Synced.{
  converges-dashboard, converges-datasource, converges-global_datasource, keeps-dashboard,
  keeps-datasource, keeps-global_datasource,
}
use perses_operator.Server.Idle.{writes, idle-global_datasource}
use perses_operator.Server.Instances.{sync_instances_converge, on_ok}
use perses_operator.Sync.Guarded.{kept_either}

module _ {E C : Type 0} {v : Env E C} (server : IsServer v) where
  -- The server of `perses` holds `o`, by its tags and its specification, and running `m` once more writes
  -- nothing, whether or not it succeeds.
  abbrev pub IsSettled : ObjectKind → Project → Object → Perses → Sync E Unit → World E → Type 0
  IsSettled k p o perses m w =
      Holds server k p o (server.address perses) w.env × (writes (m w).1.calls ≡ writes w.calls)

  -- With servers that fulfil the laws of IsServer: after a run of syncPersesGlobalDatasource that
  -- succeeds, the server of the instance holds a global datasource under its name with the desired
  -- tags and the desired specification, and a further run for it writes nothing to the server:
  -- neither the global datasource nor its secret.
  pub sync_perses_global_datasource-IsSettled :
      (perses : Perses) (d : Resource) (w : World E)
      → (sync_perses_global_datasource v perses d w).0 ≡ ok tt
      → IsSettled global_datasource none
          (desired_object v d)
          perses
          (sync_perses_global_datasource v perses d)
          (sync_perses_global_datasource v perses d w).1
  sync_perses_global_datasource-IsSettled perses d w good =
      let w' = (sync_perses_global_datasource v perses d w).1 in
      let h = on_ok (converges-global_datasource server perses d) w tt tt good in
      (h, kept_either (idle-global_datasource server perses d (writes w'.calls)) w' (h, refl))

  module _ (req : Request) (d : Resource) (is : List Perses) (w : World E) where
    -- With servers that fulfil the laws of IsServer: where the loop of
    -- reconcileDashboardInAllInstances ends with ContinueReconciling, the server of each instance
    -- in the list that is available holds, at the end, a dashboard under its name with the desired
    -- tags and the desired specification.
    pub dashboard_reaches_instances :
        (sync_instances v (dashboards v) req d is w).0 ≡ continue_reconciling
        → All
            (λ i.
              v.is_status_condition_true i.conditions "Available" ≡ true
              → Holds server dashboard
                  (some d.namespace)
                  (desired_object v d)
                  (server.address i)
                  (sync_instances v (dashboards v) req d is w).1.env)
            is
    dashboard_reaches_instances done =
        sync_instances_converge server (dashboards v) req dashboard (some d.namespace)
          (desired_object v d) d (λ i. converges-dashboard server i d)
          (λ i a. keeps-dashboard server i d a) is w done

    -- With servers that fulfil the laws of IsServer: where the loop of
    -- reconcileDatasourcesInAllInstances ends with ContinueReconciling, the server of each
    -- instance in the list that is available holds, at the end, a datasource under its name with
    -- the desired tags and the desired specification.
    pub datasource_reaches_instances :
        (sync_instances v (datasources v) req d is w).0 ≡ continue_reconciling
        → All
            (λ i.
              v.is_status_condition_true i.conditions "Available" ≡ true
              → Holds server datasource
                  (some d.namespace)
                  (desired_object v d)
                  (server.address i)
                  (sync_instances v (datasources v) req d is w).1.env)
            is
    datasource_reaches_instances done =
        sync_instances_converge server (datasources v) req datasource (some d.namespace)
          (desired_object v d) d (λ i. converges-datasource server i d)
          (λ i a. keeps-datasource server i d a) is w done

    -- With servers that fulfil the laws of IsServer: where the loop of
    -- reconcileGlobalDatasourcesInAllInstances ends with ContinueReconciling, the server of each
    -- instance in the list that is available holds, at the end, a global datasource under its name
    -- with the desired tags and the desired specification.
    pub global_datasource_reaches_instances :
        (sync_instances v (global_datasources v) req d is w).0 ≡ continue_reconciling
        → All
            (λ i.
              v.is_status_condition_true i.conditions "Available" ≡ true
              → Holds server global_datasource none
                  (desired_object v d)
                  (server.address i)
                  (sync_instances v (global_datasources v) req d is w).1.env)
            is
    global_datasource_reaches_instances done =
        sync_instances_converge server (global_datasources v) req global_datasource none
          (desired_object v d) d (λ i. converges-global_datasource server i d)
          (λ i a. keeps-global_datasource server i d a) is w done
