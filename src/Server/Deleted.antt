-- ===== src/Server/Deleted.antt =====
-- What the deletion of a resource achieves on one server.
use perses_operator.Prelude.{◌≡◌, ◌⊎◌, ap, true, String, none, some, arith, Bool-cases, inl, inr}
use perses_operator.Act.{ok, fail, Outcome-cases}
use perses_operator.Errors.{Error, is_request_not_found}
use perses_operator.Api.Instance.{Perses}
use perses_operator.World.{
  ObjectKind, Project, Env, World, dashboard, datasource, global_datasource, lift,
}
use perses_operator.Sync.{get_project_for_delete, delete_object_if_found}
use perses_operator.Datasources.{
  delete_datasource, delete_global_datasource, delete_secret_if_found,
}
use perses_operator.Act.Triple.{Triple, triple-bind}
use perses_operator.Server.Instances.{on_ok}
use perses_operator.Dashboards.{delete_dashboard}
use perses_operator.Server.{IsServer}

-- A server that deletes: an object whose deletion succeeded, or that was reported as not found, is
-- not stored after the call, another object is at most deleted too, and the deletion of a secret
-- touches no object.
pub record Deletes {E C : Type 0} {v : Env E C} (server : IsServer v) : Type 0 where
  pub delete_removes :
      (c : C) (k : ObjectKind) (p : Project) (n : String) (e : E)
      → (v.object_delete c k p n e).0 ≡ ok tt
      → server.stored (v.object_delete c k p n e).1 (server.at c) k p n ≡ none
  pub delete_missing :
      (c : C) (k : ObjectKind) (p : Project) (n : String) (e : E) (err : Error)
      → (v.object_delete c k p n e).0 ≡ fail err
      → is_request_not_found err ≡ true
      → server.stored (v.object_delete c k p n e).1 (server.at c) k p n ≡ none
  pub delete_frame :
      (c : C) (k : ObjectKind) (p : Project) (n : String) (e : E) (a : String) (k' : ObjectKind)
      (p' : Project) (n' : String)
      → (server.stored (v.object_delete c k p n e).1 a k' p' n' ≡ server.stored e a k' p' n')
        ⊎ (server.stored (v.object_delete c k p n e).1 a k' p' n' ≡ none)
  pub secret_delete_same :
      (c : C) (p : Project) (n : String) (e : E)
      → server.stored (v.secret_delete c p n e).1 ≡ server.stored e

module _ {E C : Type 0} {v : Env E C} (server : IsServer v) (laws : Deletes server) where
  abbrev pub Gone : ObjectKind → Project → String → String → World E → Type 0
  Gone k p n a w = server.stored w.env a k p n ≡ none

  abbrev Connected : C → String → World E → Type 0
  Connected c a w = server.at c ≡ a

  abbrev pub Nothing : World E → Type 0
  Nothing w = Unit

  Connected-create_client :
      (perses : Perses)
      → Triple Nothing
          (lift (v.create_client perses))
          (λ c. Connected c (server.address perses))
          Nothing
  Connected-create_client perses = record {
    at = λ w h. elim (Outcome-cases (v.create_client perses w.env).0) [
      | inl (c, e) ↦ ground (arith, e, server.connects perses w.env c e)
      | inr (err, e) ↦ ground (arith, e)
    ];
  }

  Connected-get_project :
      (c : C) (a ns : String)
      → Triple (Connected c a) (get_project_for_delete v c ns) (λ _. Connected c a) Nothing
  unfolding get_project_for_delete
  Connected-get_project c a ns = record { at = λ w h. ground arith }

  Gone-delete_object_if_found :
      (c : C) (a : String) (k : ObjectKind) (p : Project) (n : String)
      → Triple (Connected c a) (delete_object_if_found v c k p n) (λ _. Gone k p n a) Nothing
  unfolding delete_object_if_found
  Gone-delete_object_if_found c a k p n = record {
    at = λ w h. elim (Outcome-cases (v.object_delete c k p n w.env).0) [
      | inl (u, done) ↦ ground (arith, done, h, laws.delete_removes c k p n w.env done)
      | inr (err, failed) ↦ elim (Bool-cases (is_request_not_found err)) [
        | inl gone ↦
            ground (arith, failed, gone, h, laws.delete_missing c k p n w.env err failed gone)
        | inr other ↦ ground (arith, failed, other)
      ]
    ];
  }

  Gone-delete_secret_if_found :
      (c : C) (a : String) (k : ObjectKind) (p p' : Project) (n s : String)
      → Triple (Gone k p n a) (delete_secret_if_found v c p' s) (λ _. Gone k p n a) Nothing
  unfolding delete_secret_if_found
  Gone-delete_secret_if_found c a k p p' n s = record {
    at = λ w h. ground (arith, ap (λ x. x a k p n) (laws.secret_delete_same c p' s w.env));
  }

  pub Gone-delete_dashboard :
      (perses : Perses) (namespace name : String)
      → Triple Nothing
          (delete_dashboard v perses namespace name)
          (λ _. Gone dashboard (some namespace) name (server.address perses))
          Nothing
  unfolding delete_dashboard
  Gone-delete_dashboard perses namespace name = triple-bind (Connected-create_client perses) λ c.
      triple-bind (Connected-get_project c (server.address perses) namespace)
        λ _. Gone-delete_object_if_found c (server.address perses) dashboard (some namespace) name

  -- With servers that fulfil these laws: after a run of deleteDashboard that succeeds, the server
  -- of the instance does not hold the dashboard, whether it was deleted now or was already
  -- missing.
  pub delete_dashboard-deletes :
      (perses : Perses) (namespace name : String) (w : World E)
      → (delete_dashboard v perses namespace name w).0 ≡ ok tt
      → server.stored
          (delete_dashboard v perses namespace name w).1.env
          (server.address perses)
          dashboard
          (some namespace)
          name
        ≡ none
  delete_dashboard-deletes perses namespace name w good =
      on_ok (Gone-delete_dashboard perses namespace name) w tt tt good

  pub Gone-delete_datasource :
      (perses : Perses) (namespace name : String)
      → Triple Nothing
          (delete_datasource v perses namespace name)
          (λ _. Gone datasource (some namespace) name (server.address perses))
          Nothing
  unfolding delete_datasource
  Gone-delete_datasource perses namespace name =
      let a = server.address perses in
      triple-bind (Connected-create_client perses) λ c.
        triple-bind (Connected-get_project c a namespace) λ _.
          triple-bind (Gone-delete_object_if_found c a datasource (some namespace) name)
            λ _. Gone-delete_secret_if_found c a datasource (some namespace) (some namespace) name _

  -- With servers that fulfil these laws: after a run of deleteDatasource that succeeds, the server
  -- of the instance does not hold the datasource, whether it was deleted now or was already
  -- missing.
  pub delete_datasource-deletes :
      (perses : Perses) (namespace name : String) (w : World E)
      → (delete_datasource v perses namespace name w).0 ≡ ok tt
      → server.stored
          (delete_datasource v perses namespace name w).1.env
          (server.address perses)
          datasource
          (some namespace)
          name
        ≡ none
  delete_datasource-deletes perses namespace name w good =
      on_ok (Gone-delete_datasource perses namespace name) w tt tt good

  pub Gone-delete_global_datasource :
      (perses : Perses) (name : String)
      → Triple Nothing
          (delete_global_datasource v perses name)
          (λ _. Gone global_datasource none name (server.address perses))
          Nothing
  unfolding delete_global_datasource
  Gone-delete_global_datasource perses name =
      let a = server.address perses in
      triple-bind (Connected-create_client perses) λ c.
        triple-bind (Gone-delete_object_if_found c a global_datasource none name)
          λ _. Gone-delete_secret_if_found c a global_datasource none none name _

  -- With servers that fulfil these laws: after a run of deleteGlobalDatasource that succeeds, the
  -- server of the instance does not hold the global datasource, whether it was deleted now or was
  -- already missing.
  pub delete_global_datasource-deletes :
      (perses : Perses) (name : String) (w : World E)
      → (delete_global_datasource v perses name w).0 ≡ ok tt
      → server.stored
          (delete_global_datasource v perses name w).1.env
          (server.address perses)
          global_datasource
          none
          name
        ≡ none
  delete_global_datasource-deletes perses name w good =
      on_ok (Gone-delete_global_datasource perses name) w tt tt good
