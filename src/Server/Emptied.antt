-- ===== src/Server/Emptied.antt =====
-- What the deletion of a resource achieves on all instances: an instance that was emptied stays so
-- while the others are.
use perses_operator.Prelude.{
  ◌≡◌, inl, inr, sym, ap, ◌∙◌, String, none, some, List, [], ◌∷◌, All, arith,
}
use mathlib.Core.Path.{subst}
use perses_operator.Act.{Act, ok, fail, Outcome-cases}
use perses_operator.Act.Triple.{Triple, triple-bind}
use perses_operator.Errors.{Error}
use perses_operator.Subreconciler.{empty_result, should_halt_or_requeue, should_requeue}
use perses_operator.Api.Instance.{Perses}
use perses_operator.World.{
  ObjectKind, Project, Env, World, dashboard, datasource, global_datasource, lift,
}
use perses_operator.Sync.{get_project_for_delete, delete_object_if_found}
use perses_operator.Sync.Guarded.{kept_either}
use perses_operator.Datasources.{
  delete_datasource, delete_global_datasource, delete_secret_if_found,
}
use perses_operator.Dashboards.{delete_dashboard}
use perses_operator.Controller.{Kind, Request, delete_instances}
use perses_operator.Kinds.{dashboards, datasources, global_datasources}
use perses_operator.Server.{IsServer}
use perses_operator.Server.Instances.{on_ok}
use perses_operator.Server.Deleted.{
  Deletes, Gone, Nothing, Gone-delete_dashboard, Gone-delete_datasource,
  Gone-delete_global_datasource,
}

module _ {E C : Type 0} {v : Env E C} (server : IsServer v) (laws : Deletes server) (k : ObjectKind)
    (p : Project) (n a : String) where
  abbrev Stays : {A : Type 0} → Act (World E) Error A → Type 0
  Stays m =
      Triple (Gone server laws k p n a) m (λ _. Gone server laws k p n a) (Gone server laws k p n a)

  Stays-create_client : (i : Perses) → Stays (lift (v.create_client i))
  Stays-create_client i = record {
    at = λ w h. ground (arith, h, ap (λ x. x a k p n) (server.create_client_same i w.env));
  }

  Stays-get_project : (c : C) (ns : String) → Stays (get_project_for_delete v c ns)
  unfolding get_project_for_delete
  Stays-get_project c ns = record {
    at = λ w h. ground (arith, h, ap (λ x. x a k p n) (server.project_get_same c ns w.env));
  }

  Stays-delete_object :
      (c : C) (k' : ObjectKind) (p' : Project) (n' : String)
      → Stays (delete_object_if_found v c k' p' n')
  unfolding delete_object_if_found
  Stays-delete_object c k' p' n' = record {
    at = λ w h. ground (arith, h, laws.delete_frame c k' p' n' w.env a k p n);
  }

  Stays-delete_secret :
      (c : C) (p' : Project) (s : String) → Stays (delete_secret_if_found v c p' s)
  unfolding delete_secret_if_found
  Stays-delete_secret c p' s = record {
    at = λ w h. ground (arith, h, ap (λ x. x a k p n) (laws.secret_delete_same c p' s w.env));
  }

  Stays-delete_dashboard : (i : Perses) (ns s : String) → Stays (delete_dashboard v i ns s)
  unfolding delete_dashboard
  Stays-delete_dashboard i ns s =
      triple-bind (Stays-create_client i)
        λ c. triple-bind (Stays-get_project c ns) λ _. Stays-delete_object c dashboard (some ns) s

  Stays-delete_datasource : (i : Perses) (ns s : String) → Stays (delete_datasource v i ns s)
  unfolding delete_datasource
  Stays-delete_datasource i ns s = triple-bind (Stays-create_client i) λ c.
      triple-bind (Stays-get_project c ns) λ _.
        triple-bind (Stays-delete_object c datasource (some ns) s)
          λ _. Stays-delete_secret c (some ns) _

  Stays-delete_global_datasource :
      (i : Perses) (s : String) → Stays (delete_global_datasource v i s)
  unfolding delete_global_datasource
  Stays-delete_global_datasource i s = triple-bind (Stays-create_client i) λ c.
      triple-bind (Stays-delete_object c global_datasource none s) λ _. Stays-delete_secret c none _

module _ {E C : Type 0} {v : Env E C} (server : IsServer v) (laws : Deletes server) (kind : Kind E)
    (req : Request) (k : ObjectKind) (p : Project) (n : String)
    (deletes : (i : Perses)
      → Triple
          (Nothing server laws)
          (kind.delete i req)
          (λ _. Gone server laws k p n (server.address i))
          (Nothing server laws))
    (stays : (i : Perses) (a : String)
      → Triple
          (Gone server laws k p n a)
          (kind.delete i req)
          (λ _. Gone server laws k p n a)
          (Gone server laws k p n a)) where
  after_ok :
      (i : Perses) (is : List Perses) (w : World E)
      → (kind.delete i req w).0 ≡ ok tt
      → delete_instances v kind req (i ∷ is) w
        ≡ delete_instances v kind req is (kind.delete i req w).1
  unfolding delete_instances should_halt_or_requeue should_requeue
  after_ok i is w good = rw good

  after_fail :
      (i : Perses) (is : List Perses) (w : World E) (err : Error)
      → (kind.delete i req w).0 ≡ fail err
      → delete_instances v kind req (i ∷ is) w
        ≡ ((some empty_result, some err), (kind.delete i req w).1)
  unfolding delete_instances should_halt_or_requeue should_requeue
  after_fail i is w err bad = rw bad

  Gone-delete_instances :
      (a : String) (is : List Perses) (w : World E)
      → Gone server laws k p n a w
      → Gone server laws k p n a (delete_instances v kind req is w).1
  Gone-delete_instances a [] w h = unfold delete_instances in h
  Gone-delete_instances a (i ∷ is) w h =
      let h' = kept_either (stays i a) w h in
      elim (Outcome-cases (kind.delete i req w).0) [
        | inl (u, good) ↦
            subst (λ x. Gone server laws k p n a x.1) (sym (after_ok i is w good))
              (Gone-delete_instances a is _ h')
        | inr (err, bad) ↦
            subst (λ x. Gone server laws k p n a x.1) (sym (after_fail i is w err bad)) h'
      ]

  pub delete_instances-All :
      (is : List Perses) (w : World E)
      → (delete_instances v kind req is w).0.1 ≡ none
      → All (λ i. Gone server laws k p n (server.address i) (delete_instances v kind req is w).1) is
  delete_instances-All [] w done = tt
  delete_instances-All (i ∷ is) w done = elim (Outcome-cases (kind.delete i req w).0) [
    | inl (u, good) ↦
        let e = after_ok i is w good in
        let h = on_ok (deletes i) w tt u good in
        subst (λ x. All (λ j. Gone server laws k p n (server.address j) x.1) (i ∷ is)) (sym e)
          (
            Gone-delete_instances (server.address i) is _ h,
            delete_instances-All is _ (sym (ap (λ x. x.0.1) e) ∙ done),
          )
    | inr (err, bad) ↦ absurd (cc (ap (λ x. x.0.1) (after_fail i is w err bad), done))
  ]

module _ {E C : Type 0} {v : Env E C} (server : IsServer v) (laws : Deletes server) (req : Request)
    (is : List Perses) (w : World E) where
  -- With servers that fulfil the laws of IsServer and Deletes: where the loop of
  -- deleteDashboardInAllInstances ends without an error, no server of an instance in the list
  -- holds the dashboard at the end.
  pub delete_dashboard_everywhere :
      (delete_instances v (dashboards v) req is w).0.1 ≡ none
      → All
          (λ i.
            server.stored
              (delete_instances v (dashboards v) req is w).1.env
              (server.address i)
              dashboard
              (some req.namespace)
              req.name
            ≡ none)
          is
  delete_dashboard_everywhere =
      delete_instances-All server laws (dashboards v) req dashboard (some req.namespace) req.name
        (λ i. Gone-delete_dashboard server laws i req.namespace req.name)
        (λ i a.
          Stays-delete_dashboard server laws dashboard (some req.namespace) req.name a i
            req.namespace req.name)
        is w

  -- With servers that fulfil the laws of IsServer and Deletes: where the loop of
  -- deleteDatasourceInAllInstances ends without an error, no server of an instance in the list
  -- holds the datasource at the end.
  pub delete_datasource_everywhere :
      (delete_instances v (datasources v) req is w).0.1 ≡ none
      → All
          (λ i.
            server.stored
              (delete_instances v (datasources v) req is w).1.env
              (server.address i)
              datasource
              (some req.namespace)
              req.name
            ≡ none)
          is
  delete_datasource_everywhere =
      delete_instances-All server laws (datasources v) req datasource (some req.namespace) req.name
        (λ i. Gone-delete_datasource server laws i req.namespace req.name)
        (λ i a.
          Stays-delete_datasource server laws datasource (some req.namespace) req.name a i
            req.namespace req.name)
        is w

  -- With servers that fulfil the laws of IsServer and Deletes: where the loop of
  -- deleteGlobalDatasourceInAllInstances ends without an error, no server of an instance in the
  -- list holds the global datasource at the end.
  pub delete_global_datasource_everywhere :
      (delete_instances v (global_datasources v) req is w).0.1 ≡ none
      → All
          (λ i.
            server.stored
              (delete_instances v (global_datasources v) req is w).1.env
              (server.address i)
              global_datasource
              none
              req.name
            ≡ none)
          is
  delete_global_datasource_everywhere =
      delete_instances-All server laws (global_datasources v) req global_datasource none req.name
        (λ i. Gone-delete_global_datasource server laws i req.name)
        (λ i a.
          Stays-delete_global_datasource server laws global_datasource none req.name a i req.name)
        is w
