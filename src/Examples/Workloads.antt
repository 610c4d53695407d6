-- ===== src/Examples/Workloads.antt =====
-- The Deployment and the StatefulSet of the instance of the examples, on its cluster.
use perses_operator.Prelude.{true, ◌≡◌, refl, sym, ap, none, some, eq_refl, [], ◌∷◌, arith}
use perses_operator.Act.{Outcome, ok}
use perses_operator.Api.Instance.{requires_deployment, requires_stateful_set}
use perses_operator.Api.{raw}
use perses_operator.Pod.Volumes.{get_provisioning_hash}
use perses_operator.Pod.Labels.{image_for_perses}
use perses_operator.Workload.{ObjectMeta, Deployment, DeploymentSpec, StatefulSet, StatefulSetSpec}
use perses_operator.Errors.{Error}
use perses_operator.Workload.Template.{workload_meta, prepare}
use perses_operator.Workload.Deployments.{
  deployment_spec, create_perses_deployment, deployment_child, reconcile_deployment,
}
use perses_operator.Workload.StatefulSets.{
  stateful_set_spec, create_perses_stateful_set, stateful_set_child, reconcile_stateful_set,
}
use perses_operator.Workload.Settled.{Answers}
use perses_operator.Workload.Settled.Workloads.{
  KeepsNames, Desired, reconcile_deployment-Desired, reconcile_stateful_set-Desired,
}
use perses_operator.Examples.TestCluster.{
  test_cluster, test_config, test_instance, test_state, test_store, held, put_deployment,
  put_stateful_set,
}

held_itself :
    {O : Type 0} (meta : O → ObjectMeta) (o : O)
    → held meta (meta o).name (meta o).namespace (some o) ≡ some o
held_itself meta o = rw (eq_refl (meta o).name, eq_refl (meta o).namespace)

meta_injective : {a b : ObjectMeta} → ◌≡◌ {A = Outcome Error ObjectMeta} (ok a) (ok b) → a ≡ b
meta_injective h = cc

names_kept : KeepsNames test_cluster
names_kept p m m' h =
    let e = meta_injective h in
    (sym (ap (λ (x : ObjectMeta). x.name) e), sym (ap (λ (x : ObjectMeta). x.namespace) e))

abbrev answers_deployments : Answers test_cluster.deployments (λ (f : Deployment). f.meta)
answers_deployments = record {
  look = λ n ns e. held (λ (f : Deployment). f.meta) n ns e.deployment;
  accepts = λ m o. true;
  fill = λ m o. o;
  stored = put_deployment;
  drop = λ n ns e. record e { deployment = none };
  get_law = λ n ns e. refl;
  create_law = λ o e h k. refl;
  dry_run_law = λ o f e h k. refl;
  update_law = λ o f e h k. refl;
  delete_law = λ n ns f e h. refl;
  fill_again = λ f o. refl;
  fill_accepted = λ f o h. refl;
  fill_name = λ m o. refl;
  fill_namespace = λ m o. refl;
  put_law = λ o e. held_itself (λ (f : Deployment). f.meta) o;
  drop_law = λ n ns e. refl;
}

-- Never equal: every reconciliation updates.
deployments_equal : (x y : DeploymentSpec) → test_cluster.deployment_equal x y ≡ true → x ≡ y
deployments_equal x y h = absurd (ground arith)

abbrev pub test_deployment : Deployment
test_deployment = record {
  meta = record (workload_meta test_cluster test_config test_instance []) {
    owner_references = raw "main" ∷ [];
  };
  spec = deployment_spec test_cluster test_config test_instance "perses:v1" [];
}

pub deployment_built :
    (create_perses_deployment test_cluster test_config test_instance).0 ≡ ok test_deployment
unfolding create_perses_deployment prepare get_provisioning_hash image_for_perses
deployment_built = refl

reconcile_deployment-Desired_example :
    Desired test_cluster
      (deployment_child test_cluster test_config)
      answers_deployments
      (λ (f : Deployment). f.spec)
      (requires_deployment test_instance)
      (answers_deployments.look "main" "monitoring" test_store)
      test_deployment
      (answers_deployments.look "main" "monitoring"
        (reconcile_deployment test_cluster test_config test_state).1.env.cluster)
reconcile_deployment-Desired_example =
    reconcile_deployment-Desired test_cluster names_kept test_config answers_deployments
      test_deployment test_state deployments_equal deployment_built (λ r. refl)

abbrev answers_stateful_sets : Answers test_cluster.stateful_sets (λ (f : StatefulSet). f.meta)
answers_stateful_sets = record {
  look = λ n ns e. held (λ (f : StatefulSet). f.meta) n ns e.stateful_set;
  accepts = λ m o. true;
  fill = λ m o. o;
  stored = put_stateful_set;
  drop = λ n ns e. record e { stateful_set = none };
  get_law = λ n ns e. refl;
  create_law = λ o e h k. refl;
  dry_run_law = λ o f e h k. refl;
  update_law = λ o f e h k. refl;
  delete_law = λ n ns f e h. refl;
  fill_again = λ f o. refl;
  fill_accepted = λ f o h. refl;
  fill_name = λ m o. refl;
  fill_namespace = λ m o. refl;
  put_law = λ o e. held_itself (λ (f : StatefulSet). f.meta) o;
  drop_law = λ n ns e. refl;
}

stateful_sets_equal : (x y : StatefulSetSpec) → test_cluster.stateful_set_equal x y ≡ true → x ≡ y
stateful_sets_equal x y h = absurd (ground arith)

abbrev pub test_stateful_set : StatefulSet
test_stateful_set = record {
  meta = record (workload_meta test_cluster test_config test_instance []) {
    owner_references = raw "main" ∷ [];
  };
  spec = stateful_set_spec test_cluster test_config test_instance "perses:v1" [];
}

pub stateful_set_built :
    (create_perses_stateful_set test_cluster test_config test_instance).0 ≡ ok test_stateful_set
unfolding create_perses_stateful_set prepare get_provisioning_hash image_for_perses
stateful_set_built = refl

reconcile_stateful_set-Desired_example :
    Desired test_cluster
      (stateful_set_child test_cluster test_config)
      answers_stateful_sets
      (λ (f : StatefulSet). f.spec)
      (requires_stateful_set test_instance)
      (answers_stateful_sets.look "main" "monitoring" test_store)
      test_stateful_set
      (answers_stateful_sets.look "main" "monitoring"
        (reconcile_stateful_set test_cluster test_config test_state).1.env.cluster)
reconcile_stateful_set-Desired_example =
    reconcile_stateful_set-Desired test_cluster names_kept test_config answers_stateful_sets
      test_stateful_set test_state stateful_sets_equal stateful_set_built (λ r. refl)
