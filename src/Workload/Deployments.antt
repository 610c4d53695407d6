-- ===== src/Workload/Deployments.antt =====
-- controllers/perses/deployment_controller.go
use perses_operator.Prelude.{String, not, Dict, if◌then◌else◌}
use perses_operator.Errors.{Error}
use perses_operator.Act.{Outcome}
use perses_operator.Subreconciler.{continue_reconciling}
use perses_operator.Api.Instance.{Perses, requires_deployment}
use perses_operator.Controller.{Step}
use perses_operator.Pod.Args.{Config}
use perses_operator.Pod.Labels.{labels_for_perses}
use perses_operator.Workload.{
  Cluster, Deployment, DeploymentSpec, Memory, deployment_write, deployment_delete,
}
use perses_operator.Workload.Child.{Child, ensure, ensure_deleted}
use perses_operator.Workload.Services.{owned}
use perses_operator.Workload.Template.{pod_template, workload_meta, prepare}

module _ {E : Type 0} (v : Cluster E) (config : Config) where
  abbrev pub deployment_spec : Perses → String → Dict String → DeploymentSpec
  deployment_spec perses image annotations = record {
    selector = labels_for_perses v.lower_rune perses.name perses;
    replicas = perses.spec.replicas;
    template = pod_template v config perses image annotations;
    strategy = ("RollingUpdate", ("25%", "25%"));
  }

  abbrev pub deployment_of : Perses → String → Dict String → Outcome Error Deployment
  deployment_of perses image annotations =
      owned v perses (workload_meta v config perses annotations)
        (λ m. record { meta = m; spec = deployment_spec perses image annotations })

  unfoldable pub create_perses_deployment : Perses → Outcome Error Deployment × Perses
  create_perses_deployment = prepare v config deployment_of

  abbrev pub deployment_child : Child E Deployment
  deployment_child = record {
    title = "Deployment";
    objects = v.deployments;
    object_name = λ p. p.name;
    build = create_perses_deployment;
    needs_update = λ p found filled. not (v.deployment_equal found.spec filled.spec);
    write = deployment_write;
    created = continue_reconciling;
  }

  unfoldable pub reconcile_deployment : Step (Memory E)
  reconcile_deployment s =
      let made = ensure v deployment_child s in
      let deleted = ensure_deleted v deployment_child deployment_delete s in
      if requires_deployment s.env.perses then made else deleted
