-- ===== src/Workload/Template.antt =====
-- The pod template that createPersesDeployment and createPersesStatefulSet build with the same
-- statements: controllers/perses/deployment_controller.go and statefulset_controller.go.
use perses_operator.Prelude.{String, [], ◌∷◌, Dict, insert, default, ◌==◌, if◌then◌else◌}
use perses_operator.Errors.{Error}
use perses_operator.Act.{Outcome, ok, fail}
use perses_operator.Api.Instance.{Perses}
use perses_operator.Pod.Args.{
  Config, port_of, get_perses_args, get_probes, get_pod_security_context,
  get_container_security_context,
}
use perses_operator.Pod.Labels.{labels_for_perses, image_for_perses}
use perses_operator.Pod.Volumes.{get_volumes, get_volume_mounts, get_provisioning_hash}
use perses_operator.Workload.{Cluster, ObjectMeta, Container, PodTemplate}
use perses_operator.Workload.Services.{share_annotations}

-- `PersesProvisioningVersion`
abbrev provisioning_version : String
provisioning_version = "perses.dev/provisioning-version"

abbrev pub put_hash : String → Dict String → Dict String
put_hash hash annotations =
    if hash == "" then annotations else insert provisioning_version hash annotations

module _ {E : Type 0} (v : Cluster E) (config : Config) where
  abbrev container : Perses → String → Container
  container perses image = record {
    image = image;
    name = "perses";
    image_pull_policy = "IfNotPresent";
    security_context = get_container_security_context perses;
    ports = (port_of perses, "perses") ∷ [];
    volume_mounts = get_volume_mounts v.lower_rune v.join perses;
    args = get_perses_args v.show perses config;
    env = perses.spec.env;
    env_from = perses.spec.env_from;
    liveness_probe = (get_probes perses).0;
    readiness_probe = (get_probes perses).1;
    resources = perses.spec.resources;
  }

  unfoldable pub pod_template : Perses → String → Dict String → PodTemplate
  pod_template perses image annotations = record {
    annotations = annotations;
    labels = labels_for_perses v.lower_rune perses.name perses;
    node_selector = perses.spec.node_selector;
    tolerations = perses.spec.tolerations;
    affinity = perses.spec.affinity;
    security_context = get_pod_security_context perses;
    containers = container perses image ∷ [];
    volumes = get_volumes v.lower_rune v.join perses;
    restart_policy = "Always";
    dns_policy = "ClusterFirst";
    service_account_name = default "" perses.spec.service_account_name;
    priority_class_name = default "" perses.spec.priority_class_name;
  }

  -- `metav1.ObjectMeta` of the Deployment or the StatefulSet.
  abbrev pub workload_meta : Perses → Dict String → ObjectMeta
  workload_meta perses annotations = record {
    name = perses.name;
    namespace = perses.namespace;
    annotations = annotations;
    labels = labels_for_perses v.lower_rune perses.name perses;
    owner_references = [];
  }

  -- A builder of the object, given the image and the annotations.
  abbrev pub Filling : Type 0 → Type 0
  Filling O = Perses → String → Dict String → Outcome Error O

  abbrev pub with_image :
      {O : Type 0} → Filling O → Dict String → Perses → Outcome Error String → Outcome Error O
  with_image f annotations p (fail e) = fail e
  with_image f annotations p (ok image) = f p image annotations

  abbrev pub with_hash :
      {O : Type 0} → Filling O → Perses → Outcome Error String → Outcome Error O × Perses
  with_hash f perses (fail e) = (fail e, perses)
  with_hash f perses (ok hash) =
      let (annotations, p) = share_annotations (put_hash hash) perses in
      (with_image f annotations p (image_for_perses p config.perses_image), p)

  -- What both builders do before they fill in their object with `f`: the hash goes into the
  -- annotations, and the image is chosen.
  unfoldable pub prepare : {O : Type 0} → Filling O → Perses → Outcome Error O × Perses
  prepare f perses = with_hash f perses (get_provisioning_hash v.encode_versions perses)
