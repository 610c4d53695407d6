-- ===== src/Workload/StatefulSets.antt =====
-- controllers/perses/statefulset_controller.go
use perses_operator.Prelude.{
  String, not, Option, none, some, List, [], ◌∷◌, Dict, default, if◌then◌else◌,
}
use perses_operator.Errors.{Error}
use perses_operator.Act.{Outcome}
use perses_operator.Subreconciler.{requeue_with_delay, seconds}
use perses_operator.Api.Instance.{
  Perses, StorageConfiguration, PersistentVolumeClaimSpec, requires_stateful_set,
}
use perses_operator.Controller.{Step}
use perses_operator.Pod.Args.{Config}
use perses_operator.Pod.Labels.{labels_for_perses}
use perses_operator.Pod.Volumes.{storage_volume_name}
use perses_operator.Workload.{
  Cluster, StatefulSet, StatefulSetSpec, ClaimTemplate, Memory, stateful_set_write,
  stateful_set_delete,
}
use perses_operator.Workload.Child.{Child, ensure, ensure_deleted}
use perses_operator.Workload.Services.{owned}
use perses_operator.Workload.Template.{pod_template, workload_meta, prepare}

abbrev read_write_once : List String
read_write_once = "ReadWriteOnce" ∷ []

abbrev user_template : Option StorageConfiguration → Option PersistentVolumeClaimSpec
user_template none = none
user_template (some s) = s.persistent_volume_claim_template

module _ {E : Type 0} (v : Cluster E) (config : Config) where
  unfoldable pub claim_template : Perses → ClaimTemplate
  claim_template perses = elim (user_template perses.spec.storage) [
    | none ↦ record {
      name = storage_volume_name;
      spec = record {
        access_modes = some read_write_once;
        storage_class_name = none;
        storage_request = some "1Gi";
        other = none;
      };
    }
    | some template ↦ record {
      name = storage_volume_name;
      spec = record template {
        access_modes = some (default read_write_once template.access_modes);
      };
    }
  ]

  abbrev pub stateful_set_spec : Perses → String → Dict String → StatefulSetSpec
  stateful_set_spec perses image annotations = record {
    selector = labels_for_perses v.lower_rune perses.name perses;
    replicas = perses.spec.replicas;
    template = pod_template v config perses image annotations;
    volume_claim_templates = claim_template perses ∷ [];
  }

  abbrev pub stateful_set_of : Perses → String → Dict String → Outcome Error StatefulSet
  stateful_set_of perses image annotations =
      owned v perses (workload_meta v config perses annotations)
        (λ m. record { meta = m; spec = stateful_set_spec perses image annotations })

  unfoldable pub create_perses_stateful_set : Perses → Outcome Error StatefulSet × Perses
  create_perses_stateful_set = prepare v config stateful_set_of

  abbrev pub stateful_set_child : Child E StatefulSet
  stateful_set_child = record {
    title = "StatefulSet";
    objects = v.stateful_sets;
    object_name = λ p. p.name;
    build = create_perses_stateful_set;
    needs_update = λ p found filled. not (v.stateful_set_equal found.spec filled.spec);
    write = stateful_set_write;
    created = requeue_with_delay (seconds 60);
  }

  unfoldable pub reconcile_stateful_set : Step (Memory E)
  reconcile_stateful_set s =
      let made = ensure v stateful_set_child s in
      let deleted = ensure_deleted v stateful_set_child stateful_set_delete s in
      if requires_stateful_set s.env.perses then made else deleted
