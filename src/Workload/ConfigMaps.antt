-- ===== src/Workload/ConfigMaps.antt =====
-- controllers/perses/configmap_controller.go
use perses_operator.Prelude.{String, Bool, not, ◌||◌, [], ◌∷◌, default, ◌==◌}
use perses_operator.Errors.{Error}
use perses_operator.Act.{Outcome, ok, fail}
use perses_operator.Subreconciler.{continue_reconciling}
use perses_operator.Api.Instance.{Perses}
use perses_operator.Controller.{Step}
use perses_operator.Pod.{get_config_name}
use perses_operator.Pod.Labels.{labels_for_perses}
use perses_operator.Workload.{Cluster, ObjectMeta, ConfigMap, Memory, config_map_write}
use perses_operator.Workload.Child.{Child, ensure}
use perses_operator.Workload.Services.{labels_differ, metadata_annotations, owned}

module _ {E : Type 0} (v : Cluster E) where
  unfoldable pub config_map_needs_update : String → Perses → ConfigMap → ConfigMap → Bool
  config_map_needs_update name perses existing updated =
      (not (existing.meta.name == updated.meta.name)
        || not (existing.meta.namespace == updated.meta.namespace))
      || (not (v.dict_equal existing.contents updated.contents)
          || not (v.dict_equal existing.meta.annotations updated.meta.annotations))
      || labels_differ (labels_for_perses v.lower_rune name perses) existing.meta.labels
          updated.meta.labels

  abbrev pub config_map_meta : Perses → ObjectMeta
  config_map_meta perses = record {
    name = get_config_name perses.name;
    namespace = perses.namespace;
    annotations = default [] (metadata_annotations perses.spec.metadata);
    labels = labels_for_perses v.lower_rune (get_config_name perses.name) perses;
    owner_references = [];
  }

  abbrev pub config_map_with : Perses → Outcome Error String → Outcome Error ConfigMap
  config_map_with perses (fail e) = fail e
  config_map_with perses (ok yaml) =
      owned v perses (config_map_meta perses)
        (λ m. record { meta = m; contents = ("config.yaml", yaml) ∷ [] })

  unfoldable pub create_perses_config_map : Perses → Outcome Error ConfigMap
  create_perses_config_map perses = config_map_with perses (v.marshal_config perses.spec.config)

  abbrev pub config_map_child : Child E ConfigMap
  config_map_child = record {
    title = "ConfigMap";
    objects = v.config_maps;
    object_name = λ p. get_config_name p.name;
    build = λ p. (create_perses_config_map p, p);
    needs_update = λ p. config_map_needs_update (get_config_name p.name) p;
    write = config_map_write;
    created = continue_reconciling;
  }

  unfoldable pub reconcile_config_map : Step (Memory E)
  reconcile_config_map = ensure v config_map_child
