-- ===== src/Examples/Caching.antt =====
-- The cache and the watches of the operator, on the cluster of the examples.
use perses_operator.Prelude.{
  String, Bool, true, false, ◌&&◌, ◌≡◌, refl, sym, ap, Option, none, some, List, [], ◌∷◌, Dict,
  lookup, arith, not, if◌then◌else◌, ◌==◌, eq_refl,
}
use perses_operator.Errors.{Error}
use perses_operator.Act.{Outcome, ok, fail}
use perses_operator.Tags.{Text, text_eq}
use perses_operator.Api.{raw}
use perses_operator.Pod.Volumes.Mounted.{text_eq_refl}
use perses_operator.Workload.{ObjectMeta, Service, ConfigMap}
use perses_operator.Workload.Services.{service_meta, service_of, create_perses_service, copy_into}
use perses_operator.Workload.ConfigMaps.{config_map_meta, create_perses_config_map}
use perses_operator.InformerCache.{
  Selectors, deployments, stateful_sets, services, config_maps, build_cache_by_object, holds_object,
}
use perses_operator.InformerCache.Seen.{KeepsLabels, MatchesLabel, build_cache_by_object-holds}
use perses_operator.Api.{Condition}
use perses_operator.PersesController.{complete_update}
use perses_operator.Watches.{
  is_true_status, FindsCondition, perses_object, update_event, perses_availability_predicate,
  complete_update-admitted,
}
use perses_operator.Examples.Instances.{instance_request}
use perses_operator.Examples.Workloads.{
  test_deployment, test_stateful_set, deployment_built, stateful_set_built,
}
use perses_operator.Examples.TestCluster.{test_cluster, test_config, test_instance}

abbrev label_is : Text → Option Text → Bool
label_is t none = false
label_is t (some u) = text_eq u t

abbrev matches_set : Dict Text → Dict Text → Bool
matches_set [] labels = true
matches_set ((k, t) ∷ set) labels = label_is t (lookup k labels) && matches_set set labels

abbrev test_selectors : Selectors (Dict Text)
test_selectors = record { selector_from_set = λ s. s; everything = []; matches = matches_set }

matches_label : MatchesLabel test_selectors
matches_label k t labels h = ground (arith, text_eq_refl t)

abbrev labels_of : Outcome Error ObjectMeta → Dict Text
labels_of (ok m) = m.labels
labels_of (fail e) = []

keeps_labels : KeepsLabels test_cluster
keeps_labels p m n h = sym (ap labels_of h)

abbrev test_service : Service
test_service =
    service_of test_cluster test_instance
      (record (service_meta test_cluster "main" test_instance []) {
        owner_references = raw "main" ∷ [];
      })

service_built : (create_perses_service test_cluster "main" test_instance).0 ≡ ok test_service
unfolding create_perses_service copy_into
service_built = refl

abbrev test_config_map : ConfigMap
test_config_map = record {
  meta = record (config_map_meta test_cluster test_instance) { owner_references = raw "main" ∷ [] };
  contents = ("config.yaml", "") ∷ [];
}

config_map_built : create_perses_config_map test_cluster test_instance ≡ ok test_config_map
unfolding create_perses_config_map
config_map_built = refl

build_cache_by_object-holds_example :
    (holds_object test_selectors
        (build_cache_by_object test_selectors none false false deployments)
        test_deployment.meta.labels
      ≡ true)
    × (holds_object test_selectors
          (build_cache_by_object test_selectors none false false stateful_sets)
          test_stateful_set.meta.labels
        ≡ true)
    × (holds_object test_selectors
          (build_cache_by_object test_selectors none false false services)
          test_service.meta.labels
        ≡ true)
    × (holds_object test_selectors
          (build_cache_by_object test_selectors none false false config_maps)
          test_config_map.meta.labels
        ≡ true)
build_cache_by_object-holds_example =
    build_cache_by_object-holds test_cluster keeps_labels test_config test_selectors matches_label
      test_instance "main" test_deployment test_stateful_set test_service test_config_map none false
      false deployment_built stateful_set_built service_built config_map_built

abbrev first_is_true : List Condition → String → Bool
first_is_true [] kind = false
first_is_true (c ∷ cs) kind =
    let rest = first_is_true cs kind in if c.kind == kind then is_true_status c.status else rest

finds_condition : FindsCondition test_cluster first_is_true
finds_condition cs c = ground (arith, eq_refl c.kind)

complete_update-admitted_example :
    (perses_availability_predicate first_is_true (
        update_event
          (perses_object test_instance)
          (perses_object (complete_update test_cluster instance_request test_instance)))
      ≡ not (first_is_true test_instance.conditions "Available"))
    × (perses_availability_predicate first_is_true (
          update_event
            (perses_object (complete_update test_cluster instance_request test_instance))
            (perses_object (
              complete_update test_cluster instance_request
                (complete_update test_cluster instance_request test_instance))))
        ≡ false)
complete_update-admitted_example =
    complete_update-admitted test_cluster instance_request first_is_true finds_condition
      test_instance
