-- ===== src/Workload/Services.antt =====
-- controllers/perses/service_controller.go
use perses_operator.Prelude.{
  String, Bool, false, not, ◌||◌, Option, none, some, [], ◌∷◌, Dict, lookup, insert, default,
  length, nat_eq, ◌==◌, if◌then◌else◌,
}
use perses_operator.Errors.{Error}
use perses_operator.Act.{Outcome, ok, fail}
use perses_operator.Subreconciler.{continue_reconciling}
use perses_operator.Tags.{Text, text_eq}
use perses_operator.Api.Instance.{Perses, PodMetadata, PersesService}
use perses_operator.Controller.{Step}
use perses_operator.Pod.Args.{port_of}
use perses_operator.Pod.Labels.{labels_for_perses}
use perses_operator.Workload.{Cluster, ObjectMeta, Service, Memory, service_write}
use perses_operator.Workload.Child.{Child, ensure}

-- `perses.Spec.Metadata.Annotations`, which is nil where there is no metadata.
abbrev pub metadata_annotations : Option PodMetadata → Option (Dict String)
metadata_annotations none = none
metadata_annotations (some m) = m.annotations

abbrev change_some : (Dict String → Dict String) → Option (Dict String) → Option (Dict String)
change_some f none = none
change_some f (some a) = some (f a)

abbrev with_annotations : (Dict String → Dict String) → Option PodMetadata → Option PodMetadata
with_annotations f none = none
with_annotations f (some m) = some (record m { annotations = change_some f m.annotations })

-- The map of the metadata's annotations is shared by the object of the context and what is built
-- from it: what a builder puts into it, it puts into both. A nil map is not shared.
abbrev pub share_annotations : (Dict String → Dict String) → Perses → Dict String × Perses
share_annotations f perses = (
  f (default [] (metadata_annotations perses.spec.metadata)),
  record perses {
    spec = record perses.spec { metadata = with_annotations f perses.spec.metadata };
  },
)

-- `maps.Copy(dst, src)`
unfoldable pub copy_into : Dict String → Dict String → Dict String
copy_into dst [] = dst
copy_into dst ((k, a) ∷ src) = copy_into (insert k a dst) src

abbrev pub service_annotations : Option PersesService → Dict String
service_annotations none = []
service_annotations (some s) = default [] s.annotations

abbrev own_name : Option PersesService → String
own_name none = ""
own_name (some s) = default "" s.name

unfoldable pub service_name : Perses → String
service_name perses =
    let own = own_name perses.spec.service in if own == "" then perses.name else own

abbrev label_equal : Option Text → Option Text → Bool
label_equal a b = text_eq (default [] a) (default [] b)

-- `for k := range labels`
abbrev pub labels_differ : Dict Text → Dict Text → Dict Text → Bool
labels_differ [] a b = false
labels_differ ((k, _) ∷ labels) a b =
    not (label_equal (lookup k a) (lookup k b)) || labels_differ labels a b

abbrev pub map_ok : {A B : Type 0} → (A → B) → Outcome Error A → Outcome Error B
map_ok f (ok a) = ok (f a)
map_ok f (fail e) = fail e

module _ {E : Type 0} (v : Cluster E) where
  unfoldable pub service_needs_update : String → Perses → Service → Service → Bool
  service_needs_update name perses existing updated =
      let labels = labels_for_perses v.lower_rune name perses in
      (not (existing.meta.name == updated.meta.name)
        || not (existing.meta.namespace == updated.meta.namespace))
      || (not (v.service_type_equal existing.service_type updated.service_type)
          || (not (v.ports_equal existing.ports updated.ports)
              || not (v.dict_equal existing.meta.annotations updated.meta.annotations)))
      || (not (nat_eq (length existing.selector) (length labels))
          || (labels_differ labels existing.meta.labels updated.meta.labels
              || labels_differ labels existing.selector updated.selector))

  -- The object with its metadata, once it refers to its owner.
  abbrev pub owned : {O : Type 0} → Perses → ObjectMeta → (ObjectMeta → O) → Outcome Error O
  owned perses meta f = map_ok f (v.set_controller_reference perses meta)

  abbrev pub service_of : Perses → ObjectMeta → Service
  service_of perses meta = record {
    meta = meta;
    service_type = "ClusterIP";
    ports =
        record {
          name = "http";
          port = port_of perses;
          protocol = "TCP";
          target_port = port_of perses;
        }
        ∷ [];
    selector = labels_for_perses v.lower_rune perses.name perses;
  }

  abbrev pub service_meta : String → Perses → Dict String → ObjectMeta
  service_meta name perses annotations = record {
    name = name;
    namespace = perses.namespace;
    annotations = annotations;
    labels = labels_for_perses v.lower_rune perses.name perses;
    owner_references = [];
  }

  unfoldable pub create_perses_service : String → Perses → Outcome Error Service × Perses
  create_perses_service name perses =
      let extra = service_annotations perses.spec.service in
      let (annotations, p) = share_annotations (λ a. copy_into a extra) perses in
      (owned p (service_meta name p annotations) (service_of p), p)

  abbrev pub service_child : Child E Service
  service_child = record {
    title = "Service";
    objects = v.services;
    object_name = service_name;
    build = λ p. create_perses_service (service_name p) p;
    needs_update = λ p. service_needs_update p.name p;
    write = service_write;
    created = continue_reconciling;
  }

  unfoldable pub reconcile_service : Step (Memory E)
  reconcile_service = ensure v service_child
