-- ===== src/InformerCache/Seen.antt =====
-- The operator sees the objects that it creates.
use mathlib.Core.Path.{subst}
use perses_operator.Prelude.{
  ℕ, String, Bool, true, ◌≡◌, refl, ap, ◌∙◌, Option, some, [], ◌∷◌, Dict, lookup,
}
use perses_operator.Errors.{Error}
use perses_operator.Act.{Outcome, ok, fail}
use perses_operator.Tags.{Text, codes}
use perses_operator.Api.Instance.{Perses}
use perses_operator.Pod.Args.{Config}
use perses_operator.Pod.Labels.{labels_for_perses, own_labels}
use perses_operator.Pod.Labels.Valid.{lookup-labels_for_perses}
use perses_operator.Workload.{Cluster, ObjectMeta, Service, ConfigMap, Deployment, StatefulSet}
use perses_operator.Workload.Services.{
  map_ok, owned, create_perses_service, service_annotations, share_annotations, copy_into,
  service_of, service_meta,
}
use perses_operator.Pod.{get_config_name}
use perses_operator.Workload.ConfigMaps.{create_perses_config_map, config_map_meta, config_map_with}
use perses_operator.Workload.Template.{workload_meta}
use perses_operator.Workload.Deployments.{deployment_of, deployment_spec, create_perses_deployment}
use perses_operator.Workload.StatefulSets.{
  stateful_set_of, stateful_set_spec, create_perses_stateful_set,
}
use perses_operator.Workload.Mounts.{IfOk}
use perses_operator.Workload.Mounts.Builders.{prepare-keeps}
use perses_operator.InformerCache.{
  Selectors, deployments, stateful_sets, config_maps, services, managed_by_label,
  build_cache_by_object, holds_object,
}

abbrev IsManaged : Dict Text → Type 0
IsManaged labels = lookup managed_by_label labels ≡ some (codes "perses-operator")

IsManaged-labels :
    (lower : ℕ → ℕ) (name : String) (p : Perses) → IsManaged (labels_for_perses lower name p)
unfolding own_labels lookup
IsManaged-labels lower name p = lookup-labels_for_perses lower managed_by_label name p

-- An owner's reference leaves the labels.
abbrev pub KeepsLabels : {E : Type 0} → Cluster E → Type 0
KeepsLabels v =
    (p : Perses) (m n : ObjectMeta) → v.set_controller_reference p m ≡ ok n → n.labels ≡ m.labels

map_ok-IfOk :
    {A B : Type 0} (P : B → Type 0) (f : A → B) (r : Outcome Error A)
    → ((a : A) → r ≡ ok a → P (f a))
    → IfOk P (map_ok f r)
map_ok-IfOk P f (ok a) h = h a refl
map_ok-IfOk P f (fail e) h = tt

ok-of : {O : Type 0} (P : O → Type 0) (r : Outcome Error O) (o : O) → r ≡ ok o → IfOk P r → P o
ok-of P r o e h = subst (IfOk P) e h

module _ {E : Type 0} (v : Cluster E) (keeps : KeepsLabels v) (config : Config) where
  -- An object whose metadata has labels of the operator.
  owned-IsManaged :
      {O : Type 0} (meta : O → ObjectMeta) (f : ObjectMeta → O) (p : Perses) (m : ObjectMeta)
      → ((n : ObjectMeta) → meta (f n) ≡ n)
      → IsManaged m.labels
      → IfOk (λ o. IsManaged (meta o).labels) (owned v p m f)
  owned-IsManaged meta f p m e h =
      map_ok-IfOk (λ o. IsManaged (meta o).labels) f (v.set_controller_reference p m)
        (λ n q.
          ap (λ (k : ObjectMeta). lookup managed_by_label k.labels) (e n)
          ∙ ap (lookup managed_by_label) (keeps p m n q)
          ∙ h)

  deployment-IsManaged :
      (p : Perses) → IfOk (λ o. IsManaged o.meta.labels) (create_perses_deployment v config p).0
  unfolding create_perses_deployment
  deployment-IsManaged p =
      (prepare-keeps v config (λ (o : Deployment). IsManaged o.meta.labels) (λ p. Unit {0})
        (λ h p u. tt) (deployment_of v config)
        (λ p image a u.
          owned-IsManaged (λ (o : Deployment). o.meta)
            (λ m. record { meta = m; spec = deployment_spec v config p image a }) p
            (workload_meta v config p a) (λ n. refl) (IsManaged-labels v.lower_rune p.name p))
        p tt).0

  stateful_set-IsManaged :
      (p : Perses) → IfOk (λ o. IsManaged o.meta.labels) (create_perses_stateful_set v config p).0
  unfolding create_perses_stateful_set
  stateful_set-IsManaged p =
      (prepare-keeps v config (λ (o : StatefulSet). IsManaged o.meta.labels) (λ p. Unit {0})
        (λ h p u. tt) (stateful_set_of v config)
        (λ p image a u.
          owned-IsManaged (λ (o : StatefulSet). o.meta)
            (λ m. record { meta = m; spec = stateful_set_spec v config p image a }) p
            (workload_meta v config p a) (λ n. refl) (IsManaged-labels v.lower_rune p.name p))
        p tt).0

  service-IsManaged :
      (name : String) (p : Perses)
      → IfOk (λ o. IsManaged o.meta.labels) (create_perses_service v name p).0
  unfolding create_perses_service
  service-IsManaged name p =
      let extra = service_annotations p.spec.service in
      let (a, q) = share_annotations (λ d. copy_into d extra) p in
      owned-IsManaged (λ (o : Service). o.meta) (service_of v q) q (service_meta v name q a)
        (λ n. refl) (IsManaged-labels v.lower_rune q.name q)

  config_map_with-IsManaged :
      (p : Perses) (r : Outcome Error String)
      → IfOk (λ o. IsManaged o.meta.labels) (config_map_with v p r)
  config_map_with-IsManaged p (fail e) = tt
  config_map_with-IsManaged p (ok yaml) =
      owned-IsManaged (λ (o : ConfigMap). o.meta)
        (λ m. record { meta = m; contents = ("config.yaml", yaml) ∷ [] }) p (config_map_meta v p)
        (λ n. refl) (IsManaged-labels v.lower_rune (get_config_name p.name) p)

  config_map-IsManaged :
      (p : Perses) → IfOk (λ o. IsManaged o.meta.labels) (create_perses_config_map v p)
  unfolding create_perses_config_map
  config_map-IsManaged p = config_map_with-IsManaged p (v.marshal_config p.spec.config)

-- A selector made from one label matches what has that label.
abbrev pub MatchesLabel : {S : Type 0} → Selectors S → Type 0
MatchesLabel l =
    (k : String) (t : Text) (labels : Dict Text)
    → lookup k labels ≡ some t
    → l.matches (l.selector_from_set ((k, t) ∷ [])) labels ≡ true

module _ {E S : Type 0} (v : Cluster E) (keeps : KeepsLabels v) (config : Config) (l : Selectors S)
    (law : MatchesLabel l) where
  -- Where a selector made from one label matches what has that label, and SetControllerReference
  -- leaves the labels: the Deployment, the StatefulSet, the Service and the ConfigMap that are built
  -- from a resource, whatever labels its metadata has, are held by the cache that BuildCacheOptions
  -- describes, whatever the flags: the operator finds again what it creates.
  pub build_cache_by_object-holds :
      (p : Perses) (name : String) (d : Deployment) (t : StatefulSet) (s : Service) (m : ConfigMap)
      (selector : Option S) (all profile : Bool)
      → (create_perses_deployment v config p).0 ≡ ok d
      → (create_perses_stateful_set v config p).0 ≡ ok t
      → (create_perses_service v name p).0 ≡ ok s
      → create_perses_config_map v p ≡ ok m
      → (holds_object l (build_cache_by_object l selector all profile deployments) d.meta.labels
          ≡ true)
        × (holds_object l (build_cache_by_object l selector all profile stateful_sets) t.meta.labels
            ≡ true)
        × (holds_object l (build_cache_by_object l selector all profile services) s.meta.labels
            ≡ true)
        × (holds_object l (build_cache_by_object l selector all profile config_maps) m.meta.labels
            ≡ true)
  unfolding build_cache_by_object
  build_cache_by_object-holds p name d t s m selector all profile hd ht hs hm =
      let managed = codes "perses-operator" in
      (
        law managed_by_label managed d.meta.labels (
            ok-of (λ (o : Deployment). IsManaged o.meta.labels)
              (create_perses_deployment v config p).0 d hd (deployment-IsManaged v keeps config p)),
        law managed_by_label managed t.meta.labels (
            ok-of (λ (o : StatefulSet). IsManaged o.meta.labels)
              (create_perses_stateful_set v config p).0 t ht
              (stateful_set-IsManaged v keeps config p)),
        law managed_by_label managed s.meta.labels (
            ok-of (λ (o : Service). IsManaged o.meta.labels) (create_perses_service v name p).0 s hs
              (service-IsManaged v keeps config name p)),
        law managed_by_label managed m.meta.labels (
            ok-of (λ (o : ConfigMap). IsManaged o.meta.labels) (create_perses_config_map v p) m hm
              (config_map-IsManaged v keeps config p)),
      )
