-- ===== src/Workload/Mounts/Builders.antt =====
-- The four builders of objects make pod templates whose container mounts volumes of its pod.
use perses_operator.Prelude.{String, Dict}
use perses_operator.Errors.{Error}
use perses_operator.Act.{Outcome, ok, fail}
use perses_operator.Api.Instance.{Perses, requires_deployment, requires_stateful_set}
use perses_operator.Pod.Args.{Config}
use perses_operator.Pod.Labels.{image_for_perses}
use perses_operator.Pod.Volumes.{get_provisioning_hash}
use perses_operator.Pod.Volumes.Mounted.{get_volume_mounts-Mounted}
use perses_operator.Workload.{Cluster, State, deployment_delete, stateful_set_delete}
use perses_operator.Workload.Child.{ensure, ensure_deleted}
use perses_operator.Workload.Services.{
  map_ok, share_annotations, create_perses_service, service_child, reconcile_service, service_name,
}
use perses_operator.Workload.ConfigMaps.{
  create_perses_config_map, config_map_child, reconcile_config_map,
}
use perses_operator.Workload.Template.{
  pod_template, prepare, with_hash, with_image, put_hash, Filling, workload_meta,
}
use perses_operator.Workload.Deployments.{
  deployment_of, deployment_spec, create_perses_deployment, deployment_child, reconcile_deployment,
}
use perses_operator.Workload.StatefulSets.{
  stateful_set_of, stateful_set_spec, create_perses_stateful_set, stateful_set_child,
  reconcile_stateful_set,
}
use perses_operator.Workload.Mounts.{
  TemplateMounted, SpecMounted, IfOk, ReadyMounted, IsMounting, FillsTemplates, SameMounts-Mounted,
  if-keeps, ensure-keeps, ensure_deleted-keeps,
}

pub map_ok-IfOk :
    {A B : Type 0} (P : B → Type 0) (f : A → B) (r : Outcome Error A)
    → ((a : A) → P (f a))
    → IfOk P (map_ok f r)
map_ok-IfOk P f (ok a) h = h a
map_ok-IfOk P f (fail e) h = tt

pub IfOk-all : {O : Type 0} (P : O → Type 0) (r : Outcome Error O) → ((o : O) → P o) → IfOk P r
IfOk-all P (ok o) h = h o
IfOk-all P (fail e) h = tt

-- What a builder makes of a resource of which `R` holds fulfils `P`, and `R` still holds.
module _ {E : Type 0} (v : Cluster E) (config : Config) {O : Type 0} (P : O → Type 0)
    (R : Perses → Type 0)
    (shared : (h : String) (p : Perses) → R p → R (share_annotations (put_hash h) p).1)
    (f : Filling v config O)
    (g : (p : Perses) (image : String) (a : Dict String) → R p → IfOk P (f p image a)) where
  imaged-IfOk :
      (r : Outcome Error String) (q : Perses) (a : Dict String)
      → R q
      → IfOk P (with_image v config f a q r)
  imaged-IfOk (fail e) q a h = tt
  imaged-IfOk (ok image) q a h = g q image a h

  with_hash-keeps :
      (p : Perses) (r : Outcome Error String)
      → R p
      → IfOk P (with_hash v config f p r).0 × R (with_hash v config f p r).1
  with_hash-keeps p (fail e) h = (tt, h)
  with_hash-keeps p (ok hash) h =
      let (a, q) = share_annotations (put_hash hash) p in
      let k = shared hash p h in (imaged-IfOk (image_for_perses q config.perses_image) q a k, k)

  pub prepare-keeps :
      (p : Perses) → R p → IfOk P (prepare v config f p).0 × R (prepare v config f p).1
  unfolding prepare
  prepare-keeps p h = with_hash-keeps p (get_provisioning_hash v.encode_versions p) h

module _ {E : Type 0} (v : Cluster E) (config : Config) (filled : FillsTemplates v) where
  template_mounted :
      (p : Perses) (image : String) (a : Dict String)
      → SpecMounted p
      → TemplateMounted (pod_template v config p image a)
  unfolding pod_template
  template_mounted p image a h = (get_volume_mounts-Mounted v.lower_rune v.join p h, tt)

  deployment_mounting : IsMounting v (deployment_child v config)
  unfolding create_perses_deployment
  deployment_mounting = (
    prepare-keeps v config (λ d. TemplateMounted d.spec.template × TemplateMounted d.spec.template)
        SpecMounted (λ hash p h. h) (deployment_of v config)
        (λ p image a h.
          map_ok-IfOk (λ d. TemplateMounted d.spec.template × TemplateMounted d.spec.template)
            (λ m. record { meta = m; spec = deployment_spec v config p image a })
            (v.set_controller_reference p (workload_meta v config p a))
            (λ m. (template_mounted p image a h, template_mounted p image a h))),
    λ d d' e h q.
        SameMounts-Mounted d.spec.template d'.spec.template (filled.deployments_filled d d' e q) h,
  )

  stateful_set_mounting : IsMounting v (stateful_set_child v config)
  unfolding create_perses_stateful_set
  stateful_set_mounting = (
    prepare-keeps v config (λ d. TemplateMounted d.spec.template × TemplateMounted d.spec.template)
        SpecMounted (λ hash p h. h) (stateful_set_of v config)
        (λ p image a h.
          map_ok-IfOk (λ d. TemplateMounted d.spec.template × TemplateMounted d.spec.template)
            (λ m. record { meta = m; spec = stateful_set_spec v config p image a })
            (v.set_controller_reference p (workload_meta v config p a))
            (λ m. (template_mounted p image a h, template_mounted p image a h))),
    λ d d' e h q.
        SameMounts-Mounted d.spec.template d'.spec.template (filled.stateful_sets_filled d d' e q)
          h,
  )

  pub deployment-keeps :
      (s : State E) → ReadyMounted s → ReadyMounted (reconcile_deployment v config s).1
  unfolding reconcile_deployment
  deployment-keeps s k =
      if-keeps ReadyMounted (requires_deployment s.env.perses)
        (ensure v (deployment_child v config) s)
        (ensure_deleted v (deployment_child v config) deployment_delete s)
        (ensure-keeps v (deployment_child v config) deployment_mounting s k)
        (ensure_deleted-keeps v (deployment_child v config) deployment_delete s (λ n. tt) k)

  pub stateful_set-keeps :
      (s : State E) → ReadyMounted s → ReadyMounted (reconcile_stateful_set v config s).1
  unfolding reconcile_stateful_set
  stateful_set-keeps s k =
      if-keeps ReadyMounted (requires_stateful_set s.env.perses)
        (ensure v (stateful_set_child v config) s)
        (ensure_deleted v (stateful_set_child v config) stateful_set_delete s)
        (ensure-keeps v (stateful_set_child v config) stateful_set_mounting s k)
        (ensure_deleted-keeps v (stateful_set_child v config) stateful_set_delete s (λ n. tt) k)

module _ {E : Type 0} (v : Cluster E) where
  service_mounting : IsMounting v (service_child v)
  unfolding create_perses_service
  service_mounting = (
    λ p h. (
      IfOk-all (λ o. Unit × Unit) (create_perses_service v (service_name p) p).0 (λ o. (tt, tt)),
      h,
    ),
    λ o o' e h q. tt,
  )

  config_map_mounting : IsMounting v (config_map_child v)
  config_map_mounting = (
    λ p h. (IfOk-all (λ o. Unit × Unit) (create_perses_config_map v p) (λ o. (tt, tt)), h),
    λ o o' e h q. tt,
  )

  pub service-keeps : (s : State E) → ReadyMounted s → ReadyMounted (reconcile_service v s).1
  unfolding reconcile_service
  service-keeps = ensure-keeps v (service_child v) service_mounting

  pub config_map-keeps : (s : State E) → ReadyMounted s → ReadyMounted (reconcile_config_map v s).1
  unfolding reconcile_config_map
  config_map-keeps = ensure-keeps v (config_map_child v) config_map_mounting
