-- ===== src/Workload/Mounts.antt =====
-- Every pod template that is sent to the API server has the volumes that its container mounts.
pub mod Builders
use perses_operator.Prelude.{
  ◌≡◌, refl, sym, map, Bool, true, false, List, [], ◌∷◌, String, Dict, All, if◌then◌else◌,
}
use perses_operator.Errors.{Error, is_not_found}
use perses_operator.Subreconciler.{StepResult, continue_reconciling, requeue_with_error}
use perses_operator.Act.{Act, Outcome, ok, fail}
use perses_operator.Api.Instance.{Perses, VolumeMount, requires_deployment, requires_stateful_set}
use mathlib.Core.Path.{subst}
use perses_operator.Tags.{Text, mem_text}
use perses_operator.World.{World}
use perses_operator.Controller.{Step}
use perses_operator.Pod.Args.{Config}
use perses_operator.Pod.Labels.{image_for_perses}
use perses_operator.Pod.Volumes.{get_volumes, get_volume_mounts, get_provisioning_hash}
use perses_operator.Pod.Volumes.Mounted.{Mounted, names, get_volume_mounts-Mounted}
use perses_operator.Workload.{
  Deployment, StatefulSet, Container, Cluster, Memory, State, Write, Mode, creation, dry_run,
  full_update, service_write, config_map_write, deployment_write, stateful_set_write,
  deployment_delete, stateful_set_delete, finalizer_write, status_write, PodTemplate, ObjectMeta,
  from_cluster, sent,
}
use perses_operator.Workload.Child.{
  Child, create_child, update_child, ensure_got, ensure, ensure_deleted, update_filled, built,
  delete_got, done_with,
}
use perses_operator.Workload.Services.{
  map_ok, share_annotations, create_perses_service, service_child, reconcile_service, service_name,
}
use perses_operator.Workload.ConfigMaps.{
  create_perses_config_map, config_map_child, reconcile_config_map,
}
use perses_operator.Workload.Template.{
  pod_template, prepare, with_hash, with_image, put_hash, Filling, workload_meta,
}
use perses_operator.Workload.Deployments.{
  deployment_of, deployment_spec, create_perses_deployment, deployment_child, reconcile_deployment,
}
use perses_operator.Workload.StatefulSets.{
  stateful_set_of, stateful_set_spec, create_perses_stateful_set, stateful_set_child,
  reconcile_stateful_set,
}

abbrev pub TemplateMounted : PodTemplate → Type 0
TemplateMounted t = All (λ c. Mounted t.volumes c.volume_mounts) t.containers

-- A write of a workload, in each of the three modes, has a mounted template.
abbrev pub WriteMounted : Write → Type 0
WriteMounted (deployment_write _ d) = TemplateMounted d.spec.template
WriteMounted (stateful_set_write _ d) = TemplateMounted d.spec.template
WriteMounted (service_write _ _) = Unit
WriteMounted (config_map_write _ _) = Unit
WriteMounted (deployment_delete _) = Unit
WriteMounted (stateful_set_delete _) = Unit
WriteMounted (finalizer_write _) = Unit
WriteMounted (status_write _) = Unit

abbrev mounts_of : PodTemplate → List (List VolumeMount)
mounts_of t = map (λ c. c.volume_mounts) t.containers

-- The server answers a dry run with the object as it would be stored: what it fills in changes
-- neither the names of the volumes of a pod template nor the mounts of its containers.
abbrev pub SameMounts : PodTemplate → PodTemplate → Type 0
SameMounts t t' = (names t'.volumes ≡ names t.volumes) × (mounts_of t' ≡ mounts_of t)

pub record FillsTemplates {E : Type 0} (v : Cluster E) : Type 0 where
  pub deployments_filled :
      (d d' : Deployment) (e : E)
      → (v.deployments.update_dry_run d e).0 ≡ ok d'
      → SameMounts d.spec.template d'.spec.template
  pub stateful_sets_filled :
      (d d' : StatefulSet) (e : E)
      → (v.stateful_sets.update_dry_run d e).0 ≡ ok d'
      → SameMounts d.spec.template d'.spec.template

mounts-All :
    (ns : List Text) (cs : List Container)
    → All
        (λ ms. All (λ (m : VolumeMount). mem_text m.name ns ≡ true) ms)
        (map (λ (c : Container). c.volume_mounts) cs)
    → All (λ (c : Container). All (λ m. mem_text m.name ns ≡ true) c.volume_mounts) cs
mounts-All ns [] h = tt
mounts-All ns (c ∷ cs) h = (h.0, mounts-All ns cs h.1)

All-mounts :
    (ns : List Text) (cs : List Container)
    → All (λ (c : Container). All (λ m. mem_text m.name ns ≡ true) c.volume_mounts) cs
    → All
        (λ ms. All (λ (m : VolumeMount). mem_text m.name ns ≡ true) ms)
        (map (λ (c : Container). c.volume_mounts) cs)
All-mounts ns [] h = tt
All-mounts ns (c ∷ cs) h = (h.0, All-mounts ns cs h.1)

pub SameMounts-Mounted :
    (t t' : PodTemplate) → SameMounts t t' → TemplateMounted t → TemplateMounted t'
SameMounts-Mounted t t' same h = mounts-All (names t'.volumes) t'.containers (
    subst (λ ns. All (λ ms. All (λ (m : VolumeMount). mem_text m.name ns ≡ true) ms) (mounts_of t'))
      (sym same.0)
      (subst
        (λ ms.
          All (λ ms. All (λ (m : VolumeMount). mem_text m.name (names t.volumes) ≡ true) ms) ms)
        (sym same.1) (All-mounts (names t.volumes) t.containers h)))

abbrev pub SpecMounted : Perses → Type 0
SpecMounted p = Mounted p.spec.volumes p.spec.volume_mounts

abbrev pub IfOk : {O : Type 0} → (O → Type 0) → Outcome Error O → Type 0
IfOk P (ok o) = P o
IfOk P (fail e) = Unit

module _ {E : Type 0} where
  abbrev pub LogMounted : State E → Type 0
  LogMounted s = All WriteMounted s.env.writes

  abbrev pub ReadyMounted : State E → Type 0
  ReadyMounted s = LogMounted s × SpecMounted s.env.perses

-- Whichever branch is taken.
pub if-keeps :
    {A S : Type 0} (P : S → Type 0) (b : Bool) (x y : A × S)
    → P x.1
    → P y.1
    → P (if b then x else y).1
if-keeps P true x y h k = h
if-keeps P false x y h k = k

module _ {E O : Type 0} (v : Cluster E) (c : Child E O) where
  -- What makes a builder one of mounted templates.
  abbrev pub IsMounting : Type 0
  IsMounting =
      ((p : Perses)
        → SpecMounted p
        → IfOk (λ o. WriteMounted (c.write creation o) × WriteMounted (c.write dry_run o))
            (c.build p).0
          × SpecMounted (c.build p).1)
      × ((o o' : O) (e : E)
          → WriteMounted (c.write dry_run o)
          → (c.objects.update_dry_run o e).0 ≡ ok o'
          → WriteMounted (c.write full_update o'))

  module _ (h : IsMounting) where
    create_child-keeps :
        (r : Outcome Error O) (s : State E)
        → IfOk (λ o. WriteMounted (c.write creation o) × WriteMounted (c.write dry_run o)) r
        → ReadyMounted s
        → ReadyMounted (create_child v c r s).1
    unfolding create_child
    create_child-keeps (fail err) s g k = ((tt, k.0), k.1)
    create_child-keeps (ok o) s g k = ((g.0, k.0), k.1)

    update_filled-keeps :
        (found : O) (r : Outcome Error O) (s : State E)
        → IfOk (λ o. WriteMounted (c.write full_update o)) r
        → ReadyMounted s
        → ReadyMounted (update_filled v c found r s).1
    update_filled-keeps found (fail err) s g k = k
    update_filled-keeps found (ok o) s g k =
        let (r, s') = sent (c.write full_update o) (c.objects.update o) s in
        if-keeps ReadyMounted (c.needs_update s.env.perses found o)
          (done_with v c continue_reconciling r, s') (continue_reconciling, s) ((g, k.0), k.1) k

    answered :
        (o : O) (e : E)
        → WriteMounted (c.write dry_run o)
        → (r : Outcome Error O) → (c.objects.update_dry_run o e).0 ≡ r
        → IfOk (λ o. WriteMounted (c.write full_update o)) r
    answered o e g (fail err) q = tt
    answered o e g (ok o') q = h.1 o o' e g q

    update_child-keeps :
        (found : O) (r : Outcome Error O) (s : State E)
        → IfOk (λ o. WriteMounted (c.write creation o) × WriteMounted (c.write dry_run o)) r
        → ReadyMounted s
        → ReadyMounted (update_child v c found r s).1
    unfolding update_child
    update_child-keeps found (fail err) s g k = k
    update_child-keeps found (ok o) s g k =
        let (r, s') = sent (c.write dry_run o) (c.objects.update_dry_run o) s in
        update_filled-keeps found r s' (answered o s.env.cluster g.1 r refl) ((g.1, k.0), k.1)

    ensure_got-keeps :
        (r : Outcome Error O) (s : State E) → ReadyMounted s → ReadyMounted (ensure_got v c r s).1
    unfolding ensure_got
    ensure_got-keeps (ok found) s k =
        let (r, s') = built v c s in
        let g = h.0 s.env.perses k.1 in update_child-keeps found r s' g.0 (k.0, g.1)
    ensure_got-keeps (fail err) s k =
        let (r, s') = built v c s in
        let g = h.0 s.env.perses k.1 in
        if-keeps ReadyMounted (is_not_found err) (create_child v c r s') (requeue_with_error err, s)
          (create_child-keeps r s' g.0 (k.0, g.1)) k

    pub ensure-keeps : (s : State E) → ReadyMounted s → ReadyMounted (ensure v c s).1
    unfolding ensure
    ensure-keeps s k =
        let p = s.env.perses in
        let (r, s') = from_cluster (c.objects.get (c.object_name p) p.namespace) s in
        ensure_got-keeps r s' k

  delete_got-keeps :
      (x : String → Write) (r : Outcome Error O) (s : State E)
      → ((n : String) → WriteMounted (x n))
      → ReadyMounted s
      → ReadyMounted (delete_got v c x r s).1
  delete_got-keeps x (fail err) s h k = k
  delete_got-keeps x (ok found) s h k = ((h (c.object_name s.env.perses), k.0), k.1)

  pub ensure_deleted-keeps :
      (x : String → Write) (s : State E)
      → ((n : String) → WriteMounted (x n))
      → ReadyMounted s
      → ReadyMounted (ensure_deleted v c x s).1
  unfolding ensure_deleted
  ensure_deleted-keeps x s h k =
      let p = s.env.perses in
      let (r, s') = from_cluster (c.objects.get (c.object_name p) p.namespace) s in
      delete_got-keeps x r s' h k
