-- ===== src/Workload/Settled/Workloads.antt =====
-- The Deployment and the StatefulSet of an instance, once their sub-reconcilers have run.
use mathlib.Core.Path.{subst}
use perses_operator.Prelude.{
  Bool, true, false, not, ◌≡◌, refl, sym, ap, ◌∙◌, ◌⊎◌, inl, inr, Option, none, some, String,
  if◌then◌else◌, arith,
}
use perses_operator.Errors.{Error}
use perses_operator.Act.{Outcome, ok, fail}
use perses_operator.Api.Instance.{Perses, requires_deployment, requires_stateful_set}
use perses_operator.Pod.Args.{Config}
use perses_operator.Workload.{
  Cluster, State, ObjectMeta, Write, Deployment, DeploymentSpec, StatefulSet, StatefulSetSpec,
  deployment_delete, stateful_set_delete,
}
use perses_operator.Workload.Child.{Child, ensure, ensure_deleted, delete_got}
use perses_operator.Workload.Deployments.{
  deployment_of, deployment_spec, create_perses_deployment, deployment_child, reconcile_deployment,
}
use perses_operator.Workload.StatefulSets.{
  stateful_set_of, stateful_set_spec, create_perses_stateful_set, stateful_set_child,
  reconcile_stateful_set,
}
use perses_operator.Workload.Services.{map_ok}
use perses_operator.Workload.Template.{workload_meta}
use perses_operator.Workload.Mounts.{IfOk}
use perses_operator.Workload.Mounts.Builders.{prepare-keeps}
use perses_operator.Workload.Settled.{Answers, got, IsSettled, ensure-IsSettled}

module _ {E O : Type 0} (v : Cluster E) (c : Child E O) {meta : O → ObjectMeta}
    (a : Answers c.objects meta) (x : String → Write) where
  deleted-none :
      (n ns : String) (m : Option O) (s : State E)
      → a.look n ns s.env.cluster ≡ m
      → a.look n ns (delete_got v c x (got m) s).1.env.cluster ≡ none
  deleted-none n ns none s h = h
  deleted-none n ns (some found) s h =
      ap (λ (y : Outcome Error Unit × E). a.look n ns y.1) (a.delete_law n ns found s.env.cluster h)
      ∙ a.drop_law n ns s.env.cluster

  pub ensure_deleted-none :
      (s : State E)
      → let p = s.env.perses in
        a.look (c.object_name p) p.namespace (ensure_deleted v c x s).1.env.cluster ≡ none
  unfolding ensure_deleted
  ensure_deleted-none s =
      let p = s.env.perses in
      let n = c.object_name p in
      subst
        (λ (y : Outcome Error O × E).
          a.look n p.namespace
            (delete_got v c x y.0 (record s { env = record s.env { cluster = y.1 } })).1.env.cluster
          ≡ none)
        (sym (a.get_law n p.namespace s.env.cluster))
        (deleted-none n p.namespace (a.look n p.namespace s.env.cluster) s refl)

module _ {E O : Type 0} (v : Cluster E) (c : Child E O) {meta : O → ObjectMeta}
    (a : Answers c.objects meta) where
  -- What is there where the object is required, given what was there before, and where it is not.
  abbrev pub Desired : {S : Type 0} → (O → S) → Bool → Option O → O → Option O → Type 0
  Desired spec true before o now =
      (found : O) × (now ≡ some found) × (spec found ≡ spec (a.fill before o))
  Desired spec false before o now = now ≡ none

  chosen-Desired :
      (x : String → Write) {S : Type 0} (spec : O → S)
      → ((p : Perses) (f g : O) → c.needs_update p f g ≡ false → spec f ≡ spec g)
      → (b : Bool) (o : O) (s : State E)
      → let p = s.env.perses in
        let before = a.look (c.object_name p) p.namespace s.env.cluster in
        let ended = if b then ensure v c s else ensure_deleted v c x s in
        (c.build p).0 ≡ ok o
        → (meta o).name ≡ c.object_name p
        → (meta o).namespace ≡ p.namespace
        → (b ≡ true → a.accepts before o ≡ true)
        → Desired spec b before o (a.look (c.object_name p) p.namespace ended.1.env.cluster)
  chosen-Desired x spec e false o s h n ns k = ensure_deleted-none v c a x s
  chosen-Desired x spec e true o s h n ns k = settled (ensure-IsSettled v c a o s h n ns (k refl)).1
    where
      settled :
          IsSettled v c a
            (a.look (c.object_name s.env.perses) s.env.perses.namespace s.env.cluster)
            o
            (ensure v c s).1
          → Desired spec true
              (a.look (c.object_name s.env.perses) s.env.perses.namespace s.env.cluster)
              o
              (a.look
                (c.object_name s.env.perses)
                s.env.perses.namespace
                (ensure v c s).1.env.cluster)
      settled (found, l, q) = (
        found,
        sym (
              ap (λ y. a.look y (meta o).namespace (ensure v c s).1.env.cluster) n
              ∙ ap (λ y. a.look (c.object_name s.env.perses) y (ensure v c s).1.env.cluster) ns)
            ∙ l,
        same q,
      )
        where
          before : Option O
          before = a.look (c.object_name s.env.perses) s.env.perses.namespace s.env.cluster

          same :
              ((found ≡ a.fill before o)
                ⊎ (c.needs_update (ensure v c s).1.env.perses found (a.fill before o) ≡ false))
              → spec found ≡ spec (a.fill before o)
          same (inl r) = ap spec r
          same (inr r) = e (ensure v c s).1.env.perses found (a.fill before o) r

not-false : (b : Bool) → not b ≡ false → b ≡ true
not-false true h = refl
not-false false h = ground arith

-- The metadata has the name and the namespace of the resource.
abbrev pub Named : Perses → ObjectMeta → Type 0
Named p m = (m.name ≡ p.name) × (m.namespace ≡ p.namespace)

map_ok-Named :
    {O : Type 0} (p : Perses) (f : ObjectMeta → O) (meta : O → ObjectMeta)
    (r : Outcome Error ObjectMeta)
    → ((m : ObjectMeta) → r ≡ ok m → Named p m)
    → ((m : ObjectMeta) → meta (f m) ≡ m)
    → IfOk (λ (o : O). Named p (meta o)) (map_ok f r)
map_ok-Named p f meta (ok m) h g = subst (Named p) (sym (g m)) (h m refl)
map_ok-Named p f meta (fail e) h g = tt

-- `SetControllerReference` adds a reference, and leaves the name and the namespace.
abbrev pub KeepsNames : {E : Type 0} → Cluster E → Type 0
KeepsNames v =
    (p : Perses) (m m' : ObjectMeta)
    → v.set_controller_reference p m ≡ ok m'
    → (m'.name ≡ m.name) × (m'.namespace ≡ m.namespace)

module _ {E : Type 0} (v : Cluster E) (owns : KeepsNames v) (config : Config) where
  deployment-Named :
      (p : Perses) (o : Deployment)
      → (create_perses_deployment v config p).0 ≡ ok o
      → Named p o.meta
  unfolding create_perses_deployment
  deployment-Named p o h =
      let all =
        prepare-keeps v config (λ d. Named p d.meta)
          (λ q. (q.name ≡ p.name) × (q.namespace ≡ p.namespace)) (λ hash q g. g)
          (deployment_of v config)
          (λ q image b g.
            map_ok-Named p (λ m. record { meta = m; spec = deployment_spec v config q image b })
              (λ d. d.meta) (v.set_controller_reference q (workload_meta v config q b))
              (λ m r.
                let own = owns q (workload_meta v config q b) m r in (own.0 ∙ g.0, own.1 ∙ g.1))
              (λ m. refl))
          p (refl, refl) in
      subst (IfOk (λ (d : Deployment). Named p d.meta)) h all.0

  stateful_set-Named :
      (p : Perses) (o : StatefulSet)
      → (create_perses_stateful_set v config p).0 ≡ ok o
      → Named p o.meta
  unfolding create_perses_stateful_set
  stateful_set-Named p o h =
      let all =
        prepare-keeps v config (λ d. Named p d.meta)
          (λ q. (q.name ≡ p.name) × (q.namespace ≡ p.namespace)) (λ hash q g. g)
          (stateful_set_of v config)
          (λ q image b g.
            map_ok-Named p (λ m. record { meta = m; spec = stateful_set_spec v config q image b })
              (λ d. d.meta) (v.set_controller_reference q (workload_meta v config q b))
              (λ m r.
                let own = owns q (workload_meta v config q b) m r in (own.0 ∙ g.0, own.1 ∙ g.1))
              (λ m. refl))
          p (refl, refl) in
      subst (IfOk (λ (d : StatefulSet). Named p d.meta)) h all.0

  -- Where the API server answers as Answers says, SetControllerReference keeps names, and DeepEqual
  -- only equates equal specs: if a Deployment can be built from the resource, and the server accepts
  -- it given what it holds under the resource's name and namespace where a Deployment is required,
  -- then after reconcileDeployment the server holds under that name and namespace a Deployment with
  -- exactly the spec built, as it fills it in, where the resource requires a Deployment, and holds
  -- none there where it does not.
  pub reconcile_deployment-Desired :
      (a : Answers v.deployments (λ (f : Deployment). f.meta)) (o : Deployment) (s : State E)
      → let p = s.env.perses in
        let before = a.look p.name p.namespace s.env.cluster in
        ((x y : DeploymentSpec) → v.deployment_equal x y ≡ true → x ≡ y)
        → (create_perses_deployment v config p).0 ≡ ok o
        → (requires_deployment p ≡ true → a.accepts before o ≡ true)
        → Desired v
            (deployment_child v config)
            a
            (λ (f : Deployment). f.spec)
            (requires_deployment p)
            before
            o
            (a.look p.name p.namespace (reconcile_deployment v config s).1.env.cluster)
  unfolding reconcile_deployment
  reconcile_deployment-Desired a o s e h k =
      let named = deployment-Named s.env.perses o h in
      chosen-Desired v (deployment_child v config) a deployment_delete (λ (f : Deployment). f.spec)
        (λ p f g q. e f.spec g.spec (not-false (v.deployment_equal f.spec g.spec) q))
        (requires_deployment s.env.perses) o s h named.0 named.1 k

  -- Under the same conditions for StatefulSets: if one can be built from the resource, and the server
  -- accepts it given what it holds under the resource's name and namespace where a StatefulSet is
  -- required, then after reconcileStatefulSet the server holds under that name and namespace one with
  -- exactly the spec built, as it fills it in, where the resource requires one, and none there where
  -- it does not.
  pub reconcile_stateful_set-Desired :
      (a : Answers v.stateful_sets (λ (f : StatefulSet). f.meta)) (o : StatefulSet) (s : State E)
      → let p = s.env.perses in
        let before = a.look p.name p.namespace s.env.cluster in
        ((x y : StatefulSetSpec) → v.stateful_set_equal x y ≡ true → x ≡ y)
        → (create_perses_stateful_set v config p).0 ≡ ok o
        → (requires_stateful_set p ≡ true → a.accepts before o ≡ true)
        → Desired v
            (stateful_set_child v config)
            a
            (λ (f : StatefulSet). f.spec)
            (requires_stateful_set p)
            before
            o
            (a.look p.name p.namespace (reconcile_stateful_set v config s).1.env.cluster)
  unfolding reconcile_stateful_set
  reconcile_stateful_set-Desired a o s e h k =
      let named = stateful_set-Named s.env.perses o h in
      chosen-Desired v (stateful_set_child v config) a stateful_set_delete
        (λ (f : StatefulSet). f.spec)
        (λ p f g q. e f.spec g.spec (not-false (v.stateful_set_equal f.spec g.spec) q))
        (requires_stateful_set s.env.perses) o s h named.0 named.1 k
