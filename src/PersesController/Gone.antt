-- ===== src/PersesController/Gone.antt =====
-- The reconciliation of an instance that is gone: what is kept of it is forgotten.
use mathlib.Core.Path.{subst}
use perses_operator.Prelude.{
  ℕ, String, Bool, true, false, ◌≡◌, ◌≢◌, refl, sym, List, Option, none, some, lookup,
  if◌then◌else◌,
}
use perses_operator.Errors.{Error, is_not_found}
use perses_operator.Subreconciler.{do_not_requeue, evaluate, requeue_with_error}
use perses_operator.Act.{Outcome, fail}
use perses_operator.Api.Instance.{Perses}
use perses_operator.ClientFactory.{Factory, cache_hit, forget_instance}
use perses_operator.ClientFactory.Lookup.{cache_hit-forget_instance}
use perses_operator.Controller.{Request, object_key}
use perses_operator.Controller.Reconcile.{ReconcileOutcome, on_metrics, on_tracker}
use perses_operator.Metrics
use perses_operator.Metrics.{Metrics, ResourceKey, objects_of, delete_perses_instance}
use perses_operator.Metrics.Counts.{get_status-forget_object}
use perses_operator.Metrics.Forget.{IsKeyed, forget_object-forgets}
use perses_operator.Metrics.Tracker
use perses_operator.Metrics.Tracker.{Tracker, get_status, zero_status}
use perses_operator.Pod.Args.{Config}
use perses_operator.Workload.{Cluster, Memory, State}
use perses_operator.World.{Event}
use perses_operator.PersesController.Reconcile.{
  reconcile, reconcile_got, reconcile_gone, count_operation, count_error, forget_client,
}

-- The API server beside the cache of clients.
abbrev Beside : Type 0 → Type 0 → Type 0
Beside E C = E × Factory C

-- `ForgetInstance` of the PersesClientFactory.
abbrev pub invalidate : {E C : Type 0} → String → Beside E C → Beside E C
invalidate key (e, f) = (e, forget_instance key f)

module _ {E C : Type 0} (v : Cluster (Beside E C)) (config : Config) (req : Request)
    (other : String) (key : ResourceKey) (now : ℕ) (fingerprint : String) where
  -- An instance is forgotten: by the tracker, by the metrics and by the cache of clients, where the
  -- other objects are what they were.
  abbrev pub Forgotten :
      Tracker → Metrics → Factory C → ReconcileOutcome × State (Beside E C) → Type 0
  Forgotten rt m f x =
      (x.0 ≡ evaluate do_not_requeue)
      × ((rt' : Tracker) × (x.1.tracker ≡ some rt')
          × (get_status (object_key req) rt' ≡ (zero_status, false))
          × (get_status other rt' ≡ get_status other rt))
      × ((m' : Metrics) × (x.1.metrics ≡ some m')
          × (lookup (object_key req) (objects_of key m'.resources) ≡ none)
          × (lookup other (objects_of key m'.resources)
              ≡ lookup other (objects_of key m.resources)))
      × (cache_hit now (object_key req) fingerprint x.1.env.cluster.1 ≡ none)
      × (cache_hit now other fingerprint x.1.env.cluster.1 ≡ cache_hit now other fingerprint f)

  module _ (env : Memory (Beside E C)) (calls : List Event) (rt : Tracker) (m : Metrics)
      (invalidator : v.cache_invalidator ≡ some invalidate) (keyed : IsKeyed m.resources)
      (ne : object_key req ≢ other) where
    abbrev pub found_state : State (Beside E C)
    found_state = record { env = env; calls = calls; tracker = some rt; metrics = some m }

    gone-Forgotten :
        Forgotten rt m env.cluster.1
          (reconcile_gone v config req (on_metrics count_operation found_state))
    unfolding reconcile_gone delete_perses_instance
    gone-Forgotten =
        let k = object_key req in
        let counted = count_operation m in
        let tracked = get_status-forget_object k other rt ne in
        let counts = forget_object-forgets counted k other key keyed ne in
        let client = cache_hit-forget_instance env.cluster.1 k fingerprint now other ne in
        let m' = delete_perses_instance req.namespace req.name (Metrics.forget_object k counted) in
        subst
          (λ (f : Option (String → Beside E C → Beside E C)). Forgotten rt m env.cluster.1 (
            evaluate do_not_requeue,
            forget_client v config req f (
                on_metrics (delete_perses_instance req.namespace req.name) (
                  on_metrics (Metrics.forget_object k) (
                    on_tracker (Tracker.forget_object k)
                      (on_metrics count_operation found_state)))),
          ))
          (sym invalidator)
          (
            refl,
            (Tracker.forget_object k rt, refl, tracked.0, tracked.1),
            (m', refl, counts.0, counts.1),
            client.0,
            client.1,
          )

    got-Forgotten :
        (err : Error)
        → is_not_found err ≡ true
        → Forgotten rt m env.cluster.1
            (reconcile_got v config req (fail err) (on_metrics count_operation found_state))
    unfolding reconcile_got
    got-Forgotten err h =
        subst
          (λ (b : Bool). Forgotten rt m env.cluster.1 (
            if b then reconcile_gone v config req (on_metrics count_operation found_state) else (
              evaluate (requeue_with_error err),
              on_metrics (count_error "get_failed") (on_metrics count_operation found_state),
            )))
          (sym h) gone-Forgotten

    -- Where the API server answers that the instance does not exist, the operator has a tracker, has
    -- metrics in whose counts each key stands once, and invalidates the cache of the
    -- PersesClientFactory: after Reconcile, which then asks
    -- for nothing more, the tracker does not know the instance, no count of the metrics has it, and
    -- no lookup of the cache finds a client of it; and for every other object the tracker, the
    -- metrics and the cache hold what they held before.
    pub reconcile-Forgotten :
        (err : Error)
        → is_not_found err ≡ true
        → v.perses_get req.namespace req.name env.cluster ≡ (fail err, env.cluster)
        → Forgotten rt m env.cluster.1 (reconcile v config req found_state)
    unfolding reconcile
    reconcile-Forgotten err h e =
        subst
          (λ (x : Outcome Error Perses × Beside E C). Forgotten rt m env.cluster.1 (
            reconcile_got v config req x.0 (record (on_metrics count_operation found_state) {
              env = record env { cluster = x.1 };
            })))
          (sym e) (got-Forgotten err h)
