-- ===== src/PersesController/Deleting.antt =====
-- The reconciliation of an instance that is being deleted.
use perses_operator.Prelude.{
  Bool, true, false, not, ◌≡◌, refl, sym, ap, arith, List, ◌∷◌, Option, All, if◌then◌else◌,
}
use mathlib.Core.Path.{subst}
use perses_operator.Errors.{Error}
use perses_operator.Subreconciler.{
  StepResult, evaluate, should_halt_or_requeue, should_requeue, do_not_requeue,
  continue_reconciling,
}
use perses_operator.Act.{Outcome, ok, fail}
use perses_operator.Api.Instance.{Perses}
use perses_operator.Controller.{Step, Request}
use perses_operator.Controller.Reconcile.{on_metrics, run_steps}
use perses_operator.Pod.Args.{Config}
use perses_operator.Workload.{
  Cluster, Memory, State, Write, finalizer_write, status_write, service_write, config_map_write,
  deployment_write, stateful_set_write, deployment_delete, stateful_set_delete, from_cluster,
  set_perses,
}
use perses_operator.PersesController.{
  handle_delete, strip_on_delete, delete_result, write_stripped, has_finalizer,
  set_status_to_unknown, remove_finalizer, validate_volumes,
}
use perses_operator.PersesController.Keeps.{KeepsWhatRunsKeep, Keeps, bind-Keeps}
use perses_operator.PersesController.Reconcile.{
  building_steps, reconcile_found, count_instance, final_result, track,
}

abbrev IsFinalizerWrite : Write → Type 0
IsFinalizerWrite (finalizer_write _) = Unit
IsFinalizerWrite (status_write _) = ⊥
IsFinalizerWrite (service_write _ _) = ⊥
IsFinalizerWrite (config_map_write _ _) = ⊥
IsFinalizerWrite (deployment_write _ _) = ⊥
IsFinalizerWrite (stateful_set_write _ _) = ⊥
IsFinalizerWrite (deployment_delete _) = ⊥
IsFinalizerWrite (stateful_set_delete _) = ⊥

abbrev pub FinalizersOnly : {E : Type 0} → State E → Type 0
FinalizersOnly s = All IsFinalizerWrite s.env.writes

module _ {E : Type 0} where
  -- A step that halts is the last.
  run_steps-halted :
      (f : Step (Memory E)) (fs : List (Step (Memory E))) (s : State E)
      → should_halt_or_requeue (f s).0 ≡ true
      → run_steps (f ∷ fs) s ≡ ((f s).0.1, (f s).1)
  unfolding run_steps
  run_steps-halted f fs s halts = rw halts

module _ {E : Type 0} (v : Cluster E) (retries : KeepsWhatRunsKeep v) (req : Request) where
  strip-Keeps : Keeps FinalizersOnly (strip_on_delete v req)
  unfolding strip_on_delete
  strip-Keeps =
      bind-Keeps FinalizersOnly (from_cluster (v.perses_get req.namespace req.name))
        (write_stripped v req) (λ s k. k) (λ fresh s k. (tt, k))

  delete_halts : (r : Outcome Error Unit) → should_halt_or_requeue (delete_result v req r) ≡ true
  unfolding should_halt_or_requeue should_requeue
  delete_halts (ok _) = refl
  delete_halts (fail e) = refl

  handle_delete-deleting :
      (s : State E)
      → s.env.perses.deleting ≡ true
      → FinalizersOnly s
      → (should_halt_or_requeue (handle_delete v req s).0 ≡ true)
        × FinalizersOnly (handle_delete v req s).1
  unfolding handle_delete should_halt_or_requeue should_requeue
  handle_delete-deleting s d k = go s.env.perses.deleting (has_finalizer s.env.perses) d
    where
      go :
          (deleting finalizer : Bool)
          → deleting ≡ true
          → (λ (x : StepResult × State E). (should_halt_or_requeue x.0 ≡ true) × FinalizersOnly x.1)
              (if not deleting
                then (continue_reconciling, s)
                else if finalizer
                then (
                  delete_result v req (v.retry_on_conflict (strip_on_delete v req) s).0,
                  (v.retry_on_conflict (strip_on_delete v req) s).1,
                )
                else (do_not_requeue, s))
      go true true e = (
        delete_halts (v.retry_on_conflict (strip_on_delete v req) s).0,
        retries FinalizersOnly (strip_on_delete v req) strip-Keeps s k,
      )
      go true false e = (refl, k)
      go false b e = absurd (ground arith)

module _ {E : Type 0} (v : Cluster E) (retries : KeepsWhatRunsKeep v) (config : Config)
    (req : Request) where
  -- Where RetryOnConflict does nothing but run its function: the reconciliation of an instance that
  -- is being deleted ends with the first sub-reconciler, handleDelete: its result is what is tracked
  -- and returned, and nothing runs after it. From a log of writes that only change finalizers it
  -- leaves such a log: it writes no object that the instance owns, and no status.
  pub reconcile_found-FinalizersOnly :
      (p : Perses) (s : State E)
      → p.deleting ≡ true
      → FinalizersOnly s
      → let deleted =
          handle_delete v req (set_perses p (on_metrics (count_instance v config req p) s)) in
        (reconcile_found v config req p s ≡ (
          evaluate (final_result v config req deleted.0.1),
          track v config req deleted.0.1 deleted.1,
        ))
        × FinalizersOnly (reconcile_found v config req p s).1
  unfolding reconcile_found
  reconcile_found-FinalizersOnly p s d k =
      let s' = set_perses p (on_metrics (count_instance v config req p) s) in
      let h = handle_delete-deleting v retries req s' d k in
      let rest =
        set_status_to_unknown v req
        ∷ remove_finalizer v req
        ∷ validate_volumes v req
        ∷ building_steps v config req in
      let only = run_steps-halted (handle_delete v req) rest s' h.0 in
      (
        ap
            (λ (x : Option Error × State E).
              (evaluate (final_result v config req x.0), track v config req x.0 x.1))
            only,
        subst (λ (x : Option Error × State E). FinalizersOnly x.1) (sym only) h.1,
      )
