-- ===== src/PersesController/Mounts.antt =====
-- No workload is written whose container mounts a volume that its pod does not have.
use perses_operator.Prelude.{
  String, true, false, ◌≡◌, refl, sym, ◌∙◌, Option, none, some, List, [], ◌∷◌, All, Bool-cases, inl,
  inr, arith,
}
use perses_operator.Errors.{Error, is_not_found}
use perses_operator.Subreconciler.{
  StepResult, should_halt_or_requeue, should_requeue, requeue_with_error, evaluate,
}
use perses_operator.Act.{Outcome, ok, fail}
use perses_operator.Tags.{Text, mem_text}
use perses_operator.Api.Instance.{Perses, VolumeMount}
use perses_operator.Controller.{Request, object_key}
use perses_operator.Controller.Reconcile.{run_steps, on_metrics, on_tracker}
use perses_operator.Pod.Args.{Config}
use perses_operator.Pod.Volumes.Mounted.{names}
use perses_operator.Workload.{Cluster, State, from_cluster, set_perses}
use perses_operator.Workload.Mounts.{
  FillsTemplates, SpecMounted, LogMounted, ReadyMounted, if-keeps,
}
use perses_operator.Workload.Mounts.Builders.{
  service-keeps, config_map-keeps, deployment-keeps, stateful_set-keeps,
}
use perses_operator.PersesController.{
  update_perses_status, handle_delete, set_status_to_unknown, remove_finalizer, validate_volumes,
  undefined_mount, plainly, invalid_update, invalid_result, report_undefined,
}
use perses_operator.PersesController.Reconcile.{
  building_steps, perses_steps, reconcile, reconcile_got, reconcile_found, reconcile_gone,
  count_operation, count_instance, count_error, forget_client,
}
use perses_operator.PersesController.Keeps.{
  KeepsWhatRunsKeep, Keeps, run_steps-Keeps, run_steps-cons, run_steps-next,
}
use perses_operator.PersesController.StepsKeep.{
  complete-Keeps, unknown-Keeps, validate-Keeps, provisioning-Keeps, delete-Keeps, remove-Keeps,
}
use mathlib.Core.Bool
use perses_operator.Metrics
use perses_operator.Metrics.Tracker
use perses_operator.Metrics.{delete_perses_instance}

undefined_mount-Mounted :
    (ns : List Text) (ms : List VolumeMount)
    → undefined_mount ns ms ≡ none
    → All (λ m. mem_text m.name ns ≡ true) ms
unfolding undefined_mount
undefined_mount-Mounted ns [] h = tt
undefined_mount-Mounted ns (m ∷ ms) h = elim (Bool-cases (mem_text m.name ns)) [
  | inl e ↦ (e, undefined_mount-Mounted ns ms (ground arith))
  | inr e ↦ absurd (ground arith)
]

module _ {E : Type 0} (v : Cluster E) (retries : KeepsWhatRunsKeep v) (filled : FillsTemplates v)
    (config : Config) (req : Request) where
  invalid_halts :
      (msg : String) (r : StepResult) → should_halt_or_requeue (invalid_result v req msg r) ≡ true
  unfolding should_halt_or_requeue should_requeue
  invalid_halts msg (r, some err) = refl
  invalid_halts msg (r, none) = refl

  -- Where the volumes are found valid, and the reconciliation goes on, the mounts name volumes.
  report-ready :
      (m : Option VolumeMount) (s : State E)
      → (m ≡ none → SpecMounted s.env.perses)
      → LogMounted s
      → should_halt_or_requeue (report_undefined v req m s).0 ≡ false
      → ReadyMounted (report_undefined v req m s).1
  unfolding should_halt_or_requeue
  report-ready none s h k e = (k, h refl)
  report-ready (some m) s h k e =
      let u = plainly (invalid_update v req (v.undefined_volume m)) in
      absurd (
        Bool.true≢false
          (sym (invalid_halts (v.undefined_volume m) (update_perses_status v req u s).0) ∙ e))

  validate-ready :
      (s : State E)
      → LogMounted s
      → should_halt_or_requeue (validate_volumes v req s).0 ≡ false
      → ReadyMounted (validate_volumes v req s).1
  unfolding validate_volumes
  validate-ready s k e =
      let spec = s.env.perses.spec in
      report-ready (undefined_mount (names spec.volumes) spec.volume_mounts) s
        (undefined_mount-Mounted (names spec.volumes) spec.volume_mounts) k e

  building-Keeps : Keeps ReadyMounted (run_steps (building_steps v config req))
  building-Keeps = run_steps-Keeps ReadyMounted (building_steps v config req) (
    provisioning-Keeps v retries req SpecMounted,
    (
      service-keeps v,
      (
        config_map-keeps v,
        (
          deployment-keeps v config filled,
          (stateful_set-keeps v config filled, (complete-Keeps v retries req SpecMounted, tt)),
        ),
      ),
    ),
  )

  checked-Keeps :
      Keeps LogMounted (run_steps (validate_volumes v req ∷ building_steps v config req))
  checked-Keeps s k =
      run_steps-next LogMounted ReadyMounted (validate_volumes v req) (building_steps v config req)
        s (validate-Keeps v retries req (λ p. Unit) s (k, tt)).0 (validate-ready s k)
        (λ s' k'. (building-Keeps s' k').0)

  steps-keep : Keeps LogMounted (run_steps (perses_steps v config req))
  steps-keep =
      run_steps-cons LogMounted (handle_delete v req)
        (set_status_to_unknown v req
          ∷ remove_finalizer v req
          ∷ validate_volumes v req
          ∷ building_steps v config req)
        (delete-Keeps v retries req)
        (run_steps-cons LogMounted (set_status_to_unknown v req)
          (remove_finalizer v req ∷ validate_volumes v req ∷ building_steps v config req)
          (λ s k. (unknown-Keeps v retries req (λ p. Unit) s (k, tt)).0)
          (run_steps-cons LogMounted (remove_finalizer v req)
            (validate_volumes v req ∷ building_steps v config req) (remove-Keeps v retries req)
            checked-Keeps))

  forget-keeps :
      (f : Option (String → E → E))
      → (s : State E) → LogMounted s
      → LogMounted (forget_client v config req f s)
  forget-keeps none s k = k
  forget-keeps (some f) s k = k

  got-Keeps : (r : Outcome Error Perses) → Keeps LogMounted (reconcile_got v config req r)
  unfolding reconcile_got reconcile_found reconcile_gone
  got-Keeps (ok p) s k = steps-keep (set_perses p (on_metrics (count_instance v config req p) s)) k
  got-Keeps (fail err) s k =
      if-keeps LogMounted (is_not_found err) (reconcile_gone v config req s)
        (evaluate (requeue_with_error err), on_metrics (count_error "get_failed") s)
        (forget-keeps v.cache_invalidator
          (on_metrics (delete_perses_instance req.namespace req.name) (
            on_metrics (Metrics.forget_object (object_key req))
              (on_tracker (Tracker.forget_object (object_key req)) s)))
          k)
        k

  -- Where RetryOnConflict does nothing but run its function, and the API server answers a dry run
  -- with the volume names and the mounts that it was sent: if every workload that was sent so far,
  -- to create it, for a dry run or to update it, has for each volume mount of its containers a
  -- volume of that name in its pod, then so it is after Reconcile, whatever the instance's resource
  -- and wherever the reconciliation ends: no mount that names no volume is sent to the API server.
  pub reconcile-LogMounted : (s : State E) → LogMounted s → LogMounted (reconcile v config req s).1
  unfolding reconcile
  reconcile-LogMounted s k =
      let (r, s') =
        from_cluster (v.perses_get req.namespace req.name) (on_metrics count_operation s) in
      got-Keeps r s' k
