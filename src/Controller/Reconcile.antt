-- ===== src/Controller/Reconcile.antt =====
-- The Reconcile method of the three controllers: controllers/dashboards/persesdashboard_controller.go,
-- controllers/datasources/persesdatasource_controller.go and
-- controllers/globaldatasources/persesglobaldatasource_controller.go.
use perses_operator.Prelude.{String, Option, none, some, List, [], ◌∷◌, ◌<>◌, if◌then◌else◌}
use perses_operator.Errors.{Error, extract_reason, is_not_found}
use perses_operator.Subreconciler.{
  ReconcileResult, StepResult, do_not_requeue, requeue_with_error, should_halt_or_requeue, evaluate,
}
use perses_operator.Act.{Outcome, ok, fail}
use perses_operator.Api.{Resource}
use perses_operator.Metrics
use perses_operator.Metrics.{Metrics, set_synced_resources, set_failed_resources}
use perses_operator.Metrics.Tracker
use perses_operator.Metrics.Tracker.{Tracker, set_status, set_reason_and_message}
use perses_operator.World.{Env, World, lift}
use perses_operator.Controller.{
  Step, Kind, Request, object_key, set_status_to_unknown, set_status_to_complete,
  reconcile_in_all_instances, delete_in_all_instances,
}

-- `(ctrl.Result, error)`; `none` is a panic.
abbrev pub ReconcileOutcome : Type 0
ReconcileOutcome = Option (ReconcileResult × Option Error)

abbrev pub when_some : {A : Type 0} → (A → A) → Option A → Option A
when_some f none = none
when_some f (some a) = some (f a)

module _ {E : Type 0} where
  -- `if r.ReconciliationTracker != nil`, `if r.Metrics != nil`
  abbrev pub on_tracker : (Tracker → Tracker) → World E → World E
  on_tracker f w = record w { tracker = when_some f w.tracker }

  abbrev pub on_metrics : (Metrics → Metrics) → World E → World E
  on_metrics f w = record w { metrics = when_some f w.metrics }

  -- The loop over the sub-reconcilers: it stops at the first that halts, with that one's error.
  unfoldable pub run_steps : List (Step E) → World E → Option Error × World E
  run_steps [] w = (none, w)
  run_steps (f ∷ fs) w =
      let (res, w') = f w in
      let rest = run_steps fs w' in if should_halt_or_requeue res then (res.1, w') else rest

abbrev count_operation : String → Metrics → Metrics
count_operation c m = record m { reconcile_operations = c ∷ m.reconcile_operations }

abbrev count_error : String → String → Metrics → Metrics
count_error c reason m = record m { reconcile_errors = (c, reason) ∷ m.reconcile_errors }

module _ {E C : Type 0} (v : Env E C) (k : Kind E) (req : Request) where
  unfoldable pub track_status : Option Error → Tracker → Tracker
  track_status none rt =
      set_reason_and_message (object_key req) "ReconciliationSuccessful"
        (k.title <> " reconciled successfully") (set_status (object_key req) none rt)
  track_status (some e) rt = set_status (object_key req) (some e) rt

  unfoldable pub track_metrics : Option Error → Metrics → Metrics
  track_metrics none m =
      set_synced_resources (object_key req) k.resource (k.metrics_namespace req) 1 m
  track_metrics (some e) m =
      set_failed_resources (object_key req) k.resource (k.metrics_namespace req) 1
        (count_error k.controller (extract_reason e "reconciliation_failed") m)

  abbrev track : Option Error → World E → World E
  track err w = on_metrics (track_metrics err) (on_tracker (track_status err) w)

  abbrev pub final_result : Option Error → StepResult
  final_result none = do_not_requeue
  final_result (some e) = requeue_with_error e

  -- `subreconcilersForPerses`
  abbrev pub found_steps : Resource → List (Step E)
  found_steps d =
      set_status_to_unknown v k req (some d)
      ∷ reconcile_in_all_instances v k req (some d)
      ∷ set_status_to_complete v k req (some d)
      ∷ []

  -- The resource was found.
  unfoldable pub reconcile_found : Resource → World E → ReconcileOutcome × World E
  reconcile_found d w =
      let (err, w') = run_steps (found_steps d) w in (evaluate (final_result err), track err w')

  -- The resource is gone: it is forgotten, and deleted from the Perses servers.
  unfoldable pub reconcile_deleted : World E → ReconcileOutcome × World E
  reconcile_deleted w =
      let (res, w') = delete_in_all_instances v k req (
        on_metrics (Metrics.forget_object (object_key req))
          (on_tracker (Tracker.forget_object (object_key req)) w)) in
      (evaluate res, w')

  unfoldable pub reconcile_got : Outcome Error Resource → World E → ReconcileOutcome × World E
  reconcile_got (ok d) w = reconcile_found d w
  reconcile_got (fail err) w =
      if is_not_found err
      then reconcile_deleted w
      else (evaluate (requeue_with_error err), on_metrics (count_error k.controller "get_failed") w)

  unfoldable pub reconcile : World E → ReconcileOutcome × World E
  reconcile w =
      let (r, w') =
        lift (v.resource_get k.object_kind req.namespace req.name)
          (on_metrics (count_operation k.controller) w) in
      reconcile_got r w'
