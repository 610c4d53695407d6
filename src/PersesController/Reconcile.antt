-- ===== src/PersesController/Reconcile.antt =====
-- Reconcile of controllers/perses/perses_controller.go.
use perses_operator.Prelude.{String, Option, none, some, List, [], ◌∷◌, if◌then◌else◌}
use perses_operator.Errors.{Error, extract_reason, is_not_found}
use perses_operator.Subreconciler.{StepResult, do_not_requeue, requeue_with_error, evaluate}
use perses_operator.Act.{Outcome, ok, fail}
use perses_operator.Api.Instance.{Perses}
use perses_operator.Metrics
use perses_operator.Metrics.{
  Metrics, set_synced_resources, set_failed_resources, set_perses_instance, delete_perses_instance,
}
use perses_operator.Metrics.Tracker
use perses_operator.Metrics.Tracker.{Tracker, set_status, set_reason_and_message}
use perses_operator.Controller.{Step, Request, object_key}
use perses_operator.Controller.Reconcile.{ReconcileOutcome, on_tracker, on_metrics, run_steps}
use perses_operator.Pod.Args.{Config}
use perses_operator.Workload.{Cluster, Memory, State, from_cluster, set_perses}
use perses_operator.Workload.Services.{reconcile_service}
use perses_operator.Workload.ConfigMaps.{reconcile_config_map}
use perses_operator.Workload.Deployments.{reconcile_deployment}
use perses_operator.Workload.StatefulSets.{reconcile_stateful_set}
use perses_operator.PersesController.{
  handle_delete, set_status_to_unknown, remove_finalizer, validate_volumes, set_status_to_complete,
}
use perses_operator.PersesController.Provisioning.{reconcile_provisioning}

abbrev pub count_operation : Metrics → Metrics
count_operation m = record m { reconcile_operations = "perses" ∷ m.reconcile_operations }

abbrev pub count_error : String → Metrics → Metrics
count_error reason m = record m { reconcile_errors = ("perses", reason) ∷ m.reconcile_errors }

module _ {E : Type 0} (v : Cluster E) (config : Config) (req : Request) where
  -- The sub-reconcilers that build what the instance consists of.
  abbrev pub building_steps : List (Step (Memory E))
  building_steps =
      reconcile_provisioning v req
      ∷ reconcile_service v
      ∷ reconcile_config_map v
      ∷ reconcile_deployment v config
      ∷ reconcile_stateful_set v config
      ∷ set_status_to_complete v req
      ∷ []

  -- `subreconcilersForPerses`
  abbrev pub perses_steps : List (Step (Memory E))
  perses_steps =
      handle_delete v req
      ∷ set_status_to_unknown v req
      ∷ remove_finalizer v req
      ∷ validate_volumes v req
      ∷ building_steps

  unfoldable pub track_perses_status : Option Error → Tracker → Tracker
  track_perses_status none rt =
      set_reason_and_message (object_key req) "ReconciliationSuccessful"
        "Perses instance reconciled successfully" (set_status (object_key req) none rt)
  track_perses_status (some e) rt = set_status (object_key req) (some e) rt

  unfoldable pub track_perses_metrics : Option Error → Metrics → Metrics
  track_perses_metrics none m = set_synced_resources (object_key req) "perses" req.namespace 1 m
  track_perses_metrics (some e) m =
      set_failed_resources (object_key req) "perses" req.namespace 1
        (count_error (extract_reason e "reconciliation_failed") m)

  abbrev pub track : Option Error → State E → State E
  track err s = on_metrics (track_perses_metrics err) (on_tracker (track_perses_status err) s)

  abbrev pub final_result : Option Error → StepResult
  final_result none = do_not_requeue
  final_result (some e) = requeue_with_error e

  abbrev pub count_instance : Perses → Metrics → Metrics
  count_instance p m = if p.deleting then m else set_perses_instance p.namespace p.name m

  -- The instance was found.
  unfoldable pub reconcile_found : Perses → State E → ReconcileOutcome × State E
  reconcile_found p s =
      let (err, s') = run_steps perses_steps (set_perses p (on_metrics (count_instance p) s)) in
      (evaluate (final_result err), track err s')

  abbrev pub forget_client : Option (String → E → E) → State E → State E
  forget_client none s = s
  forget_client (some f) s = record s {
    env = record s.env { cluster = f (object_key req) s.env.cluster };
  }

  -- The instance is gone.
  unfoldable pub reconcile_gone : State E → ReconcileOutcome × State E
  reconcile_gone s = (
    evaluate do_not_requeue,
    forget_client v.cache_invalidator (
        on_metrics (delete_perses_instance req.namespace req.name) (
          on_metrics (Metrics.forget_object (object_key req))
            (on_tracker (Tracker.forget_object (object_key req)) s))),
  )

  unfoldable pub reconcile_got : Outcome Error Perses → State E → ReconcileOutcome × State E
  reconcile_got (ok p) s = reconcile_found p s
  reconcile_got (fail err) s =
      if is_not_found err
      then reconcile_gone s
      else (evaluate (requeue_with_error err), on_metrics (count_error "get_failed") s)

  unfoldable pub reconcile : State E → ReconcileOutcome × State E
  reconcile s =
      let (r, s') =
        from_cluster (v.perses_get req.namespace req.name) (on_metrics count_operation s) in
      reconcile_got r s'
