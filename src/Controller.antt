-- ===== src/Controller.antt =====
-- The controllers of dashboards, datasources and global datasources: the Reconcile method, the
-- status of the resource, and the loops over the Perses instances. The three files
-- controllers/*/perses*_controller.go hold the same code for three types, and so do the first and
-- last functions of the three controllers/*/*_controller.go beside them: here it stands once, over a
-- `Kind`. A function of Go that returns `(*ctrl.Result, error)` is a `Step`.
pub mod Status
pub mod Reconcile
pub mod Returns
pub mod Recorded
pub mod Degraded
use perses_operator.Prelude.{
  ℕ, String, Bool, true, false, not, Option, none, some, List, [], ◌∷◌, default, is_some, is_empty,
  ◌<>◌, if◌then◌else◌,
}
use perses_operator.Errors.{
  Error, plain, ConditionStatusReason, reason_missing_perses, reason_missing_resource,
  new_reason_error, extract_reason, is_not_found,
}
use perses_operator.Subreconciler.{
  ReconcileResult, StepResult, continue_reconciling, do_not_requeue, requeue_with_error,
  should_halt_or_requeue, evaluate, seconds,
}
use perses_operator.Act.{Act, Outcome, ok, fail, pure, ◌>>=◌, ◌>>◌}
use perses_operator.Api.{
  Opaque, Condition, ConditionStatus, condition_true, condition_false, condition_unknown,
  type_available_perses, type_degraded_perses, Resource,
}
use perses_operator.Api.Instance.{Perses}
use perses_operator.Metrics
use perses_operator.Metrics.{Metrics, set_synced_resources, set_failed_resources}
use perses_operator.Metrics.Tracker
use perses_operator.Metrics.Tracker.{set_status, set_reason_and_message}
use perses_operator.World.{ObjectKind, Env, World, lift}
use perses_operator.Sync.{Sync, Failure}

abbrev pub Step : Type 0 → Type 0
Step E = World E → StepResult × World E

-- `ctrl.Request`; `req.String()` is the key of the tracker and the metrics.
pub record Request : Type 0 where
  pub namespace : String
  pub name : String

abbrev pub object_key : Request → String
object_key req = req.namespace <> "/" <> req.name

-- What the three controllers differ in: the collection, the words, the namespace under which the
-- metrics count an object, and how a resource is brought to one instance and removed from it.
pub record Kind (E : Type 0) : Type 0 where
  pub object_kind : ObjectKind
  pub controller : String
  pub resource : String
  pub title : String
  pub metrics_namespace : Request → String
  pub sync : Perses → Resource → Sync E Unit
  pub delete : Perses → Request → Act (World E) Error Unit

abbrev one_minute : ReconcileResult
one_minute = record { requeue_after = seconds 60 }

module _ {E C : Type 0} (v : Env E C) (k : Kind E) (req : Request) where
  -- The function that RetryOnConflict runs.
  unfoldable pub update_fresh : (Resource → Resource) → Act (World E) Error Unit
  update_fresh update_fn = do
    fresh ← lift (v.resource_get k.object_kind req.namespace req.name)
    if v.conditions_equal fresh.conditions (update_fn fresh).conditions
        then pure tt
        else lift (v.status_update k.object_kind (update_fn fresh))

  status_result : Outcome Error Unit → StepResult
  status_result (ok _) = continue_reconciling
  status_result (fail err) = if is_not_found err then do_not_requeue else requeue_with_error err

  -- updateDashboardStatus
  unfoldable pub update_status : Option Resource → (Resource → Resource) → Step E
  unfolding status_result
  update_status none update_fn w =
      (requeue_with_error (plain (k.resource <> " not found in context")), w)
  update_status (some _) update_fn w =
      let (r, w') = v.retry_on_conflict (update_fresh update_fn) w in (status_result r, w')

  abbrev set_condition : String → ConditionStatus → String → String → Resource → Resource
  set_condition kind status reason message r = record r {
    conditions =
        v.set_status_condition r.conditions
          (record { kind = kind; status = status; reason = reason; message = message });
  }

  unfoldable pub unknown_update : Resource → Resource
  unknown_update r =
      if is_empty r.conditions
      then set_condition type_available_perses condition_unknown "Reconciling"
          "Starting reconciliation" r
      else r

  unfoldable pub complete_update : Resource → Resource
  complete_update r =
      set_condition type_available_perses condition_true "Reconciled"
        (k.title <> " (" <> r.name <> ") created successfully")
        (set_condition type_degraded_perses condition_false "Reconciled"
          (k.title <> " (" <> r.name <> ") reconciled successfully") r)

  unfoldable pub degraded_update : ConditionStatusReason → String → Resource → Resource
  degraded_update reason msg r =
      set_condition type_degraded_perses condition_true reason msg
        (set_condition type_available_perses condition_false reason msg r)

  unfoldable pub set_status_to_unknown : Option Resource → Step E
  set_status_to_unknown ctx = update_status ctx unknown_update

  unfoldable pub set_status_to_complete : Option Resource → Step E
  set_status_to_complete ctx = update_status ctx complete_update

  -- `err != nil` is a failed update of the status, which is returned in place of the degraded error.
  degraded_outcome :
      Option ReconcileResult → ConditionStatusReason → Option Error → StepResult → StepResult
  degraded_outcome result reason none (r, none) = (result, none)
  degraded_outcome result reason (some e) (r, none) = (result, some (new_reason_error e reason))
  degraded_outcome result reason e (r, some err) = (r, some err)

  unfoldable pub set_status_to_degraded :
      Option Resource → Option ReconcileResult → ConditionStatusReason → Option Error → Step E
  unfolding degraded_outcome
  set_status_to_degraded ctx result reason error w =
      let msg : String = elim error [ none ↦ "unknown error" | some e ↦ v.error_text e ] in
      let (updated, w') = update_status ctx (degraded_update reason msg) w in
      (degraded_outcome result reason error updated, w')

  -- What syncPersesDashboard returns: its result, its reason and its error.
  abbrev pub sync_triple :
      Outcome Failure Unit → Option ReconcileResult × ConditionStatusReason × Option Error
  sync_triple (ok _) = (none, "", none)
  sync_triple (fail f) = (some (record { requeue_after = 0 }), f.reason, some f.err)

  -- The loop over the instances: one that is not available is skipped, and the first that fails
  -- ends the loop with the resource degraded.
  unfoldable pub sync_instances : Resource → List Perses → Step E
  sync_instances d [] w = (continue_reconciling, w)
  sync_instances d (p ∷ ps) w =
      let skipped = sync_instances d ps w in
      let (r, w') = k.sync p d w in
      let (res, reason, err) = sync_triple r in
      let next = sync_instances d ps w' in
      let stop = set_status_to_degraded (some d) res reason err w' in
      if not (v.is_status_condition_true p.conditions type_available_perses)
      then skipped
      else if should_halt_or_requeue (res, err)
      then stop
      else next

  -- What follows the `List` of the instances.
  unfoldable pub sync_listed : Resource → Outcome Error (List Perses) → Step E
  sync_listed d (fail err) w =
      set_status_to_degraded (some d) (some (record { requeue_after = 0 })) reason_missing_perses
        (some err) w
  sync_listed d (ok []) w =
      set_status_to_degraded (some d) (some one_minute) reason_missing_perses
        (some (plain "no Perses instances found matching the label selector")) w
  sync_listed d (ok (p ∷ ps)) w = sync_instances d (p ∷ ps) w

  -- The label selector; `none` selects everything.
  abbrev selector_of : Resource → Outcome Error (Option Opaque)
  selector_of d = elim d.instance_selector [
    | none ↦ ok none
    | some s ↦ elim (v.label_selector s) [ ok sel ↦ ok (some sel) | fail err ↦ fail err ]
  ]

  -- reconcileDashboardInAllInstances
  unfoldable pub reconcile_in_all_instances : Option Resource → Step E
  reconcile_in_all_instances none w =
      set_status_to_degraded none (some (record { requeue_after = 0 })) reason_missing_resource
        (some (plain (k.resource <> " not found in context"))) w
  reconcile_in_all_instances (some d) w = elim (selector_of d) [
    | fail err ↦ (requeue_with_error err, w)
    | ok sel ↦ let (r, w') = lift (v.list_perses sel) w in sync_listed d r w'
  ]

  abbrev delete_result : Outcome Error Unit → StepResult
  delete_result (ok _) = continue_reconciling
  delete_result (fail err) = requeue_with_error err

  unfoldable pub delete_instances : List Perses → Step E
  delete_instances [] w = (do_not_requeue, w)
  delete_instances (p ∷ ps) w =
      let (r, w') = k.delete p req w in
      let next = delete_instances ps w' in
      if should_halt_or_requeue (delete_result r) then (delete_result r, w') else next

  abbrev delete_listed : Outcome Error (List Perses) → Step E
  delete_listed (fail err) w = (requeue_with_error err, w)
  delete_listed (ok []) w = (do_not_requeue, w)
  delete_listed (ok (p ∷ ps)) w = delete_instances (p ∷ ps) w

  -- deleteDashboardInAllInstances
  unfoldable pub delete_in_all_instances : Step E
  delete_in_all_instances w = let (r, w') = lift (v.list_perses none) w in delete_listed r w'
