-- ===== src/PersesController.antt =====
-- The controller of Perses instances, controllers/perses/perses_controller.go: the updates of the
-- status and of the finalizer, and the check of the volumes. `perses` of the state is the object that
-- the context holds, which is always there: Reconcile stores it before the first sub-reconciler.
pub mod Provisioning
pub mod Reconcile
pub mod Keeps
pub mod StepsKeep
pub mod Mounts
pub mod Deleting
pub mod Gone
use perses_operator.Prelude.{
  String, Bool, true, false, not, ◌&&◌, ◌||◌, Option, none, some, List, [], ◌∷◌, is_some, is_empty,
  ◌<>◌, ◌==◌, if◌then◌else◌,
}
use perses_operator.Errors.{Error, plain, is_not_found}
use perses_operator.Subreconciler.{
  StepResult, continue_reconciling, do_not_requeue, requeue_with_error, requeue_with_delay, seconds,
}
use perses_operator.Act.{Act, Outcome, ok, fail, pure, halt, ◌>>=◌, ◌>>◌}
use perses_operator.Tags.{Text, mem_text}
use perses_operator.Api.{
  Condition, ConditionStatus, condition_true, condition_false, condition_unknown,
  type_available_perses, type_degraded_perses,
}
use perses_operator.Api.Instance.{Perses, VolumeMount}
use perses_operator.World.{World}
use perses_operator.Controller.{Step, Request}
use perses_operator.Pod.Volumes.Mounted.{names}
use perses_operator.Workload.{
  Cluster, Memory, State, status_write, finalizer_write, from_cluster, sent, set_perses,
}

-- `PersesFinalizer`
abbrev pub perses_finalizer : String
perses_finalizer = "perses.dev/finalizer"

-- `controllerutil.ContainsFinalizer` and RemoveFinalizer, which tells whether there was one.
abbrev pub contains_text : String → List String → Bool
contains_text t [] = false
contains_text t (s ∷ ss) = s == t || contains_text t ss

abbrev pub without_text : String → List String → List String
without_text t [] = []
without_text t (s ∷ ss) = let rest = without_text t ss in if s == t then rest else s ∷ rest

abbrev pub drop_finalizer : Perses → Perses
drop_finalizer p = record p { finalizers = without_text perses_finalizer p.finalizers }

abbrev pub has_finalizer : Perses → Bool
has_finalizer p = contains_text perses_finalizer p.finalizers

-- `updateFn` of updatePersesStatus, which changes the object that it is given.
abbrev pub Update : Type 0 → Type 0
Update E = Perses → Act (State E) Error Perses

module _ {E : Type 0} where
  abbrev pub require_requeue : Bool → State E → State E
  require_requeue b s = record s { env = record s.env { needs_requeue = b } }

  abbrev pub plainly : (Perses → Perses) → Update E
  plainly f p s = (ok (f p), s)

-- The first mount whose volume is not among `volumeNames`.
unfoldable pub undefined_mount : List Text → List VolumeMount → Option VolumeMount
undefined_mount volume_names [] = none
undefined_mount volume_names (m ∷ ms) =
    let rest = undefined_mount volume_names ms in
    if mem_text m.name volume_names then rest else some m

module _ {E : Type 0} (v : Cluster E) (req : Request) where
  -- The function that RetryOnConflict runs in updatePersesStatus.
  unfoldable pub update_fresh : Update E → Act (State E) Error Unit
  update_fresh update_fn = do
    fresh ← from_cluster (v.perses_get req.namespace req.name)
    updated ← update_fn fresh
    if v.status_equal fresh updated
        then pure tt
        else sent (status_write updated) (v.perses_status_update updated)

  -- What follows RetryOnConflict.
  unfoldable pub retry_result : Outcome Error Unit → StepResult
  retry_result (ok _) = continue_reconciling
  retry_result (fail err) = if is_not_found err then do_not_requeue else requeue_with_error err

  unfoldable pub update_perses_status : Update E → Step (Memory E)
  update_perses_status update_fn s =
      let (r, s') = v.retry_on_conflict (update_fresh update_fn) s in (retry_result r, s')

  abbrev pub set_condition : String → ConditionStatus → String → String → Perses → Perses
  set_condition kind status reason message p = record p {
    conditions =
        v.set_status_condition p.conditions
          (record { kind = kind; status = status; reason = reason; message = message });
  }

  unfoldable pub unknown_update : Update E
  unknown_update p s =
      if is_empty p.conditions
      then (
        ok (
            set_condition type_available_perses condition_unknown "Reconciling"
              "Starting reconciliation" p),
        require_requeue true s,
      )
      else (ok p, s)

  abbrev pub after_unknown : Bool → StepResult → StepResult
  after_unknown needs_requeue (r, some err) = (r, some err)
  after_unknown needs_requeue (r, none) =
      if needs_requeue then requeue_with_delay (seconds 5) else continue_reconciling

  unfoldable pub set_status_to_unknown : Step (Memory E)
  set_status_to_unknown s =
      let (res, s') = update_perses_status unknown_update (require_requeue false s) in
      (after_unknown s'.env.needs_requeue res, s')

  unfoldable pub complete_update : Perses → Perses
  complete_update p =
      set_condition type_available_perses condition_true "Reconciled"
        ("Perses (" <> p.name <> ") created successfully")
        (set_condition type_degraded_perses condition_false "Reconciled"
          ("Perses (" <> p.name <> ") reconciled successfully") p)

  unfoldable pub set_status_to_complete : Step (Memory E)
  set_status_to_complete = update_perses_status (plainly complete_update)

  abbrev pub write_stripped : Perses → Act (State E) Error Unit
  write_stripped fresh s =
      sent (finalizer_write (drop_finalizer fresh)) (v.perses_update (drop_finalizer fresh))
        (set_perses (drop_finalizer fresh) s)

  abbrev pub strip_fetched : Perses → Act (State E) Error Unit
  strip_fetched fresh s =
      if has_finalizer fresh
      then write_stripped fresh s
      else (fail (plain "failed to remove finalizer from the custom resource"), set_perses fresh s)

  -- The function that RetryOnConflict runs in removeFinalizer: the object of the context is read
  -- again.
  unfoldable pub strip_finalizer : Act (State E) Error Unit
  strip_finalizer = from_cluster (v.perses_get req.namespace req.name) >>= strip_fetched

  unfoldable pub remove_finalizer : Step (Memory E)
  remove_finalizer s =
      let (r, s') = v.retry_on_conflict strip_finalizer s in
      if has_finalizer s.env.perses then (retry_result r, s') else (continue_reconciling, s)

  -- That of handleDelete: a finalizer that is gone by now is no error.
  unfoldable pub strip_on_delete : Act (State E) Error Unit
  strip_on_delete = from_cluster (v.perses_get req.namespace req.name) >>= write_stripped

  abbrev pub delete_result : Outcome Error Unit → StepResult
  delete_result (ok _) = do_not_requeue
  delete_result (fail err) = requeue_with_error err

  unfoldable pub handle_delete : Step (Memory E)
  handle_delete s =
      let (r, s') = v.retry_on_conflict strip_on_delete s in
      if not s.env.perses.deleting
      then (continue_reconciling, s)
      else if has_finalizer s.env.perses
      then (delete_result r, s')
      else (do_not_requeue, s)

  abbrev pub invalid_update : String → Perses → Perses
  invalid_update msg = set_condition type_degraded_perses condition_true "InvalidConfiguration" msg

  abbrev pub invalid_result : String → StepResult → StepResult
  invalid_result msg (_, some err) = requeue_with_error err
  invalid_result msg (_, none) = requeue_with_error (plain msg)

  abbrev pub report_undefined : Option VolumeMount → Step (Memory E)
  report_undefined none s = (continue_reconciling, s)
  report_undefined (some m) s =
      let msg = v.undefined_volume m in
      let (r, s') = update_perses_status (plainly (invalid_update msg)) s in
      (invalid_result msg r, s')

  unfoldable pub validate_volumes : Step (Memory E)
  unfolding undefined_mount
  validate_volumes s =
      let spec = s.env.perses.spec in
      report_undefined (undefined_mount (names spec.volumes) spec.volume_mounts) s
