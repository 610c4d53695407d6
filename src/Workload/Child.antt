-- ===== src/Workload/Child.antt =====
-- What reconcileService, reconcileConfigMap, reconcileDeployment and reconcileStatefulSet have in
-- common: the same statements stand in the four files of controllers/perses, over four types.
use perses_operator.Prelude.{String, Bool, ◌<>◌, if◌then◌else◌}
use perses_operator.Errors.{Error, is_not_found}
use perses_operator.Subreconciler.{StepResult, continue_reconciling, requeue_with_error}
use perses_operator.Act.{Outcome, ok, fail}
use perses_operator.Api.{condition_false, type_available_perses}
use perses_operator.Api.Instance.{Perses}
use perses_operator.Controller.{Step}
use perses_operator.Workload.{
  Cluster, Objects, Memory, State, Mode, creation, dry_run, full_update, Write, status_write,
  from_cluster, sent, set_perses,
}

-- What the four differ in. `build` is the function `createPerses*`, which may also change the object
-- of the context; `created` is what the sub-reconciler returns after a creation.
pub record Child (E O : Type 0) : Type 0 where
  pub title : String
  pub objects : Objects E O
  pub object_name : Perses → String
  pub build : Perses → Outcome Error O × Perses
  pub needs_update : Perses → O → O → Bool
  pub write : Mode → O → Write
  pub created : StepResult

module _ {E O : Type 0} (v : Cluster E) (c : Child E O) where
  abbrev pub built : State E → Outcome Error O × State E
  built s = let (r, p) = c.build s.env.perses in (r, set_perses p s)

  abbrev set_unavailable : Error → Perses → Perses
  set_unavailable err p = record p {
    conditions = v.set_status_condition p.conditions (record {
      kind = type_available_perses;
      status = condition_false;
      reason = "Reconciling";
      message =
          "Failed to create "
          <> c.title
          <> " for the custom resource ("
          <> p.name
          <> "): ("
          <> v.error_text err
          <> ")";
    });
  }

  abbrev build_failed : Error → Outcome Error Unit → StepResult
  build_failed err (ok _) = requeue_with_error err
  build_failed err (fail e) = requeue_with_error e

  abbrev pub done_with : StepResult → Outcome Error Unit → StepResult
  done_with res (ok _) = res
  done_with res (fail e) = requeue_with_error e

  -- The object is not there.
  unfoldable pub create_child : Outcome Error O → Step (Memory E)
  create_child (fail err) s =
      let p = set_unavailable err s.env.perses in
      let (r, s') = sent (status_write p) (v.perses_status_update p) (set_perses p s) in
      (build_failed err r, s')
  create_child (ok o) s =
      let (r, s') = sent (c.write creation o) (c.objects.create o) s in (done_with c.created r, s')

  abbrev pub update_filled : O → Outcome Error O → Step (Memory E)
  update_filled found (fail err) s = (requeue_with_error err, s)
  update_filled found (ok filled) s =
      let (r, s') = sent (c.write full_update filled) (c.objects.update filled) s in
      if c.needs_update s.env.perses found filled
      then (done_with continue_reconciling r, s')
      else (continue_reconciling, s)

  -- The object is there.
  unfoldable pub update_child : O → Outcome Error O → Step (Memory E)
  update_child found (fail err) s = (requeue_with_error err, s)
  update_child found (ok o) s =
      let (r, s') = sent (c.write dry_run o) (c.objects.update_dry_run o) s in
      update_filled found r s'

  unfoldable pub ensure_got : Outcome Error O → Step (Memory E)
  unfolding create_child update_child
  ensure_got (ok found) s = let (r, s') = built s in update_child found r s'
  ensure_got (fail err) s =
      let (r, s') = built s in
      let res = create_child r s' in if is_not_found err then res else (requeue_with_error err, s)

  unfoldable pub ensure : Step (Memory E)
  ensure s =
      let p = s.env.perses in
      let (r, s') = from_cluster (c.objects.get (c.object_name p) p.namespace) s in ensure_got r s'

  abbrev pub delete_got : (String → Write) → Outcome Error O → Step (Memory E)
  delete_got x (fail err) s = (continue_reconciling, s)
  delete_got x (ok found) s =
      let (r, s') = sent (x (c.object_name s.env.perses)) (c.objects.delete found) s in
      (done_with continue_reconciling r, s')

  -- The object is not required: `x` is the write that deletes it.
  unfoldable pub ensure_deleted : (String → Write) → Step (Memory E)
  ensure_deleted x s =
      let p = s.env.perses in
      let (r, s') = from_cluster (c.objects.get (c.object_name p) p.namespace) s in
      delete_got x r s'
