-- ===== src/Controller/Returns.antt =====
-- What Reconcile returns to its queue.
use perses_operator.Prelude.{
  ◌≡◌, refl, Option, none, some, List, [], ◌∷◌, arith, Bool-cases, inl, inr,
}
use perses_operator.Errors.{Error, is_not_found}
use perses_operator.Subreconciler.{StepResult, empty_result, evaluate, should_halt_or_requeue}
use perses_operator.Act.{Outcome, ok, fail}
use perses_operator.Api.{Resource}
use perses_operator.Api.Instance.{Perses}
use perses_operator.World.{Env, World}
use perses_operator.Controller.{
  Kind, Request, delete_instances, delete_listed, delete_in_all_instances,
}
use perses_operator.Controller.Reconcile.{
  ReconcileOutcome, final_result, reconcile_found, reconcile_deleted, reconcile_got, reconcile,
}

-- A result that holds the empty `ctrl.Result`, whatever the error.
abbrev pub IsImmediate : ReconcileOutcome → Type 0
IsImmediate r = (err : Option Error) × (r ≡ some (empty_result, err))

abbrev IsEmptyResult : StepResult → Type 0
IsEmptyResult s = s.0 ≡ some empty_result

evaluate-IsImmediate : (s : StepResult) → IsEmptyResult s → IsImmediate (evaluate s)
unfolding evaluate
evaluate-IsImmediate (some r, e) h = (e, ground arith)
evaluate-IsImmediate (none, e) h = cc

module _ {E C : Type 0} (v : Env E C) (k : Kind E) (req : Request) where
  delete_instances-IsEmptyResult :
      (ps : List Perses) (w : World E) → IsEmptyResult (delete_instances v k req ps w).0
  unfolding delete_instances should_halt_or_requeue
  delete_instances-IsEmptyResult [] w = refl
  delete_instances-IsEmptyResult (p ∷ ps) w =
      ground (arith, delete_instances-IsEmptyResult ps (k.delete p req w).1)

  delete_listed-IsEmptyResult :
      (r : Outcome Error (List Perses)) (w : World E) → IsEmptyResult (delete_listed v k req r w).0
  delete_listed-IsEmptyResult (fail err) w = refl
  delete_listed-IsEmptyResult (ok []) w = refl
  delete_listed-IsEmptyResult (ok (p ∷ ps)) w = delete_instances-IsEmptyResult (p ∷ ps) w

  delete_in_all_instances-IsEmptyResult :
      (w : World E) → IsEmptyResult (delete_in_all_instances v k req w).0
  unfolding delete_in_all_instances
  delete_in_all_instances-IsEmptyResult w = delete_listed-IsEmptyResult _ _

  reconcile_deleted-IsImmediate : (w : World E) → IsImmediate (reconcile_deleted v k req w).0
  unfolding reconcile_deleted
  reconcile_deleted-IsImmediate w = evaluate-IsImmediate _ (delete_in_all_instances-IsEmptyResult _)

  reconcile_found-IsImmediate :
      (err : Option Error) → IsImmediate (evaluate (final_result v k req err))
  unfolding evaluate
  reconcile_found-IsImmediate none = (none, refl)
  reconcile_found-IsImmediate (some e) = (some e, refl)

  reconcile_got-IsImmediate :
      (r : Outcome Error Resource) (w : World E) → IsImmediate (reconcile_got v k req r w).0
  unfolding reconcile_got reconcile_found
  reconcile_got-IsImmediate (ok d) w = reconcile_found-IsImmediate _
  reconcile_got-IsImmediate (fail err) w = elim (Bool-cases (is_not_found err)) [
    | inl gone ↦ rw gone (reconcile_deleted-IsImmediate _)
    | inr other ↦ rw other (unfold evaluate in (some err, refl))
  ]

  -- Reconcile always returns, it never dereferences a nil result, and the result that it returns
  -- asks for no delayed retry: what a sub-reconciler asks for by `RequeueAfter`, such as the minute
  -- after which a resource without any Perses instance is to be retried, is dropped.
  pub reconcile-IsImmediate : (w : World E) → IsImmediate (reconcile v k req w).0
  unfolding reconcile
  reconcile-IsImmediate w = reconcile_got-IsImmediate _ _
