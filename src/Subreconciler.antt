-- ===== src/Subreconciler.antt =====
-- internal/subreconciler/subreconciler.go: what a step of a reconciliation returns, `(*ctrl.Result,
-- error)`, and when it ends the reconciliation.
use perses_operator.Prelude.{ℕ, Bool, ◌||◌, Option, none, some, is_some, ltb, default}
use perses_operator.Errors.{Error, ConditionStatusReason}

-- `ctrl.Result`; only its field `RequeueAfter` is used by the operator, in nanoseconds.
pub record ReconcileResult : Type 0 where
  pub requeue_after : ℕ

abbrev pub empty_result : ReconcileResult
empty_result = record { requeue_after = 0 }

-- `(*ctrl.Result, error)`; `none` is a nil pointer or a nil error.
abbrev pub StepResult : Type 0
StepResult = Option ReconcileResult × Option Error

abbrev pub seconds : ℕ → ℕ
seconds n = Prim.Native.Nat.◌*◌ n 1000000000

-- Dereferencing a nil result panics in Go: `none`.
unfoldable pub evaluate : StepResult → Option (ReconcileResult × Option Error)
evaluate (some r, e) = some (r, e)
evaluate (none, e) = none

abbrev pub continue_reconciling : StepResult
continue_reconciling = (none, none)

abbrev pub do_not_requeue : StepResult
do_not_requeue = (some empty_result, none)

abbrev pub requeue_with_error : Error → StepResult
requeue_with_error e = (some empty_result, some e)

abbrev pub requeue_with_error_and_reason :
    Error → ConditionStatusReason → Option ReconcileResult × ConditionStatusReason × Option Error
requeue_with_error_and_reason e reason = (some empty_result, reason, some e)

abbrev pub requeue_with_delay : ℕ → StepResult
requeue_with_delay dur = (some (record { requeue_after = dur }), none)

-- A nil result, and one that is zero, counts as the empty one.
unfoldable pub should_requeue : StepResult → Bool
should_requeue (r, err) = let res = default empty_result r in ltb 0 res.requeue_after || is_some err

unfoldable pub should_halt_or_requeue : StepResult → Bool
unfolding should_requeue
should_halt_or_requeue (r, err) = is_some r || should_requeue (r, err)
