-- ===== src/Controller/Status.antt =====
-- The conditions that the status of a resource holds after an update.
use perses_operator.Prelude.{◌≡◌, String, Bool, true, false, List, [], arith, ◌==◌}
use perses_operator.Api.{
  Condition, ConditionStatus, condition_true, condition_false, condition_unknown, Resource,
}
use perses_operator.Errors.{ConditionStatusReason}
use perses_operator.World.{Env}
use perses_operator.Controller.{Kind, Request, unknown_update, complete_update, degraded_update}

abbrev pub is_true_status : ConditionStatus → Bool
is_true_status condition_true = true
is_true_status condition_false = false
is_true_status condition_unknown = false

-- `meta.SetStatusCondition` replaces or adds the condition of the type that it is given, and leaves
-- those of the other types; `meta.IsStatusConditionTrue` finds the condition of a type.
pub record HasConditions {E C : Type 0} (v : Env E C) : Type 0 where
  pub set_here :
      (cs : List Condition) (c : Condition)
      → v.is_status_condition_true (v.set_status_condition cs c) c.kind ≡ is_true_status c.status
  pub set_elsewhere :
      (cs : List Condition) (c : Condition) (kind : String)
      → (c.kind == kind) ≡ false
      → v.is_status_condition_true (v.set_status_condition cs c) kind
        ≡ v.is_status_condition_true cs kind
  pub none_true : (kind : String) → v.is_status_condition_true [] kind ≡ false

module _ {E C : Type 0} {v : Env E C} (laws : HasConditions v) (k : Kind E) (req : Request) where
  abbrev pub is_available : Resource → Bool
  is_available r = v.is_status_condition_true r.conditions "Available"

  abbrev pub is_degraded : Resource → Bool
  is_degraded r = v.is_status_condition_true r.conditions "Degraded"

  -- Where the library's functions fulfil HasConditions, whatever the conditions before: after the
  -- update of setStatusToComplete the resource is available and not degraded, and after that of
  -- setStatusToDegraded it is degraded and not available. The update of setStatusToUnknown does
  -- not change whether it is available.
  pub status_updates :
      (r : Resource) (reason : ConditionStatusReason) (msg : String)
      → ((is_available (complete_update v k req r) ≡ true)
          × (is_degraded (complete_update v k req r) ≡ false))
        × ((is_available (degraded_update v k req reason msg r) ≡ false)
            × (is_degraded (degraded_update v k req reason msg r) ≡ true))
        × (is_available (unknown_update v k req r) ≡ is_available r)
  unfolding complete_update degraded_update unknown_update
  status_updates r reason msg = grind (arith, laws.set_here, laws.set_elsewhere, laws.none_true)
