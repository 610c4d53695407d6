-- ===== src/Watches.antt =====
-- What makes the controllers of dashboards and datasources run again when a Perses instance changes:
-- PersesBecameAvailable, MetadataListToRequests and PersesAvailabilityPredicate of
-- internal/perses/common/constants.go.
use perses_operator.Prelude.{String, Bool, true, false, not, ◌&&◌, ◌≡◌, List, [], ◌∷◌, arith}
use perses_operator.Errors.{Error}
use perses_operator.Act.{Act, Outcome, ok, fail}
use perses_operator.Api.{
  Condition, ConditionStatus, condition_true, condition_false, condition_unknown,
}
use perses_operator.Api.Instance.{Perses}
use perses_operator.Controller.{Request}
use perses_operator.Workload.{Cluster}
use perses_operator.PersesController.{complete_update}

-- `client.Object`: a Perses instance, or an object of another type.
pub data ClientObject : Type 0 where
  perses_object : Perses → ClientObject
  other_object : ClientObject

-- `event.CreateEvent`, UpdateEvent, DeleteEvent and GenericEvent.
pub data WatchEvent : Type 0 where
  create_event delete_event generic_event : ClientObject → WatchEvent
  update_event : ClientObject → ClientObject → WatchEvent

-- `metav1.PartialObjectMetadata`
pub record PartialMetadata : Type 0 where
  pub name : String
  pub namespace : String

abbrev requests_of : List PartialMetadata → List Request
requests_of [] = []
requests_of (o ∷ items) = record { namespace = o.namespace; name = o.name } ∷ requests_of items

abbrev listed : Outcome Error (List PartialMetadata) → List Request
listed (ok items) = requests_of items
listed (fail _) = []

-- An error of the list is logged, and nothing is requested.
unfoldable pub metadata_list_to_requests :
    {E : Type 0} → Act E Error (List PartialMetadata) → E → List Request × E
metadata_list_to_requests list e = let (r, e') = list e in (listed r, e')

-- `is_true` is `meta.IsStatusConditionTrue`.
module _ (is_true : List Condition → String → Bool) where
  unfoldable pub perses_became_available : ClientObject → ClientObject → Bool
  perses_became_available (perses_object old) (perses_object new) =
      not (is_true old.conditions "Available") && is_true new.conditions "Available"
  perses_became_available (perses_object old) other_object = false
  perses_became_available other_object new = false

  unfoldable pub perses_availability_predicate : WatchEvent → Bool
  unfolding perses_became_available
  perses_availability_predicate (create_event o) = false
  perses_availability_predicate (update_event old new) = perses_became_available old new
  perses_availability_predicate (delete_event o) = false
  perses_availability_predicate (generic_event o) = false

abbrev pub is_true_status : ConditionStatus → Bool
is_true_status condition_true = true
is_true_status condition_false = false
is_true_status condition_unknown = false

-- `meta.SetStatusCondition` replaces or adds the condition of its type, which
-- `meta.IsStatusConditionTrue` then finds.
abbrev pub FindsCondition : {E : Type 0} → Cluster E → (List Condition → String → Bool) → Type 0
FindsCondition v is_true =
    (cs : List Condition) (c : Condition)
    → is_true (v.set_status_condition cs c) c.kind ≡ is_true_status c.status

-- Where a condition that was set is found: the event that setStatusToComplete's update of an instance
-- makes is admitted by the predicate just where the instance was not available before, and the event
-- of a second such update never is.
pub complete_update-admitted :
    {E : Type 0} (v : Cluster E) (req : Request) (is_true : List Condition → String → Bool)
    → FindsCondition v is_true
    → (p : Perses)
    → (perses_availability_predicate is_true
          (update_event (perses_object p) (perses_object (complete_update v req p)))
        ≡ not (is_true p.conditions "Available"))
      × (perses_availability_predicate is_true (
            update_event
              (perses_object (complete_update v req p))
              (perses_object (complete_update v req (complete_update v req p))))
          ≡ false)
unfolding perses_availability_predicate perses_became_available complete_update
complete_update-admitted v req is_true law p = grind (arith, law)
