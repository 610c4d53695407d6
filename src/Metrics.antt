-- ===== src/Metrics.antt =====
-- internal/metrics: the reconciliation tracker (reconciliation_tracker.go) in the child Tracker, and
-- the resource counts of metrics.go here. Prometheus' own vectors are the list of their increments.
pub mod Tracker
pub mod Forget
pub mod Counts
use perses_operator.Prelude.{
  ℕ, ◌+◌, String, Bool, true, false, not, ◌&&◌, Option, none, some, List, [], ◌∷◌, Dict, lookup,
  insert, remove, ◌==◌, is_empty, is_some, if◌then◌else◌,
}

pub data ResourceState : Type 0 where
  synced failed : ResourceState

abbrev pub state_eq : ResourceState → ResourceState → Bool
state_eq synced synced = true
state_eq failed failed = true
state_eq _ _ = false

pub record ResourceKey : Type 0 where
  pub resource : String
  pub state : ResourceState
  pub namespace : String

-- Go compares the struct keys of a map field by field.
abbrev pub key_eq : ResourceKey → ResourceKey → Bool
key_eq a b = a.resource == b.resource && (state_eq a.state b.state && a.namespace == b.namespace)

-- `map[resourceKey]map[string]int`; the counts that the controllers set are never negative.
abbrev pub Resources : Type 0
Resources = List (ResourceKey × Dict ℕ)

pub record Metrics : Type 0 where
  pub reconcile_operations : List String
  pub reconcile_errors : List (String × String)
  pub perses_instances : List (String × String)
  pub resources : Resources

-- `m.resources[resKey]`, where a missing key reads as the empty map.
unfoldable pub objects_of : ResourceKey → Resources → Dict ℕ
objects_of k [] = []
objects_of k ((j, objs) ∷ rs) = if key_eq j k then objs else objects_of k rs

-- The two statements of setResources under the lock.
unfoldable pub set_resources : String → ResourceKey → ℕ → Resources → Resources
set_resources obj k v [] = (k, insert obj v []) ∷ []
set_resources obj k v ((j, objs) ∷ rs) =
    if key_eq j k then (j, insert obj v objs) ∷ rs else (j, objs) ∷ set_resources obj k v rs

unfoldable pub set_synced_resources : String → String → String → ℕ → Metrics → Metrics
set_synced_resources obj resource namespace v m = record m {
  resources =
      set_resources obj (record { resource = resource; state = synced; namespace = namespace }) v
        m.resources;
}

unfoldable pub set_failed_resources : String → String → String → ℕ → Metrics → Metrics
set_failed_resources obj resource namespace v m = record m {
  resources =
      set_resources obj (record { resource = resource; state = failed; namespace = namespace }) v
        m.resources;
}

-- The loop of ForgetObject: an entry that becomes empty is deleted.
unfoldable pub forget_resources : String → Resources → Resources
forget_resources obj [] = []
forget_resources obj ((j, objs) ∷ rs) =
    let rest = forget_resources obj rs in
    let left = remove obj objs in if is_empty left then rest else (j, left) ∷ rest

unfoldable pub forget_object : String → Metrics → Metrics
forget_object obj m = record m { resources = forget_resources obj m.resources }

abbrev instance_eq : String × String → String → String → Bool
instance_eq (ns, n) namespace name = ns == namespace && n == name

abbrev drop_instance : String → String → List (String × String) → List (String × String)
drop_instance namespace name [] = []
drop_instance namespace name (i ∷ is) =
    let rest = drop_instance namespace name is in
    if instance_eq i namespace name then rest else i ∷ rest

-- `m.PersesInstances(namespace, name).Set(1)` and DeletePersesInstance: the gauges that stand at 1.
unfoldable pub set_perses_instance : String → String → Metrics → Metrics
set_perses_instance namespace name m = record m {
  perses_instances = (namespace, name) ∷ drop_instance namespace name m.perses_instances;
}

unfoldable pub delete_perses_instance : String → String → Metrics → Metrics
delete_perses_instance namespace name m = record m {
  perses_instances = drop_instance namespace name m.perses_instances;
}

-- What Collect sums for one key.
unfoldable pub total : Dict ℕ → ℕ
total [] = 0
total ((k, v) ∷ m) = v + total m

-- The gauges that Collect emits, one for each key.
unfoldable pub collect : Resources → List (ResourceKey × ℕ)
unfolding total
collect [] = []
collect ((k, objs) ∷ rs) = (k, total objs) ∷ collect rs
