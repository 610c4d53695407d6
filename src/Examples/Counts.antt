-- ===== src/Examples/Counts.antt =====
-- Counts of two resources.
use perses_operator.Prelude.{ap, ◌≡◌, ◌≢◌, String, none, some, [], ◌∷◌, arith, eq_iff, lookup}
use perses_operator.Metrics
use perses_operator.Metrics.{
  Metrics, ResourceKey, ResourceState, synced, failed, objects_of, set_synced_resources,
}
use perses_operator.Metrics.Forget.{
  key_of, forget_object-forgets, set_synced_resources-keeps_others,
}

ne_objects : (λ (s : String). s ≢ "team/disk") "team/cpu"
ne_objects h = ground (arith, eq_iff "team/cpu" "team/disk", h)

abbrev test_metrics : Metrics
test_metrics = record {
  reconcile_operations = [];
  reconcile_errors = [];
  perses_instances = [];
  resources = (key_of "dashboard" "team" failed, ("team/cpu", 1) ∷ ("team/disk", 1) ∷ []) ∷ [];
}

forget_object-forgets_example :
    let k = key_of "dashboard" "team" failed in
    let m' = Metrics.forget_object "team/cpu" test_metrics in
    (lookup "team/cpu" (objects_of k m'.resources) ≡ none)
    × (lookup "team/disk" (objects_of k m'.resources)
        ≡ lookup "team/disk" (objects_of k test_metrics.resources))
forget_object-forgets_example =
    forget_object-forgets test_metrics "team/cpu" "team/disk" (key_of "dashboard" "team" failed)
      (tt, tt) ne_objects

state_apart : ◌≡◌ {A = ResourceState} synced failed → ⊥
state_apart h = cc

not_failed : key_of "dashboard" "team" synced ≢ key_of "dashboard" "team" failed
not_failed h = state_apart (ap ResourceKey.state h)

set_synced_resources-keeps_others_example :
    let counts = (set_synced_resources "team/cpu" "dashboard" "team" 1 test_metrics).resources in
    (lookup "team/cpu" (objects_of (key_of "dashboard" "team" synced) counts) ≡ some 1)
    × (lookup "team/disk" (objects_of (key_of "dashboard" "team" synced) counts)
        ≡ lookup "team/disk" (objects_of (key_of "dashboard" "team" synced) test_metrics.resources))
    × (objects_of (key_of "dashboard" "team" failed) counts
        ≡ objects_of (key_of "dashboard" "team" failed) test_metrics.resources)
set_synced_resources-keeps_others_example =
    set_synced_resources-keeps_others test_metrics "team/cpu" "dashboard" "team" 1 "team/disk"
      (key_of "dashboard" "team" failed) ne_objects not_failed
