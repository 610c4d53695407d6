-- ===== src/Examples/Instances.antt =====
-- The theorems about Perses instances, applied to the cluster of the examples.
use mathlib.Core.Logic.Or
use mathlib.Core.Bool.{Bool-set}
use mathlib.Core.List.{Mem, mem-cons_self, eq-or-mem_of_mem-cons, not-mem-nil}
use mathlib.Core.List.Perm
use perses_operator.Prelude.{
  String, true, ◌≡◌, refl, ap, [], ◌∷◌, Dict, lookup, insert, remove, All, length, ◌≤◌, default,
  is_some,
}
use perses_operator.Act.{Outcome, ok}
use perses_operator.Errors.{Error}
use perses_operator.Workload.{PodTemplate}
use mathlib.Core.Path.{subst}
use perses_operator.Tags.{codes}
use perses_operator.Api.Instance.{Perses, SecretVersion}
use perses_operator.Controller.{Request}
use perses_operator.Pod.Volumes.{get_volumes, get_volume_mounts}
use perses_operator.Pod.Volumes.Mounted.{Mounted, get_volume_mounts-Mounted}
use perses_operator.Pod.Labels.{sanitize_label, own_labels, labels_for_perses, metadata_labels}
use perses_operator.Pod.Labels.Valid.{
  is_name_char, IsLabelText, starts_alnum, ends_alnum, or_else, sanitize_label-IsLabelText,
  lookup-labels_for_perses,
}
use perses_operator.Workload.{Cluster}
use perses_operator.Workload.Mounts.{FillsTemplates, SameMounts, LogMounted}
use perses_operator.PersesController.Provisioning.{
  versions_of, references, requests_for, collect_versions, new_secret_versions,
}
use perses_operator.PersesController.Provisioning.Order.{IsSorted, IsRead, Visits}
use perses_operator.PersesController.Provisioning.Watch.{
  new_secret_versions-eq, requests_for-collected,
}
use perses_operator.Prelude.TextOrder.{less}
use perses_operator.PersesController.Keeps.{KeepsWhatRunsKeep}
use perses_operator.PersesController.Mounts.{reconcile-LogMounted}
use perses_operator.PersesController.Deleting.{FinalizersOnly, reconcile_found-FinalizersOnly}
use perses_operator.PersesController.Reconcile.{
  reconcile, reconcile_found, count_instance, final_result, track,
}
use perses_operator.PersesController.{handle_delete}
use perses_operator.Controller.Reconcile.{on_metrics}
use perses_operator.Workload.{set_perses}
use perses_operator.Subreconciler.{evaluate}
use perses_operator.Examples.{perses_main}
use perses_operator.Examples.TestCluster.{
  test_cluster, test_config, test_instance, test_state, Store,
}

get_volume_mounts-Mounted_example :
    Mounted
      (get_volumes (λ c. c) (λ a b. a) test_instance)
      (get_volume_mounts (λ c. c) (λ a b. a) test_instance)
get_volume_mounts-Mounted_example =
    get_volume_mounts-Mounted (λ c. c) (λ a b. a) test_instance (refl, tt)

sanitize_label-IsLabelText_example :
    (length (sanitize_label (λ c. c) (codes "My/Perses")) ≤ 63)
    × ((starts_alnum (sanitize_label (λ c. c) (codes "My/Perses")) ≡ true)
        × ((ends_alnum (sanitize_label (λ c. c) (codes "My/Perses")) ≡ true)
            × (All (λ c. is_name_char c ≡ true) (codes "My/Perses")
                → IsLabelText (sanitize_label (λ c. c) (codes "My/Perses")))))
sanitize_label-IsLabelText_example = sanitize_label-IsLabelText (λ c. c) (codes "My/Perses")

lookup-labels_for_perses_example :
    lookup "team" (labels_for_perses (λ c. c) "main" test_instance)
    ≡ or_else
        (lookup "team" (own_labels (λ c. c) "main" test_instance))
        (lookup "team" (metadata_labels test_instance.spec.metadata))
lookup-labels_for_perses_example = lookup-labels_for_perses (λ c. c) "team" "main" test_instance

abbrev pub instance_request : Request
instance_request = record { namespace = "monitoring"; name = "main" }

retries : KeepsWhatRunsKeep test_cluster
retries = λ P f h s k. h s k

ok_injective : {O : Type 0} {a b : O} → ◌≡◌ {A = Outcome Error O} (ok a) (ok b) → a ≡ b
ok_injective h = cc

ok-same :
    {O : Type 0} (f : O → PodTemplate) (d d' : O)
    → ◌≡◌ {A = Outcome Error O} (ok d) (ok d')
    → SameMounts (f d) (f d')
ok-same f d d' q = let e = ok_injective q in subst (λ x. SameMounts (f d) (f x)) e (refl, refl)

templates : FillsTemplates test_cluster
templates = record {
  deployments_filled = λ d d' e q. ok-same (λ d. d.spec.template) d d' q;
  stateful_sets_filled = λ d d' e q. ok-same (λ d. d.spec.template) d d' q;
}

reconcile-LogMounted_example :
    LogMounted (reconcile test_cluster test_config instance_request test_state).1
reconcile-LogMounted_example =
    reconcile-LogMounted test_cluster retries templates test_config instance_request test_state tt

abbrev deleted_instance : Perses
deleted_instance = record test_instance {
  deleting = true;
  finalizers = "perses.dev/finalizer" ∷ [];
}

reconcile_found-FinalizersOnly_example :
    let counted = set_perses deleted_instance (
      on_metrics
        (count_instance test_cluster test_config instance_request deleted_instance)
        test_state) in
    let deleted = handle_delete test_cluster instance_request counted in
    let ended =
      reconcile_found test_cluster test_config instance_request deleted_instance test_state in
    (ended ≡ (
      evaluate (final_result test_cluster test_config instance_request deleted.0.1),
      track test_cluster test_config instance_request deleted.0.1 deleted.1,
    ))
    × FinalizersOnly ended.1
reconcile_found-FinalizersOnly_example =
    reconcile_found-FinalizersOnly test_cluster retries test_config instance_request
      deleted_instance test_state refl tt

-- The map of the versions, and a server that visits it in the other order.
abbrev test_versions : Dict String
test_versions = ("a", "a-1") ∷ ("b", "b-1") ∷ []

abbrev swapped : Dict String → Dict String
swapped (x ∷ y ∷ m) = y ∷ x ∷ m
swapped m = m

abbrev swapped_cluster : Cluster Store
swapped_cluster = record test_cluster { range = swapped }

versions_collected :
    (collect_versions test_cluster "monitoring"
      (default [] test_instance.spec.provisioning)
      []
      test_state).0
    ≡ ok test_versions
unfolding collect_versions lookup insert remove
versions_collected = refl

test-IsSorted : IsSorted (versions_of test_versions)
test-IsSorted = (
  λ y h.
      Or.elim (Bool-set _ _) (eq-or-mem_of_mem-cons h)
        (λ e. ap (λ (z : SecretVersion). less z.name "a") e) (λ q. absurd (not-mem-nil q)),
  (λ y h. absurd (not-mem-nil h), tt),
)

abbrev visits : Visits test_cluster test_versions
visits = record { range_law = Perm.rfl; sort_law = Perm.rfl; sorted_law = test-IsSorted }

abbrev swapped_visits : Visits swapped_cluster test_versions
swapped_visits = record {
  range_law = Perm.swap _ _ [];
  sort_law = Perm.swap _ _ [];
  sorted_law = test-IsSorted;
}

new_secret_versions-eq_example :
    (new_secret_versions test_cluster test_versions
      ≡ new_secret_versions swapped_cluster test_versions)
    × (IsSorted (new_secret_versions test_cluster test_versions)
        × IsRead test_versions (new_secret_versions test_cluster test_versions))
new_secret_versions-eq_example =
    new_secret_versions-eq test_cluster swapped_cluster test_versions visits swapped_visits
      "monitoring" (default [] test_instance.spec.provisioning) test_state versions_collected

requests_for-collected_example :
    (is_some (lookup "a" test_versions) ≡ true
      → Mem instance_request (requests_for "a" (test_instance ∷ perses_main ∷ [])))
    × (references "a" (default [] test_instance.spec.provisioning) ≡ true
        → is_some (lookup "a" test_versions) ≡ true)
requests_for-collected_example =
    requests_for-collected test_cluster "a" "monitoring" test_instance
      (test_instance ∷ perses_main ∷ []) test_state test_versions mem-cons_self versions_collected
