-- ===== src/Examples/Absent.antt =====
-- The reconciliation of an instance that the API server does not have, with a cache of two clients.
use perses_operator.Prelude.{ℕ, true, false, ◌≡◌, refl, none, some, [], ◌∷◌, ◌<>◌, ◌==◌}
use perses_operator.Errors.{Error, api_error, not_found, is_not_found}
use perses_operator.Act.{ok, fail}
use perses_operator.Api.{raw}
use perses_operator.Controller.{Request}
use perses_operator.ClientFactory.{Factory}
use perses_operator.Metrics.{Metrics, failed}
use perses_operator.Metrics.Forget.{key_of}
use perses_operator.Metrics.Tracker.{Tracker}
use perses_operator.Workload.{Cluster, Memory}
use perses_operator.PersesController.Reconcile.{reconcile}
use perses_operator.PersesController.Gone.{invalidate, Forgotten, reconcile-Forgotten}
use perses_operator.Examples.{perses_main}
use perses_operator.Examples.Caches.{two_clients, ne_keys}
use perses_operator.Examples.TestCluster.{no_objects, test_config}

abbrev absent_cluster : Cluster (Unit {0} × Factory ℕ)
absent_cluster = record {
  services = no_objects;
  config_maps = no_objects;
  deployments = no_objects;
  stateful_sets = no_objects;
  perses_get = λ namespace name e. (fail (api_error not_found "perses"), e);
  perses_update = λ p e. (ok tt, e);
  perses_status_update = λ p e. (ok tt, e);
  list_perses = λ namespace e. (ok [], e);
  secret_version = λ namespace name e. (ok (name <> "-1"), e);
  retry_on_conflict = λ m. m;
  set_controller_reference = λ p m. ok (record m { owner_references = raw p.name ∷ [] });
  status_equal = λ p q. false;
  versions_equal = λ xs ys. false;
  service_type_equal = λ s t. s == t;
  ports_equal = λ xs ys. false;
  dict_equal = λ a b. false;
  deployment_equal = λ x y. false;
  stateful_set_equal = λ x y. false;
  set_status_condition = λ cs c. c ∷ cs;
  range = λ m. m;
  sort_by_name = λ xs. xs;
  marshal_config = λ c. ok "";
  encode_versions = λ xs. ok "hash";
  join = λ a b. a <> "/" <> b;
  lower_rune = λ c. c;
  show = λ n. "8080";
  error_text = λ e. "error";
  undefined_volume = λ m. "undefined volume";
  cache_invalidator = some invalidate;
}

abbrev absent_request : Request
absent_request = record { namespace = "a"; name = "main" }

abbrev two_statuses : Tracker
two_statuses = some (
    ("a/main", record { err = none; reason = ""; message = "" })
    ∷ ("b/main", record { err = none; reason = ""; message = "" })
    ∷ [])

abbrev two_counts : Metrics
two_counts = record {
  reconcile_operations = [];
  reconcile_errors = [];
  perses_instances = ("a", "main") ∷ [];
  resources = (key_of "perses" "a" failed, ("a/main", 1) ∷ []) ∷ [];
}

abbrev absent_memory : Memory (Unit {0} × Factory ℕ)
absent_memory = record {
  perses = perses_main;
  needs_requeue = false;
  cluster = (tt, two_clients);
  writes = [];
}

abbrev not_there : Error
not_there = api_error not_found "perses"

not_there_found : is_not_found not_there ≡ true
unfolding is_not_found
not_there_found = refl

reconcile-Forgotten_example :
    Forgotten absent_cluster test_config absent_request "b/main"
      (key_of "perses" "a" failed)
      950
      "y"
      two_statuses
      two_counts
      two_clients
      (reconcile absent_cluster test_config absent_request (record {
        env = absent_memory;
        calls = [];
        tracker = some two_statuses;
        metrics = some two_counts;
      }))
reconcile-Forgotten_example =
    reconcile-Forgotten absent_cluster test_config absent_request "b/main"
      (key_of "perses" "a" failed) 950 "y" absent_memory [] two_statuses two_counts refl (tt, tt)
      ne_keys not_there not_there_found refl
