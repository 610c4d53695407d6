-- ===== src/Examples/TestCluster.antt =====
-- An API server that holds one instance, one Deployment and one StatefulSet, and answers every call.
use perses_operator.Prelude.{
  true, false, Option, none, some, List, [], ◌∷◌, ◌<>◌, ◌==◌, ◌&&◌, String, if◌then◌else◌,
}
use perses_operator.Prelude.TextOrder.{less}
use perses_operator.Errors.{Error, api_error, not_found}
use perses_operator.Act.{Outcome, ok, fail}
use perses_operator.Tags.{codes}
use perses_operator.Api.{raw}
use perses_operator.Api.Instance.{Perses, SecretVersion, user_source}
use perses_operator.Pod.Args.{Config}
use perses_operator.Workload.{Cluster, Objects, ObjectMeta, State, Deployment, StatefulSet}
use perses_operator.Examples.{perses_main}

pub record Store : Type 0 where
  pub perses : Option Perses
  pub deployment : Option Deployment
  pub stateful_set : Option StatefulSet

abbrev pub got : {O : Type 0} → Option O → Outcome Error O
got none = fail (api_error not_found "")
got (some o) = ok o

-- What is found under a name and a namespace.
abbrev pub held : {O : Type 0} → (O → ObjectMeta) → String → String → Option O → Option O
held meta name namespace none = none
held meta name namespace (some o) =
    if (meta o).name == name && (meta o).namespace == namespace then some o else none

-- Objects that are never found: creating one has no effect.
abbrev pub no_objects : {E O : Type 0} → Objects E O
no_objects = record {
  get = λ name namespace e. (fail (api_error not_found ""), e);
  create = λ o e. (ok tt, e);
  update_dry_run = λ o e. (ok o, e);
  update = λ o e. (ok tt, e);
  delete = λ o e. (ok tt, e);
}

abbrev pub put_deployment : Deployment → Store → Store
put_deployment o e = record e { deployment = some o }

abbrev pub put_stateful_set : StatefulSet → Store → Store
put_stateful_set o e = record e { stateful_set = some o }

-- An insertion sort by name.
abbrev insert_version : SecretVersion → List SecretVersion → List SecretVersion
insert_version x [] = x ∷ []
insert_version x (y ∷ ys) =
    let rest = insert_version x ys in if less y.name x.name then y ∷ rest else x ∷ y ∷ ys

abbrev sort_versions : List SecretVersion → List SecretVersion
sort_versions [] = []
sort_versions (x ∷ xs) = insert_version x (sort_versions xs)

abbrev pub test_cluster : Cluster Store
test_cluster = record {
  services = no_objects;
  config_maps = no_objects;
  deployments = record {
    get = λ name namespace e.
        (got (held (λ (d : Deployment). d.meta) name namespace e.deployment), e);
    create = λ o e. (ok tt, put_deployment o e);
    update_dry_run = λ o e. (ok o, e);
    update = λ o e. (ok tt, put_deployment o e);
    delete = λ o e. (ok tt, record e { deployment = none });
  };
  stateful_sets = record {
    get = λ name namespace e.
        (got (held (λ (d : StatefulSet). d.meta) name namespace e.stateful_set), e);
    create = λ o e. (ok tt, put_stateful_set o e);
    update_dry_run = λ o e. (ok o, e);
    update = λ o e. (ok tt, put_stateful_set o e);
    delete = λ o e. (ok tt, record e { stateful_set = none });
  };
  perses_get = λ namespace name e. (got e.perses, e);
  perses_update = λ p e. (ok tt, record e { perses = some p });
  perses_status_update = λ p e. (ok tt, record e { perses = some p });
  list_perses = λ namespace e. (ok [], e);
  secret_version = λ namespace name e. (ok (name <> "-1"), e);
  retry_on_conflict = λ m. m;
  set_controller_reference = λ p m. ok (record m { owner_references = raw p.name ∷ [] });
  status_equal = λ p q. false;
  versions_equal = λ xs ys. false;
  service_type_equal = λ s t. s == t;
  ports_equal = λ xs ys. false;
  dict_equal = λ a b. false;
  deployment_equal = λ x y. false;
  stateful_set_equal = λ x y. false;
  set_status_condition = λ cs c. c ∷ cs;
  range = λ m. m;
  sort_by_name = sort_versions;
  marshal_config = λ c. ok "";
  encode_versions = λ xs. ok "hash";
  join = λ a b. a <> "/" <> b;
  lower_rune = λ c. c;
  show = λ n. "8080";
  error_text = λ e. "error";
  undefined_volume = λ m. "undefined volume";
  cache_invalidator = none;
}

abbrev pub test_config : Config
test_config = record {
  perses_image = "perses:v1";
  tls_min_version = "VersionTLS12";
  tls_cipher_suites = "";
  tls_configure_operands = true;
}

-- An instance with a file database, a volume of its own that it mounts, and two secrets.
abbrev pub test_instance : Perses
test_instance = record perses_main {
  spec = record perses_main.spec {
    config = record perses_main.spec.config { database_file = some (raw "{}") };
    volumes = record { name = codes "data"; source = user_source (raw "{}") } ∷ [];
    volume_mounts =
        record { name = codes "data"; read_only = false; mount_path = "/data"; sub_path = "" } ∷ [];
    provisioning =
        some
          (record { name = "b"; key = "password" } ∷ record { name = "a"; key = "password" } ∷ []);
  };
}

abbrev pub test_store : Store
test_store = record { perses = some test_instance; deployment = none; stateful_set = none }

abbrev pub test_state : State Store
test_state = record {
  env = record { perses = test_instance; needs_requeue = false; cluster = test_store; writes = [] };
  calls = [];
  tracker = none;
  metrics = none;
}
