-- ===== src/Examples.antt =====
-- A server that keeps one object for each kind and name, in every project the same, and resources to
-- run the operator's code on.
mod TestServer
mod Runs
mod Loops
mod Caches
mod Counts
mod Readings
mod Outcomes
mod Deletions
mod TestCluster
mod Instances
mod Workloads
mod Versions
mod Absent
mod Caching
use perses_operator.Prelude.{
  String, Bool, true, false, ◌&&◌, Option, none, some, List, [], ◌∷◌, if◌then◌else◌, ◌==◌,
}
use perses_operator.Errors.{Error, plain, request_not_found, api_error, not_found}
use perses_operator.Act.{Outcome, ok, fail}
use perses_operator.Api.{
  Opaque, raw, Condition, condition_true, type_available_perses, secret_type, SecretSource,
  BasicAuth, Client, Resource,
}
use perses_operator.Api.Instance.{Perses}
use perses_operator.World.{
  ObjectKind, Object, Project, Env, World, dashboard, datasource, global_datasource,
}
use perses_operator.Controller.{Request}

abbrev pub kind_eq : ObjectKind → ObjectKind → Bool
kind_eq dashboard dashboard = true
kind_eq datasource datasource = true
kind_eq global_datasource global_datasource = true
kind_eq _ _ = false

abbrev pub Objects : Type 0
Objects = ObjectKind → Project → String → Option Object

abbrev pub found_or_missing : Option Object → Outcome Error Object
found_or_missing none = fail request_not_found
found_or_missing (some o) = ok o

abbrev pub stored_at : ObjectKind → Object → Objects → Objects
stored_at k o e k' p n = if kind_eq k' k && n == o.name then some o else e k' p n

abbrev pub removed_at : ObjectKind → String → Objects → Objects
removed_at k n e k' p n' = if kind_eq k' k && n' == n then none else e k' p n'

abbrev pub text_of : Opaque → String
text_of (raw s) = s

abbrev is_available : List Condition → String → Bool
is_available [] kind = false
is_available (c ∷ cs) kind = c.kind == kind

abbrev test_perses : Perses
test_perses = record {
  name = "main";
  namespace = "monitoring";
  generation = 1;
  deleting = false;
  finalizers = [];
  spec = record {
    metadata = none;
    client = none;
    config = record { api_prefix = ""; database_file = none; database_sql = none; config = raw "" };
    args = [];
    container_port = none;
    replicas = none;
    resources = none;
    node_selector = [];
    tolerations = [];
    affinity = none;
    priority_class_name = none;
    image = none;
    service = none;
    liveness_probe = none;
    readiness_probe = none;
    tls = none;
    storage = none;
    service_account_name = none;
    pod_security_context = none;
    container_security_context = none;
    log_level = none;
    log_method_trace = none;
    provisioning = none;
    volumes = [];
    volume_mounts = [];
    env = [];
    env_from = [];
  };
  conditions =
      record {
        kind = type_available_perses;
        status = condition_true;
        reason = "Reconciled";
        message = "";
      }
      ∷ [];
  provisioning_status = none;
}

abbrev pub perses_main : Perses
perses_main = test_perses

abbrev pub perses_other : Perses
perses_other = record test_perses { name = "other" }

-- One namespace has a secret with a password.
abbrev pub test_env : Env Objects Unit
test_env = record {
  create_client = λ p e. (ok tt, e);
  project_get = λ c n e. (ok tt, e);
  project_create = λ c n e. (ok tt, e);
  object_get = λ c k p n e. (found_or_missing (e k p n), e);
  object_create = λ c k p o e. (ok tt, stored_at k o e);
  object_update = λ c k p o e. (ok tt, stored_at k o e);
  object_delete = λ c k p n e. (ok tt, removed_at k n e);
  object_validate = λ c k o e. (ok tt, e);
  secret_get = λ c p n e. (fail request_not_found, e);
  secret_create = λ c p s e. (ok tt, e);
  secret_update = λ c p s e. (ok tt, e);
  secret_delete = λ c p n e. (ok tt, e);
  reader = record {
    get_secret = λ ns n e. (ok (("password", "hunter2") ∷ []), e);
    get_config_map = λ ns n e. (fail (api_error not_found "config map"), e);
  };
  list_perses = λ s e. (ok (perses_main ∷ perses_other ∷ []), e);
  label_selector = λ s. ok s;
  resource_get = λ k ns n e. (fail (api_error not_found "resource"), e);
  status_update = λ k r e. (ok tt, e);
  retry_on_conflict = λ m. m;
  read_file = λ path e. (fail (plain "no such file"), e);
  deep_equal = λ a b. text_of a == text_of b;
  conditions_equal = λ a b. false;
  set_status_condition = λ cs c. c ∷ cs;
  is_status_condition_true = is_available;
  lower_rune = λ c. c;
  error_text = λ e. "error";
}

abbrev pub empty_world : World Objects
empty_world = record { env = λ k p n. none; calls = []; tracker = some none; metrics = none }

abbrev pub test_client : Client
test_client = record {
  basic_auth = some (record {
    source = record { kind = secret_type; name = some "credentials"; namespace = none };
    username = "admin";
    password_path = "password";
  });
  oauth = none;
  tls = none;
  kubernetes_auth = none;
}

abbrev pub test_resource : Resource
test_resource = record {
  name = "cpu";
  namespace = "team";
  annotations = ("perses.dev/tags", "Node, ,node,CPU") ∷ [];
  instance_selector = none;
  config_spec = raw "{}";
  client = some test_client;
  conditions = [];
}

abbrev pub test_request : Request
test_request = record { namespace = "team"; name = "cpu" }
