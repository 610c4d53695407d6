-- ===== src/Examples/Versions.antt =====
-- Resources of the old API version, converted and back.
use perses_operator.Prelude.{true, false, ◌≡◌, ◌↔◌, refl, none, some, [], default, ◌==◌, arith}
use perses_operator.Prelude.{eq_iff}
use perses_operator.Api.{raw, secret_type}
use perses_operator.Conversion.{Pointers, Client}
use perses_operator.Conversion.Spec.{
  PersesSpec, DatasourceSpec, perses_spec_to, perses_spec_from, datasource_spec_to,
  datasource_spec_from,
}
use perses_operator.Conversion.RoundTrip.{
  IsRead, perses_spec_from-perses_spec_to, datasource_spec_from-datasource_spec_to_iff,
}

abbrev test_pointers : Pointers
test_pointers = record {
  string_to_pointer = λ s. some s;
  pointer_to_string = λ s. default "" s;
  bool_to_pointer = λ b. some b;
  pointer_to_bool = λ b. default false b;
  int32_to_pointer = λ n. some n;
  pointer_to_int32 = λ n. default 0 n;
  is_zero = λ q. q == "0";
  zero_quantity = "0";
}

abbrev test_reads : IsRead test_pointers
test_reads = record { string_law = λ s. refl; bool_law = λ b. refl; int32_law = λ n. refl }

abbrev test_client : Client
test_client = record {
  basic_auth = none;
  oauth = some (record {
    source = record { kind = secret_type; name = "credentials"; namespace = "" };
    client_id_path = "id";
    client_secret_path = "secret";
    token_url = "https://auth.example/token";
    scopes = [];
    endpoint_params = raw "{}";
    auth_style = 2;
  });
  tls = none;
  kubernetes_auth = some true;
}

abbrev test_spec : PersesSpec
test_spec = record {
  metadata = none;
  client = some test_client;
  config = record { api_prefix = ""; database_file = none; database_sql = none; config = raw "" };
  args = [];
  container_port = 8080;
  replicas = some 2;
  node_selector = [];
  tolerations = [];
  affinity = none;
  image = "perses:v1";
  service = some (record { name = ""; annotations = none });
  liveness_probe = none;
  readiness_probe = none;
  tls = none;
  storage = some (record { storage_class = some "fast"; size = "10Gi" });
  service_account_name = "";
}

perses_spec_from-perses_spec_to_example :
    perses_spec_from test_pointers (perses_spec_to test_pointers test_spec) ≡ test_spec
perses_spec_from-perses_spec_to_example =
    perses_spec_from-perses_spec_to test_pointers test_reads test_spec (ground arith)
      (λ h. (eq_iff "10Gi" "0").0 h)

abbrev test_datasource : DatasourceSpec
test_datasource = record { config = raw "{}"; client = some test_client }

datasource_spec_from-datasource_spec_to_iff_example :
    (datasource_spec_from test_pointers (datasource_spec_to test_pointers test_datasource)
      ≡ test_datasource)
    ↔ (test_datasource.client ≡ none)
datasource_spec_from-datasource_spec_to_iff_example =
    datasource_spec_from-datasource_spec_to_iff test_pointers test_datasource
