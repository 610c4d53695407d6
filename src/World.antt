-- ===== src/World.antt =====
-- What the controllers act on: the Kubernetes API server, the Perses servers and the files of the
-- container, which are not part of the operator and come as an `Env` over a state `E` of their own,
-- the objects of the operator that change (the tracker and the metrics), and a log of the calls to
-- Perses servers, which no code reads.
use perses_operator.Prelude.{ℕ, String, Bool, true, false, Option, List, ◌∷◌}
use perses_operator.Errors.{Error}
use perses_operator.Act.{Act, Outcome, ok, fail}
use perses_operator.Api.{Opaque, Condition, Resource}
use perses_operator.Api.Instance.{Perses}
use perses_operator.Tags.{Text}
use perses_operator.Secret.{Reader}
use perses_operator.Metrics.{Metrics}
use perses_operator.Metrics.Tracker.{Tracker}

-- The collections of a Perses server that the operator writes.
pub data ObjectKind : Type 0 where
  dashboard datasource global_datasource : ObjectKind

-- `persesv1.Dashboard`, `Datasource`, `GlobalDatasource`: a name, the tags (nil is `none`), a spec.
pub record Object : Type 0 where
  pub name : String
  pub tags : Option (List Text)
  pub spec : Opaque

-- `secret.BasicAuth`, `secret.OAuth`, `secret.TLSConfig` and `persesv1.Secret`.
pub record SecretBasicAuth : Type 0 where
  pub username : String
  pub password : String
  pub password_file : String

pub record SecretOAuth : Type 0 where
  pub token_url : String
  pub scopes : List String
  pub endpoint_params : Opaque
  pub auth_style : ℕ
  pub client_id : String
  pub client_secret : String
  pub client_secret_file : String

pub record SecretTlsConfig : Type 0 where
  pub insecure_skip_verify : Bool
  pub ca : String
  pub ca_file : String
  pub cert : String
  pub cert_file : String
  pub key : String
  pub key_file : String

pub record PersesSecret : Type 0 where
  pub name : String
  pub basic_auth : Option SecretBasicAuth
  pub oauth : Option SecretOAuth
  pub tls_config : Option SecretTlsConfig

-- A collection within a project, or outside of all projects (`none`).
abbrev pub Project : Type 0
Project = Option String

-- A call to a Perses server.
pub data Call : Type 0 where
  get_project create_project : String → Call
  get_object delete_object : ObjectKind → Project → String → Call
  validate_object : ObjectKind → Object → Call
  create_object update_object : ObjectKind → Project → Object → Call
  get_secret delete_secret : Project → String → Call
  create_secret update_secret : Project → PersesSecret → Call

pub record Event : Type 0 where
  pub call : Call
  pub succeeded : Bool

-- The newest call stands first.
pub record World (E : Type 0) : Type 0 where
  pub env : E
  pub calls : List Event
  pub tracker : Option Tracker
  pub metrics : Option Metrics

-- The operations of other code that the controllers of dashboards and datasources call.
pub record Env (E C : Type 0) : Type 0 where
  -- `PersesClientFactory.CreateClient`
  pub create_client : Perses → Act E Error C
  pub project_get : C → String → Act E Error Unit
  pub project_create : C → String → Act E Error Unit
  pub object_get : C → ObjectKind → Project → String → Act E Error Object
  pub object_create : C → ObjectKind → Project → Object → Act E Error Unit
  pub object_update : C → ObjectKind → Project → Object → Act E Error Unit
  pub object_delete : C → ObjectKind → Project → String → Act E Error Unit
  -- `validate.New(client.RESTClient())`
  pub object_validate : C → ObjectKind → Object → Act E Error Unit
  pub secret_get : C → Project → String → Act E Error Unit
  pub secret_create : C → Project → PersesSecret → Act E Error Unit
  pub secret_update : C → Project → PersesSecret → Act E Error Unit
  pub secret_delete : C → Project → String → Act E Error Unit
  -- the API server
  pub reader : Reader E
  pub list_perses : Option Opaque → Act E Error (List Perses)
  pub label_selector : Opaque → Outcome Error Opaque
  pub resource_get : ObjectKind → String → String → Act E Error Resource
  pub status_update : ObjectKind → Resource → Act E Error Unit
  -- `retry.RetryOnConflict(retry.DefaultRetry, fn)`
  pub retry_on_conflict : Act (World E) Error Unit → Act (World E) Error Unit
  -- `os.ReadFile`
  pub read_file : String → Act E Error String
  -- `equality.Semantic.DeepEqual`
  pub deep_equal : Opaque → Opaque → Bool
  pub conditions_equal : List Condition → List Condition → Bool
  -- `meta.SetStatusCondition` and `meta.IsStatusConditionTrue`
  pub set_status_condition : List Condition → Condition → List Condition
  pub is_status_condition_true : List Condition → String → Bool
  -- `unicode.ToLower` beyond ASCII, and `Error()`
  pub lower_rune : ℕ → ℕ
  pub error_text : Error → String

abbrev pub is_ok : {A : Type 0} → Outcome Error A → Bool
is_ok (ok _) = true
is_ok (fail _) = false

module _ {E A : Type 0} where
  -- A call of other code that is not one to a Perses server.
  abbrev pub lift : Act E Error A → Act (World E) Error A
  lift m w = let (r, e) = m w.env in (r, record w { env = e })

  -- A call to a Perses server.
  abbrev pub invoke : Call → Act E Error A → Act (World E) Error A
  invoke c m w =
      let (r, e) = m w.env in
      (r, record w { env = e; calls = record { call = c; succeeded = is_ok r } ∷ w.calls })
