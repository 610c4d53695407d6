-- ===== src/Api.antt =====
-- The custom resources of api/v1alpha2: perses_types.go, common_types.go and the three resource
-- types. An optional field (`omitempty` pointer) is an `Option`; a value that the operator only
-- passes on or hands to a library is an `Opaque`, its serialised text without empty lists and maps,
-- which `equality.Semantic.DeepEqual` does not tell from missing ones.
pub mod Instance
use perses_operator.Prelude.{
  ℕ, String, Bool, true, false, ◌&&◌, ◌||◌, Option, none, some, List, Dict, is_some, default, ◌<>◌,
}

pub data Opaque : Type 0 where
  raw : String → Opaque

-- `metav1.Condition`. The time of the last transition is left out: it moves only with the status.
pub data ConditionStatus : Type 0 where
  condition_true condition_false condition_unknown : ConditionStatus

pub record Condition : Type 0 where
  pub kind : String
  pub status : ConditionStatus
  pub reason : String
  pub message : String

abbrev pub type_available_perses : String
type_available_perses = "Available"

abbrev pub type_degraded_perses : String
type_degraded_perses = "Degraded"

-- `SecretSourceType` is a text with three known values; any other falls through every `switch`.
pub data SecretSourceType : Type 0 where
  secret_type config_map_type file_type : SecretSourceType
  other_type : String → SecretSourceType

pub record SecretSource : Type 0 where
  pub kind : SecretSourceType
  pub name : Option String
  pub namespace : Option String

pub record BasicAuth : Type 0 where
  pub source : SecretSource
  pub username : String
  pub password_path : String

pub record OAuth : Type 0 where
  pub source : SecretSource
  pub client_id_path : Option String
  pub client_secret_path : Option String
  pub token_url : String
  pub scopes : List String
  pub endpoint_params : Opaque
  pub auth_style : Option ℕ

pub record Certificate : Type 0 where
  pub source : SecretSource
  pub cert_path : String
  pub private_key_path : Option String

pub record Tls : Type 0 where
  pub enable : Option Bool
  pub ca_cert : Option Certificate
  pub user_cert : Option Certificate
  pub insecure_skip_verify : Option Bool

-- `KubernetesAuth` has the one field `Enable`.
pub record Client : Type 0 where
  pub basic_auth : Option BasicAuth
  pub oauth : Option OAuth
  pub tls : Option Tls
  pub kubernetes_auth : Option (Option Bool)

-- PersesDashboard, PersesDatasource and PersesGlobalDatasource, as far as the operator reads them:
-- `Spec.InstanceSelector`, `Spec.Config.Spec`, and `Spec.Client` of the two kinds of datasource.
-- A global datasource has no namespace: its text is empty.
pub record Resource : Type 0 where
  pub name : String
  pub namespace : String
  pub annotations : Dict String
  pub instance_selector : Option Opaque
  pub config_spec : Opaque
  pub client : Option Client
  pub conditions : List Condition
