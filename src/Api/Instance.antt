-- ===== src/Api/Instance.antt =====
-- The Perses resource itself (api/v1alpha2/perses_types.go) and the tests on it in
-- internal/perses/common/constants.go.
pub mod Workload
use perses_operator.Prelude.{
  ℕ, String, Bool, true, false, ◌&&◌, ◌||◌, not, Option, none, some, List, Dict, is_some, default,
  ◌==◌,
}
use perses_operator.Tags.{Text}
use perses_operator.Api.{Opaque, Condition, Certificate, OAuth, Tls, Client}

-- `corev1.VolumeSource`, as far as the operator builds one: the numbers are file modes, and
-- `secret_item_source` has the key of a secret and the path that it is mounted under.
pub data VolumeSource : Type 0 where
  config_map_source secret_source : String → ℕ → VolumeSource
  secret_item_source : String → String → String → VolumeSource
  empty_dir_source : Option Opaque → VolumeSource
  claim_source : String → VolumeSource
  no_source : VolumeSource
  user_source : Opaque → VolumeSource

-- `corev1.Volume` and `corev1.VolumeMount`.
pub record Volume : Type 0 where
  pub name : Text
  pub source : VolumeSource

pub record VolumeMount : Type 0 where
  pub name : Text
  pub read_only : Bool
  pub mount_path : String
  pub sub_path : String

-- `corev1.Probe`: the handler is passed on.
pub record Probe : Type 0 where
  pub handler : Opaque
  pub initial_delay_seconds : ℕ
  pub timeout_seconds : ℕ
  pub period_seconds : ℕ
  pub success_threshold : ℕ
  pub failure_threshold : ℕ

pub record PodMetadata : Type 0 where
  pub labels : Dict Text
  pub annotations : Option (Dict String)

pub record PersesService : Type 0 where
  pub name : Option String
  pub annotations : Option (Dict String)

-- `PersesConfig`: the API prefix and which database is configured are read, all else passed on.
pub record PersesConfig : Type 0 where
  pub api_prefix : String
  pub database_file : Option Opaque
  pub database_sql : Option Opaque
  pub config : Opaque

-- `corev1.PersistentVolumeClaimSpec`: the access modes, where they are not nil, the name of the
-- storage class, the storage that is requested, and all other fields, where they are not empty.
pub record PersistentVolumeClaimSpec : Type 0 where
  pub access_modes : Option (List String)
  pub storage_class_name : Option String
  pub storage_request : Option String
  pub other : Option Opaque

pub record StorageConfiguration : Type 0 where
  pub empty_dir : Option Opaque
  pub persistent_volume_claim_template : Option PersistentVolumeClaimSpec

-- `ProvisioningSecret`: the name of a secret and a key of it.
pub record ProvisioningSecret : Type 0 where
  pub name : String
  pub key : String

pub record SecretVersion : Type 0 where
  pub name : String
  pub version : String

pub record PersesSpec : Type 0 where
  pub metadata : Option PodMetadata
  pub client : Option Client
  pub config : PersesConfig
  pub args : List String
  pub container_port : Option ℕ
  pub replicas : Option ℕ
  pub resources : Option Opaque
  pub node_selector : Dict String
  pub tolerations : List Opaque
  pub affinity : Option Opaque
  pub priority_class_name : Option String
  pub image : Option String
  pub service : Option PersesService
  pub liveness_probe : Option Probe
  pub readiness_probe : Option Probe
  pub tls : Option Tls
  pub storage : Option StorageConfiguration
  pub service_account_name : Option String
  pub pod_security_context : Option Opaque
  pub container_security_context : Option Opaque
  pub log_level : Option String
  pub log_method_trace : Option Bool
  -- `Provisioning.SecretRefs`
  pub provisioning : Option (List ProvisioningSecret)
  pub volumes : List Volume
  pub volume_mounts : List VolumeMount
  pub env : List Opaque
  pub env_from : List Opaque

-- The resource with what the operator reads of its metadata and its status.
pub record Perses : Type 0 where
  pub name : String
  pub namespace : String
  pub generation : ℕ
  pub deleting : Bool
  pub finalizers : List String
  pub spec : PersesSpec
  pub conditions : List Condition
  pub provisioning_status : Option (List SecretVersion)

-- `x != nil && *x`
abbrev pub is_true : Option Bool → Bool
is_true b = default false b

abbrev tls_enable : Option Tls → Bool
tls_enable none = false
tls_enable (some tls) = is_true tls.enable

-- isTLSEnabled
unfoldable pub is_tls_enabled : Perses → Bool
is_tls_enabled perses = tls_enable perses.spec.tls

abbrev has_key_pair : Option Certificate → Bool
has_key_pair none = false
has_key_pair (some cert) =
    not (cert.cert_path == "")
    && is_some cert.private_key_path
    && not (default "" cert.private_key_path == "")

abbrev pub user_cert_of : Option Tls → Option Certificate
user_cert_of none = none
user_cert_of (some tls) = tls.user_cert

-- hasTLSConfiguration
unfoldable pub has_tls_configuration : Perses → Bool
unfolding is_tls_enabled
has_tls_configuration perses = is_tls_enabled perses && has_key_pair (user_cert_of perses.spec.tls)

abbrev client_tls : Option Client → Option Tls
client_tls none = none
client_tls (some c) = c.tls

-- isClientTLSEnabled
unfoldable pub is_client_tls_enabled : Perses → Bool
is_client_tls_enabled perses = tls_enable (client_tls perses.spec.client)

abbrev client_kubernetes_auth : Option Client → Option (Option Bool)
client_kubernetes_auth none = none
client_kubernetes_auth (some c) = c.kubernetes_auth

-- isKubernetesAuthEnabled
unfoldable pub is_kubernetes_auth_enabled : Perses → Bool
is_kubernetes_auth_enabled perses =
    is_true (default none (client_kubernetes_auth perses.spec.client))

abbrev pub client_oauth : Option Client → Option OAuth
client_oauth none = none
client_oauth (some c) = c.oauth

-- isClientOAuthEnabled
unfoldable pub is_client_oauth_enabled : Perses → Bool
is_client_oauth_enabled perses = is_some (client_oauth perses.spec.client)

abbrev pub storage_empty_dir : Option StorageConfiguration → Option Opaque
storage_empty_dir none = none
storage_empty_dir (some s) = s.empty_dir

unfoldable pub requires_deployment : Perses → Bool
requires_deployment p =
    let uses_sql_database = is_some p.spec.config.database_sql in
    let uses_file_with_empty_dir =
      is_some p.spec.config.database_file && is_some (storage_empty_dir p.spec.storage) in
    uses_sql_database || uses_file_with_empty_dir

unfoldable pub requires_stateful_set : Perses → Bool
requires_stateful_set p =
    is_some p.spec.config.database_file && not (is_some (storage_empty_dir p.spec.storage))
