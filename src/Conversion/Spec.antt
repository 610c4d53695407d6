-- ===== src/Conversion/Spec.antt =====
-- The conversion of a Perses resource and of a datasource: api/v1alpha1/perses_conversion.go,
-- persesdatasource_conversion.go and zz_generated.conversion.go. The names here are those of the
-- version v1alpha1; `Api` and `Instance` have those of v1alpha2.
use perses_operator.Prelude.{
  ℕ, String, not, ◌&&◌, Option, none, some, List, [], Dict, is_some, default, if◌then◌else◌,
}
use perses_operator.Api
use perses_operator.Api.{Opaque, Condition}
use perses_operator.Api.Instance
use perses_operator.Api.Instance.{PodMetadata, PersesConfig, Probe, PersistentVolumeClaimSpec}
use perses_operator.Conversion.{
  Pointers, Client, Tls, convert_some, client_to, client_from, tls_to, tls_from,
}

pub record PersesService : Type 0 where
  pub name : String
  pub annotations : Option (Dict String)

pub record StorageConfiguration : Type 0 where
  pub storage_class : Option String
  pub size : String

-- `Metadata` and `PersesConfig` have the same fields in both versions.
pub record PersesSpec : Type 0 where
  pub metadata : Option PodMetadata
  pub client : Option Client
  pub config : PersesConfig
  pub args : List String
  pub container_port : ℕ
  pub replicas : Option ℕ
  pub node_selector : Dict String
  pub tolerations : List Opaque
  pub affinity : Option Opaque
  pub image : String
  pub service : Option PersesService
  pub liveness_probe : Option Probe
  pub readiness_probe : Option Probe
  pub tls : Option Tls
  pub storage : Option StorageConfiguration
  pub service_account_name : String

-- `PersesDatasource.Spec`: the plugin's specification and the client.
pub record DatasourceSpec : Type 0 where
  pub config : Opaque
  pub client : Option Client

-- `v1alpha2.DatasourceSpec`
pub record HubDatasourceSpec : Type 0 where
  pub config : Opaque
  pub client : Option Api.Client
  pub instance_selector : Option Opaque

module _ (c : Pointers) where
  unfoldable pub service_to : PersesService → Instance.PersesService
  service_to i = record { name = c.string_to_pointer i.name; annotations = i.annotations }

  unfoldable pub service_from : Instance.PersesService → PersesService
  service_from i = record { name = c.pointer_to_string i.name; annotations = i.annotations }

  abbrev pub empty_storage : Instance.StorageConfiguration
  empty_storage = record { empty_dir = none; persistent_volume_claim_template = none }

  abbrev storage_template : StorageConfiguration → PersistentVolumeClaimSpec
  storage_template i = record {
    access_modes = none;
    storage_class_name = i.storage_class;
    storage_request = if c.is_zero i.size then none else some i.size;
    other = none;
  }

  unfoldable pub storage_to : StorageConfiguration → Instance.StorageConfiguration
  storage_to i =
      if not (is_some i.storage_class) && c.is_zero i.size
      then empty_storage
      else record { empty_dir = none; persistent_volume_claim_template = some (storage_template i) }

  abbrev from_template : Option PersistentVolumeClaimSpec → StorageConfiguration
  from_template none = record { storage_class = none; size = c.zero_quantity }
  from_template (some t) = record {
    storage_class = t.storage_class_name;
    size = default c.zero_quantity t.storage_request;
  }

  unfoldable pub storage_from : Instance.StorageConfiguration → StorageConfiguration
  storage_from i = from_template i.persistent_volume_claim_template

  unfoldable pub perses_spec_to : PersesSpec → Instance.PersesSpec
  perses_spec_to i = record {
    metadata = i.metadata;
    client = convert_some (client_to c) i.client;
    config = i.config;
    args = i.args;
    container_port = c.int32_to_pointer i.container_port;
    replicas = i.replicas;
    resources = none;
    node_selector = i.node_selector;
    tolerations = i.tolerations;
    affinity = i.affinity;
    priority_class_name = none;
    image = c.string_to_pointer i.image;
    service = convert_some service_to i.service;
    liveness_probe = i.liveness_probe;
    readiness_probe = i.readiness_probe;
    tls = convert_some (tls_to c) i.tls;
    storage = convert_some storage_to i.storage;
    service_account_name = c.string_to_pointer i.service_account_name;
    pod_security_context = none;
    container_security_context = none;
    log_level = none;
    log_method_trace = none;
    provisioning = none;
    volumes = [];
    volume_mounts = [];
    env = [];
    env_from = [];
  }

  unfoldable pub perses_spec_from : Instance.PersesSpec → PersesSpec
  perses_spec_from i = record {
    metadata = i.metadata;
    client = convert_some (client_from c) i.client;
    config = i.config;
    args = i.args;
    container_port = c.pointer_to_int32 i.container_port;
    replicas = i.replicas;
    node_selector = i.node_selector;
    tolerations = i.tolerations;
    affinity = i.affinity;
    image = c.pointer_to_string i.image;
    service = convert_some service_from i.service;
    liveness_probe = i.liveness_probe;
    readiness_probe = i.readiness_probe;
    tls = convert_some (tls_from c) i.tls;
    storage = convert_some storage_from i.storage;
    service_account_name = c.pointer_to_string i.service_account_name;
  }

  unfoldable pub datasource_spec_to : DatasourceSpec → HubDatasourceSpec
  datasource_spec_to i = record {
    config = i.config;
    client = convert_some (client_to c) i.client;
    instance_selector = none;
  }

  -- The manual conversion, into an empty resource: only the configuration is copied.
  unfoldable pub datasource_spec_from : HubDatasourceSpec → DatasourceSpec
  datasource_spec_from i = record { config = i.config; client = none }
