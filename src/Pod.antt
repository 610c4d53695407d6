-- ===== src/Pod.antt =====
-- What the operator builds the pods of a Perses instance from: the functions of
-- internal/perses/common in volumes.go, labels.go, probes.go, perses_args.go and security.go.
pub mod Labels
pub mod Volumes
pub mod Args
use perses_operator.Prelude.{ℕ, String, ◌<>◌}

-- constants.go
abbrev pub config_mount_path : String
config_mount_path = "/etc/perses/config"

abbrev pub default_config_path : String
default_config_path = config_mount_path <> "/config.yaml"

abbrev pub tls_cert_mount_path : String
tls_cert_mount_path = "/tls"

abbrev pub default_file_mode : ℕ
default_file_mode = 420

abbrev pub default_container_port : ℕ
default_container_port = 8080

-- GetConfigName and GetStorageName
abbrev pub get_config_name : String → String
get_config_name instance_name = instance_name <> "-config"

abbrev pub get_storage_name : String → String
get_storage_name instance_name = instance_name <> "-storage"
