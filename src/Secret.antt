-- ===== src/Secret.antt =====
-- internal/perses/common/secret.go: the data that a source of secrets names, read from a Secret or a
-- ConfigMap of the cluster. `string(secret.Data[k])` and `cm.Data[k]` are "" at a missing key.
pub mod Access
use perses_operator.Prelude.{
  String, Bool, true, false, ◌&&◌, ◌||◌, Option, none, some, Dict, lookup, default, is_some, ◌==◌,
  ◌<>◌, if◌then◌else◌,
}
use perses_operator.Errors.{Error, plain}
use perses_operator.Act.{Act, Outcome, ok, fail, pure, halt, ◌>>=◌}
use perses_operator.Api.{
  SecretSourceType, secret_type, config_map_type, file_type, other_type, SecretSource, BasicAuth,
  OAuth, Certificate, Tls, Client,
}

abbrev pub secret_name_suffix : String
secret_name_suffix = "-secret"

abbrev tls_enabled : Option Tls → Bool
tls_enabled none = false
tls_enabled (some tls) = default false tls.enable

unfoldable pub has_secret_config : Option Client → Bool
has_secret_config none = false
has_secret_config (some c) = tls_enabled c.tls || (is_some c.basic_auth || is_some c.oauth)

-- `client.Reader`, at the two kinds that are read here: the `Data` of the object with a namespace
-- and a name.
pub record Reader (E : Type 0) : Type 0 where
  pub get_secret : String → String → Act E Error (Dict String)
  pub get_config_map : String → String → Act E Error (Dict String)

abbrev pub kind_text : SecretSourceType → String
kind_text secret_type = "secret"
kind_text config_map_type = "configmap"
kind_text file_type = "file"
kind_text (other_type s) = s

-- `data[key]`
unfoldable pub data_at : String → Dict String → String
data_at key m = default "" (lookup key m)

-- `if path != nil { v = data[*path] }`
unfoldable pub data_at_path : Option String → Dict String → String
unfolding data_at
data_at_path none m = ""
data_at_path (some key) m = data_at key m

-- The namespace of the source, or else that of the resource.
unfoldable pub source_namespace : SecretSource → String → String
source_namespace s namespace =
    let own = default "" s.namespace in if own == "" then namespace else own

-- A type that is read from the cluster, with the call that reads it.
unfoldable pub cluster_read :
    {E : Type 0}
    → Reader E
    → SecretSourceType
    → Option (String → String → Act E Error (Dict String))
cluster_read r secret_type = some r.get_secret
cluster_read r config_map_type = some r.get_config_map
cluster_read r file_type = none
cluster_read r (other_type _) = none

-- The steps that the three functions share: the name is required, the namespace is resolved, and
-- the object is read. `no_name` is the error of a missing name; `none` for a type that is not read.
unfoldable pub read_source :
    {E : Type 0} → Reader E → String → SecretSource → String → Act E Error (Option (Dict String))
unfolding cluster_read source_namespace
read_source r namespace s no_name = elim (cluster_read r s.kind) [
  | none ↦ pure none
  | some get ↦
      if default "" s.name == ""
      then halt (plain no_name)
      else do found ← get (source_namespace s namespace) (default "" s.name); pure (some found)
]

module _ {E : Type 0} (r : Reader E) (namespace name : String) where
  unfoldable pub get_basic_auth_data : BasicAuth → Act E Error String
  unfolding read_source data_at
  get_basic_auth_data b = do
    found ← read_source r namespace b.source (
        "no name found for basic auth: " <> b.username <> " with type: " <> kind_text b.source.kind)
    elim found [
      | none ↦ pure ""
      | some m ↦
          let password_data = data_at b.password_path m in
          if password_data == ""
          then halt (
              plain (
                "no password data found for basic auth: "
                <> b.password_path
                <> " in namespace: "
                <> source_namespace b.source namespace
                <> " for "
                <> name))
          else pure password_data
    ]

  unfoldable pub get_oauth_data : OAuth → Act E Error (String × String)
  unfolding read_source data_at_path
  get_oauth_data o = do
    found ← read_source r namespace o.source (
        "no name found for oauth: "
        <> default "" o.client_id_path
        <> " with type: "
        <> kind_text o.source.kind)
    elim found [
      | none ↦ pure ("", "")
      | some m ↦
          let id_data = data_at_path o.client_id_path m in
          let secret_data = data_at_path o.client_secret_path m in
          if id_data == ""
          then halt (
              plain (
                "no client id data found for oauth: "
                <> default "" o.client_id_path
                <> " in namespace: "
                <> source_namespace o.source namespace
                <> " for "
                <> name))
          else if secret_data == ""
          then halt (
              plain (
                "no client secret data found for oauth: "
                <> default "" o.client_secret_path
                <> " in namespace: "
                <> source_namespace o.source namespace
                <> " for "
                <> name))
          else pure (id_data, secret_data)
    ]

  unfoldable pub get_tls_cert_data : Certificate → Act E Error (String × String)
  unfolding read_source data_at data_at_path
  get_tls_cert_data c = do
    found ← read_source r namespace c.source (
        "no name found for tls certificate: "
        <> c.cert_path
        <> " with type: "
        <> kind_text c.source.kind)
    elim found [
      | none ↦ pure ("", "")
      | some m ↦
          let cert_data = data_at c.cert_path m in
          if cert_data == ""
          then halt (
              plain (
                "no data found for certificate: "
                <> c.cert_path
                <> " in namespace: "
                <> source_namespace c.source namespace
                <> " for "
                <> name))
          else pure (cert_data, data_at_path c.private_key_path m)
    ]
