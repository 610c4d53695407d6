-- ===== src/DatasourceSecret.antt =====
-- syncPersesSecret of controllers/datasources/datasource_controller.go and syncPersesGlobalSecret of
-- controllers/globaldatasources/globaldatasource_controller.go: the Perses secret of a datasource is
-- built from the sources that its client names, and created or updated. The two functions differ in
-- the collection that they write and in the namespace that a source without one is read from.
pub mod Build
use perses_operator.Prelude.{
  ℕ, String, Bool, true, false, not, Option, none, some, default, nat_eq, ◌==◌, ◌<>◌, if◌then◌else◌,
}
use perses_operator.Errors.{
  Error, plain, wrapped, reason_invalid_configuration, reason_backend_error, is_request_not_found,
}
use perses_operator.Act.{Act, Outcome, ok, fail, pure, halt, or_halt, attempt, ◌>>=◌, ◌>>◌}
use perses_operator.Api.{
  secret_type, config_map_type, file_type, other_type, SecretSource, BasicAuth, OAuth, Certificate,
  Tls, Client,
}
use perses_operator.Secret.{
  get_basic_auth_data, get_oauth_data, get_tls_cert_data, secret_name_suffix,
}
use perses_operator.World.{
  Env, World, Project, PersesSecret, SecretBasicAuth, SecretOAuth, SecretTlsConfig, get_secret,
  create_secret, update_secret, lift, invoke,
}
use perses_operator.Sync.{Failure, because, Sync}

-- `what` is the word for the kind in the messages, `ns` the namespace handed on for a source.
module _ {E C : Type 0} (v : Env E C) (what name : String) (ns : SecretSource → String) where
  invalid : {A : Type 0} → Act E Error A → Sync E A
  invalid m = or_halt (because reason_invalid_configuration) (lift m)

  unfoldable pub basic_auth_config : BasicAuth → Sync E SecretBasicAuth
  unfolding invalid
  basic_auth_config b =
      let from_cluster : Sync E SecretBasicAuth = (do
        password ← invalid (get_basic_auth_data v.reader (ns b.source) name b)
        pure (record { username = b.username; password = password; password_file = "" })) in
      elim b.source.kind [
        | secret_type ↦ from_cluster
        | config_map_type ↦ from_cluster
        | file_type ↦
            pure (record { username = b.username; password = ""; password_file = b.password_path })
        | other_type _ ↦ pure (record { username = b.username; password = ""; password_file = "" })
      ]

  abbrev oauth_base : OAuth → SecretOAuth
  oauth_base o = record {
    token_url = o.token_url;
    scopes = o.scopes;
    endpoint_params = o.endpoint_params;
    auth_style = default 0 o.auth_style;
    client_id = "";
    client_secret = "";
    client_secret_file = "";
  }

  unfoldable pub oauth_config : OAuth → Sync E SecretOAuth
  unfolding invalid
  oauth_config o =
      let from_cluster : Sync E SecretOAuth = (do
        found ← invalid (get_oauth_data v.reader (ns o.source) name o)
        pure (record (oauth_base o) { client_id = found.0; client_secret = found.1 })) in
      elim o.source.kind [
        | secret_type ↦ from_cluster
        | config_map_type ↦ from_cluster
        | file_type ↦ elim o.client_id_path [
          | none ↦ halt (
              because reason_invalid_configuration (
                plain
                  ("clientIDPath is required when OAuth type is File for " <> what <> " " <> name)))
          | some path ↦ do
            client_id ←
                or_halt
                  (λ err.
                    because reason_invalid_configuration
                      (wrapped ("failed to read the OAuth client ID file " <> path <> ": ") err))
                  (lift (v.read_file path))
            pure (record (oauth_base o) {
              client_id = client_id;
              client_secret_file = default "" o.client_secret_path;
            })
        ]
        | other_type _ ↦ pure (oauth_base o)
      ]

  -- `tls.CaCert`
  unfoldable pub ca_config : Option Certificate → SecretTlsConfig → Sync E SecretTlsConfig
  unfolding invalid
  ca_config none t = pure t
  ca_config (some cert) t =
      let from_cluster : Sync E SecretTlsConfig = (do
        found ← invalid (get_tls_cert_data v.reader (ns cert.source) name cert)
        pure (record t { ca = found.0 })) in
      elim cert.source.kind [
        | secret_type ↦ from_cluster
        | config_map_type ↦ from_cluster
        | file_type ↦ pure (record t { ca_file = cert.cert_path })
        | other_type _ ↦ pure t
      ]

  -- `tls.UserCert`
  unfoldable pub user_cert_config : Option Certificate → SecretTlsConfig → Sync E SecretTlsConfig
  unfolding invalid
  user_cert_config none t = pure t
  user_cert_config (some cert) t =
      let from_cluster : Sync E SecretTlsConfig = (do
        found ← invalid (get_tls_cert_data v.reader (ns cert.source) name cert)
        pure (record t { cert = found.0; key = found.1 })) in
      elim cert.source.kind [
        | secret_type ↦ from_cluster
        | config_map_type ↦ from_cluster
        | file_type ↦
            pure
              (record t { cert_file = cert.cert_path; key_file = default "" cert.private_key_path })
        | other_type _ ↦ pure t
      ]

  unfoldable pub tls_config : Tls → Sync E SecretTlsConfig
  tls_config tls = do
    t ← ca_config tls.ca_cert (record {
      insecure_skip_verify = default false tls.insecure_skip_verify;
      ca = "";
      ca_file = "";
      cert = "";
      cert_file = "";
      key = "";
      key_file = "";
    })
    user_cert_config tls.user_cert t

  -- `if x != nil { ... }`
  abbrev pub when_set : {A B : Type 0} → (A → Sync E B) → Option A → Sync E (Option B)
  when_set f none = pure none
  when_set f (some a) = do b ← f a; pure (some b)

  -- `secretWithName`
  unfoldable pub build_secret : Client → Sync E PersesSecret
  build_secret client = do
    basic_auth ← when_set basic_auth_config client.basic_auth
    oauth ← when_set oauth_config client.oauth
    tls ← when_set tls_config client.tls
    pure (record {
      name = name <> secret_name_suffix;
      basic_auth = basic_auth;
      oauth = oauth;
      tls_config = tls;
    })

  -- The secret is created where it is missing, and updated otherwise.
  unfoldable pub put_secret : C → Project → PersesSecret → Sync E Unit
  put_secret c p s = do
    got ← attempt (invoke (get_secret p s.name) (v.secret_get c p s.name))
    elim got [
      | ok _ ↦
          or_halt (because reason_backend_error)
            (invoke (update_secret p s) (v.secret_update c p s))
      | fail err ↦
          if is_request_not_found err
          then or_halt (because reason_backend_error)
              (invoke (create_secret p s) (v.secret_create c p s))
          else halt (because reason_backend_error err)
    ]

  unfoldable pub sync_secret : C → Project → Client → Sync E Unit
  sync_secret c p client = do s ← build_secret client; put_secret c p s
