-- ===== src/Secret/Access.antt =====
-- What the three readers of secret.go return when they succeed on a source in the cluster.
use perses_operator.Prelude.{◌≡◌, ◌≢◌, ◌↔◌, String, some, Dict, default, arith, eq_iff}
use perses_operator.Errors.{Error}
use perses_operator.Act.{Act, ok}
use perses_operator.Api.{SecretSource, BasicAuth, OAuth, Certificate}
use perses_operator.Secret.{
  Reader, source_namespace, data_at, data_at_path, cluster_read, read_source, get_basic_auth_data,
  get_oauth_data, get_tls_cert_data,
}

module _ {E : Type 0} (r : Reader E) (namespace name : String) (e e' : E)
    (get : String → String → Act E Error (Dict String)) (m : Dict String) where
  -- The source is of a kind that `get` reads, it has a name, and `m` is the data of the object with
  -- this name in the namespace of the source, or else in that of the resource.
  abbrev pub IsRead : SecretSource → Type 0
  IsRead s =
      (cluster_read r s.kind ≡ some get)
      × (default "" s.name ≢ "")
      × (get (source_namespace s namespace) (default "" s.name) e ≡ (ok m, e'))

  -- On a Secret or a ConfigMap that was read, GetBasicAuthData succeeds with a password exactly when
  -- this is what the object has at the password's path, and not empty.
  pub get_basic_auth_data_iff :
      (b : BasicAuth) (password : String)
      → IsRead b.source
      → (get_basic_auth_data r namespace name b e ≡ (ok password, e'))
        ↔ ((password ≡ data_at b.password_path m) × (password ≢ ""))
  unfolding get_basic_auth_data read_source
  get_basic_auth_data_iff b password (kind, named, read) =
      let same = eq_iff (data_at b.password_path m) "" in
      let unnamed = eq_iff (default "" b.source.name) "" in
      (
        λ h. ground (arith, kind, named, read, same, unnamed, h),
        λ h. ground (arith, kind, named, read, same, unnamed, h),
      )

  -- On a Secret or a ConfigMap that was read, GetOAuthData succeeds with an ID and a secret exactly
  -- when these are what the object has at the two paths, and neither is empty: a path that is not
  -- set makes it fail.
  pub get_oauth_data_iff :
      (o : OAuth) (id secret : String)
      → IsRead o.source
      → (get_oauth_data r namespace name o e ≡ (ok (id, secret), e')) ↔ (
          (id ≡ data_at_path o.client_id_path m)
          × (secret ≡ data_at_path o.client_secret_path m)
          × (id ≢ "")
          × (secret ≢ ""))
  unfolding get_oauth_data read_source
  get_oauth_data_iff o id secret (kind, named, read) =
      let no_id = eq_iff (data_at_path o.client_id_path m) "" in
      let no_secret = eq_iff (data_at_path o.client_secret_path m) "" in
      let unnamed = eq_iff (default "" o.source.name) "" in
      (
        λ h. ground (arith, kind, named, read, no_id, no_secret, unnamed, h),
        λ h. ground (arith, kind, named, read, no_id, no_secret, unnamed, h),
      )

  -- On a Secret or a ConfigMap that was read, GetTLSCertData succeeds with a certificate and a key
  -- exactly when these are what the object has at the two paths and the certificate is not empty;
  -- the key may be empty, as it is when its path is not set.
  pub get_tls_cert_data_iff :
      (c : Certificate) (cert key : String)
      → IsRead c.source
      → (get_tls_cert_data r namespace name c e ≡ (ok (cert, key), e'))
        ↔ ((cert ≡ data_at c.cert_path m) × (key ≡ data_at_path c.private_key_path m) × (cert ≢ ""))
  unfolding get_tls_cert_data read_source
  get_tls_cert_data_iff c cert key (kind, named, read) =
      let no_cert = eq_iff (data_at c.cert_path m) "" in
      let unnamed = eq_iff (default "" c.source.name) "" in
      (
        λ h. ground (arith, kind, named, read, no_cert, unnamed, h),
        λ h. ground (arith, kind, named, read, no_cert, unnamed, h),
      )
