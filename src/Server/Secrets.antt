-- ===== src/Server/Secrets.antt =====
-- Synchronising the secret of a datasource keeps what the reads of the cluster and the calls on
-- secrets keep.
use perses_operator.Prelude.{String, Option, none, some, arith, default}
use perses_operator.Act.Triple.{triple-bind, triple-pure}
use perses_operator.Api.{SecretSource, BasicAuth, OAuth, Certificate, Tls, Client}
use perses_operator.Secret.{
  Reader, source_namespace, get_basic_auth_data, get_oauth_data, get_tls_cert_data,
  has_secret_config,
}
use perses_operator.World.{Env, Project, PersesSecret, SecretTlsConfig}
use perses_operator.Sync.{Sync}
use perses_operator.Sync.Guarded.{triple-if}
use perses_operator.DatasourceSecret.{
  basic_auth_config, oauth_config, ca_config, user_cert_config, tls_config, when_set, build_secret,
  sync_secret,
}
use perses_operator.Datasources.{sync_client_secret}
use perses_operator.Server.Steps.{Stays, Keeping, Keeping-put_secret}

module _ {E : Type 0} (P : E → Type 0) (r : Reader E)
    (s : (ns n : String) → Stays P (r.get_secret ns n))
    (m : (ns n : String) → Stays P (r.get_config_map ns n)) where
  Stays-get_basic_auth_data :
      (ns name : String) (b : BasicAuth) → Stays P (get_basic_auth_data r ns name b)
  unfolding get_basic_auth_data
  Stays-get_basic_auth_data ns name b e h =
      let n = source_namespace b.source ns in
      let o = default "" b.source.name in ground (arith, s n o e h, m n o e h)

  Stays-get_oauth_data : (ns name : String) (b : OAuth) → Stays P (get_oauth_data r ns name b)
  unfolding get_oauth_data
  Stays-get_oauth_data ns name b e h =
      let n = source_namespace b.source ns in
      let o = default "" b.source.name in ground (arith, s n o e h, m n o e h)

  Stays-get_tls_cert_data :
      (ns name : String) (b : Certificate) → Stays P (get_tls_cert_data r ns name b)
  unfolding get_tls_cert_data
  Stays-get_tls_cert_data ns name b e h =
      let n = source_namespace b.source ns in
      let o = default "" b.source.name in ground (arith, s n o e h, m n o e h)

-- The calls that synchronising a secret makes keep `P`.
pub record SecretStays {E C : Type 0} (v : Env E C) (P : E → Type 0) : Type 0 where
  pub read_secret : (ns n : String) → Stays P (v.reader.get_secret ns n)
  pub read_config_map : (ns n : String) → Stays P (v.reader.get_config_map ns n)
  pub read_file : (path : String) → Stays P (v.read_file path)
  pub secret_get : (c : C) (p : Project) (n : String) → Stays P (v.secret_get c p n)
  pub secret_create : (c : C) (p : Project) (s : PersesSecret) → Stays P (v.secret_create c p s)
  pub secret_update : (c : C) (p : Project) (s : PersesSecret) → Stays P (v.secret_update c p s)

module _ {E C : Type 0} (v : Env E C) (P : E → Type 0) (l : SecretStays v P) (what name : String)
    (ns : SecretSource → String) where
  Keeping-basic_auth_config : (b : BasicAuth) → Keeping v P (basic_auth_config v what name ns b)
  unfolding basic_auth_config
  Keeping-basic_auth_config b = record {
    at = λ w h. ground (
      arith,
      Stays-get_basic_auth_data P v.reader l.read_secret l.read_config_map (ns b.source) name b
          w.env h,
    );
  }

  Keeping-oauth_config : (o : OAuth) → Keeping v P (oauth_config v what name ns o)
  unfolding oauth_config
  Keeping-oauth_config o = record {
    at = λ w h. ground (
      arith,
      Stays-get_oauth_data P v.reader l.read_secret l.read_config_map (ns o.source) name o w.env h,
      l.read_file (default "" o.client_id_path) w.env h,
    );
  }

  Keeping-ca_config :
      (o : Option Certificate) (t : SecretTlsConfig) → Keeping v P (ca_config v what name ns o t)
  unfolding ca_config
  Keeping-ca_config none t = triple-pure t
  Keeping-ca_config (some c) t = record {
    at = λ w h. ground (
      arith,
      Stays-get_tls_cert_data P v.reader l.read_secret l.read_config_map (ns c.source) name c w.env
          h,
    );
  }

  Keeping-user_cert_config :
      (o : Option Certificate) (t : SecretTlsConfig)
      → Keeping v P (user_cert_config v what name ns o t)
  unfolding user_cert_config
  Keeping-user_cert_config none t = triple-pure t
  Keeping-user_cert_config (some c) t = record {
    at = λ w h. ground (
      arith,
      Stays-get_tls_cert_data P v.reader l.read_secret l.read_config_map (ns c.source) name c w.env
          h,
    );
  }

  Keeping-tls_config : (t : Tls) → Keeping v P (tls_config v what name ns t)
  unfolding tls_config
  Keeping-tls_config t = triple-bind (Keeping-ca_config _ _) (λ c. Keeping-user_cert_config _ c)

  Keeping-when_set :
      {A B : Type 0} (f : A → Sync E B) (o : Option A)
      → ((a : A) → Keeping v P (f a))
      → Keeping v P (when_set v what name ns f o)
  Keeping-when_set f none k = triple-pure none
  Keeping-when_set f (some a) k = triple-bind (k a) (λ b. triple-pure (some b))

  Keeping-build_secret : (c : Client) → Keeping v P (build_secret v what name ns c)
  unfolding build_secret
  Keeping-build_secret c =
      triple-bind (Keeping-when_set _ c.basic_auth Keeping-basic_auth_config) λ _.
        triple-bind (Keeping-when_set _ c.oauth Keeping-oauth_config)
          λ _. triple-bind (Keeping-when_set _ c.tls Keeping-tls_config) λ _. triple-pure _

  pub Keeping-sync_secret :
      (c : C) (p : Project) (client : Client) → Keeping v P (sync_secret v what name ns c p client)
  unfolding sync_secret
  Keeping-sync_secret c p client = triple-bind (Keeping-build_secret client) λ s.
      Keeping-put_secret v P c p s what name ns (l.secret_get c p s.name) (l.secret_create c p s)
        (l.secret_update c p s)

module _ {E C : Type 0} (v : Env E C) (P : E → Type 0) where
  pub Keeping-sync_client_secret :
      (f : Client → Sync E Unit) (client : Option Client)
      → ((c : Client) → Keeping v P (f c))
      → Keeping v P (sync_client_secret v f client)
  Keeping-sync_client_secret f none t = triple-pure tt
  Keeping-sync_client_secret f (some c) t =
      triple-if (has_secret_config (some c)) (t c) (triple-pure tt)
