-- ===== src/DatasourceSecret/Build.antt =====
-- Building the secret of a datasource reads the cluster and files, and calls no Perses server.
use perses_operator.Prelude.{String, Option, none, some, arith}
use perses_operator.Api.{SecretSource, BasicAuth, OAuth, Certificate, Tls, Client}
use perses_operator.World.{Env}
use perses_operator.Sync.{Sync}
use perses_operator.Sync.Quiet.{IsQuiet, IsQuiet-bind, quiet_rules}
use perses_operator.DatasourceSecret.{
  basic_auth_config, oauth_config, ca_config, user_cert_config, tls_config, when_set, build_secret,
}

module _ {E C : Type 0} (v : Env E C) (what name : String) (ns : SecretSource → String) where
  basic_auth_config-IsQuiet : (b : BasicAuth) → IsQuiet (basic_auth_config v what name ns b)
  unfolding basic_auth_config
  basic_auth_config-IsQuiet b = record { same_calls = λ w. ground arith }

  oauth_config-IsQuiet : (o : OAuth) → IsQuiet (oauth_config v what name ns o)
  unfolding oauth_config
  oauth_config-IsQuiet o = record { same_calls = λ w. ground arith }

  ca_config-IsQuiet : (o : Option Certificate) (t : _) → IsQuiet (ca_config v what name ns o t)
  unfolding ca_config
  ca_config-IsQuiet o t = record { same_calls = λ w. ground arith }

  user_cert_config-IsQuiet :
      (o : Option Certificate) (t : _) → IsQuiet (user_cert_config v what name ns o t)
  unfolding user_cert_config
  user_cert_config-IsQuiet o t = record { same_calls = λ w. ground arith }

  tls_config-IsQuiet : (t : Tls) → IsQuiet (tls_config v what name ns t)
  unfolding tls_config
  tls_config-IsQuiet t =
      IsQuiet-bind _ _ (ca_config-IsQuiet _ _) (λ t'. user_cert_config-IsQuiet _ t')

  when_set-IsQuiet :
      {A B : Type 0} (f : A → Sync E B) (o : Option A)
      → ((a : A) → IsQuiet (f a))
      → IsQuiet (when_set v what name ns f o)
  when_set-IsQuiet f none k = search quiet_rules
  when_set-IsQuiet f (some a) k = search (quiet_rules, k)

  pub build_secret-IsQuiet : (c : Client) → IsQuiet (build_secret v what name ns c)
  unfolding build_secret
  build_secret-IsQuiet c = search (
    quiet_rules, when_set-IsQuiet, basic_auth_config-IsQuiet, oauth_config-IsQuiet,
    tls_config-IsQuiet,
  )
