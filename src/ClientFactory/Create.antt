-- ===== src/ClientFactory/Create.antt =====
-- configFingerprint and CreateClient, run by one controller while no other changes the factory.
-- `show` prints a number (`%d`), `source_type` a kind of source, and `server_url` is the value of
-- the server-URL flag, where it is defined. `build` is buildClient: what it does is not modelled.
use perses_operator.Prelude.{
  ℕ, ◌+◌, ◌≤◌, ◌<◌, ◌≡◌, ap, String, Bool, true, false, Option, none, some, default, ◌<>◌,
}
use perses_operator.Errors.{Error}
use perses_operator.Act.{Act, Outcome, ok, fail}
use perses_operator.Api.{OAuth}
use perses_operator.Api.Instance.{
  Perses, is_tls_enabled, is_kubernetes_auth_enabled, is_client_tls_enabled, client_oauth,
}
use perses_operator.Secret.{kind_text}
use perses_operator.ClientFactory.{Factory, cache_hit, store_client}
use perses_operator.ClientFactory.Sweep.{IsMap}
use perses_operator.ClientFactory.Store.{stored_hit, store_client-miss}

module _ (show : ℕ → String) (server_url : Option String) where
  -- `%v` of a bool
  abbrev show_bool : Bool → String
  show_bool true = "true"
  show_bool false = "false"

  port_text : Option ℕ → String
  port_text none = ""
  port_text (some port) = "port=" <> show port <> ","

  oauth_text : Option OAuth → String
  oauth_text none = ""
  oauth_text (some oauth) =
      "oauth=type:"
      <> kind_text oauth.source.kind
      <> ",name:"
      <> default "" oauth.source.name
      <> ",ns:"
      <> default "" oauth.source.namespace
      <> ",tokenURL:"
      <> oauth.token_url
      <> ",idPath:"
      <> default "" oauth.client_id_path
      <> ","

  server_url_text : String
  server_url_text = elim server_url [ none ↦ "" | some url ↦ "serverURL=" <> url <> "," ]

  -- configFingerprint
  unfoldable pub config_fingerprint : Perses → String
  unfolding port_text oauth_text server_url_text
  config_fingerprint perses =
      "ns="
      <> perses.namespace
      <> ",name="
      <> perses.name
      <> ",gen="
      <> show perses.generation
      <> ","
      <> port_text perses.spec.container_port
      <> "apiPrefix="
      <> perses.spec.config.api_prefix
      <> ","
      <> "tls="
      <> show_bool (is_tls_enabled perses)
      <> ","
      <> "k8sAuth="
      <> show_bool (is_kubernetes_auth_enabled perses)
      <> ","
      <> "clientTLS="
      <> show_bool (is_client_tls_enabled perses)
      <> ","
      <> oauth_text (client_oauth perses.spec.client)
      <> server_url_text

  abbrev pub instance_key : Perses → String
  instance_key perses = perses.namespace <> "/" <> perses.name

  module _ {E C : Type 0} (build : Perses → Act E Error C) where
    -- The client that was built is stored; an error is returned with the cache as it was.
    abbrev store_built :
        ℕ → ℕ → ℕ → Perses → Outcome Error C → Factory C → E → Outcome Error C × Factory C × E
    store_built recheck created swept perses (fail err) f e = (fail err, f, e)
    store_built recheck created swept perses (ok c) f e =
        let (c', f') =
          store_client recheck created swept (instance_key perses) (config_fingerprint perses) c
            f in
        (ok c', f', e)

    -- CreateClient. `now`, `recheck`, `created` and `swept` are its readings of the clock.
    unfoldable pub create_client :
        ℕ → ℕ → ℕ → ℕ → Perses → Factory C → E → Outcome Error C × Factory C × E
    create_client now recheck created swept perses f e =
        elim (cache_hit now (instance_key perses) (config_fingerprint perses) f) [
          | some cached ↦ (ok cached, f, e)
          | none ↦ let (r, e') = build perses e in store_built recheck created swept perses r f e'
        ]

    create_client-hit :
        (now recheck created swept : ℕ) (perses : Perses) (f : Factory C) (e : E) (c : C)
        → cache_hit now (instance_key perses) (config_fingerprint perses) f ≡ some c
        → create_client now recheck created swept perses f e ≡ (ok c, f, e)
    unfolding create_client
    create_client-hit now recheck created swept perses f e c hit = rw (hit, create_client)

    create_client-built :
        (now recheck created swept : ℕ) (perses : Perses) (f : Factory C) (e e' : E) (c : C)
        → cache_hit now (instance_key perses) (config_fingerprint perses) f ≡ none
        → build perses e ≡ (ok c, e')
        → create_client now recheck created swept perses f e ≡ (
          ok
              (store_client recheck created swept
                (instance_key perses)
                (config_fingerprint perses)
                c
                f).0,
          (store_client recheck created swept
              (instance_key perses)
              (config_fingerprint perses)
              c
              f).1,
          e',
        )
    unfolding create_client
    create_client-built now recheck created swept perses f e e' c miss built =
        rw (miss, built, create_client)

    -- On a cache that holds each key once: an instance that has no client in the cache gets the
    -- client that is built for it, and until this client's time to live has passed every further
    -- call of CreateClient for the same instance and configuration returns that very client,
    -- builds none, and leaves the cache as it is.
    pub create_client-again :
        (now recheck created swept : ℕ) (perses : Perses) (f : Factory C) (e e' : E) (c : C)
        → IsMap f.cache
        → cache_hit now (instance_key perses) (config_fingerprint perses) f ≡ none
        → cache_hit recheck (instance_key perses) (config_fingerprint perses) f ≡ none
        → build perses e ≡ (ok c, e')
        → let (r, f', _) = create_client now recheck created swept perses f e in
          (r ≡ ok c)
          × ((later recheck' created' swept' : ℕ) (e'' : E)
              → swept ≤ later
              → later < created + f.ttl
              → create_client later recheck' created' swept' perses f' e'' ≡ (ok c, f', e''))
    create_client-again now recheck created swept perses f e e' c m miss miss' built =
        let key = instance_key perses in
        let print = config_fingerprint perses in
        let hit = λ (later : ℕ). stored_hit recheck created swept key print c f later m miss' in
        rw (create_client-built now recheck created swept perses f e e' c miss built) (
          ap ok (ap (λ x. x.0) (store_client-miss recheck created swept key print c f miss')),
          λ later recheck' created' swept' e'' after young.
              create_client-hit later recheck' created' swept' perses _ e'' c
                (hit later after young).1,
        )
