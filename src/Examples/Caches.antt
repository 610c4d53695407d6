-- ===== src/Examples/Caches.antt =====
-- A cache with the clients 1 and 2 of two instances, stored one after the other.
use perses_operator.Prelude.{
  ℕ, ◌+◌, ◌≤◌, ◌<◌, ◌≡◌, ◌≢◌, refl, String, none, some, [], ◌∷◌, lookup, arith, eq_iff,
}
use perses_operator.ClientFactory.{
  Factory, new_with_config, cache_hit, forget_instance, store_client, sweep_expired_locked,
  default_client_cache_ttl,
}
use perses_operator.Errors.{Error}
use perses_operator.Act.{Act, ok}
use perses_operator.Api.Instance.{Perses}
use perses_operator.ClientFactory.Create.{
  instance_key, config_fingerprint, create_client, create_client-again,
}
use perses_operator.Examples.{perses_main}
use perses_operator.ClientFactory.Sweep.{IsMap, cache_hit-sweep_expired_locked}
use perses_operator.ClientFactory.Store.{cache_hit-store_client}
use perses_operator.ClientFactory.Interleaving.{IsFresh, IsSound, store, forget, Reach, here, next}
use perses_operator.ClientFactory.Interleaving.Sound.{Reach-IsSound}

abbrev pub two_clients : Factory ℕ
two_clients = record {
  cache =
      ("a/main", record { client = 1; fingerprint = "x"; created_at = 100 })
      ∷ ("b/main", record { client = 2; fingerprint = "y"; created_at = 900 })
      ∷ [];
  ttl = 1000;
  last_sweep = none;
  closed = [];
}

pub ne_keys : (λ (s : String). s ≢ "b/main") "a/main"
ne_keys h = ground (arith, eq_iff "a/main" "b/main", h)

-- Each key stands once.
two_clients-IsMap : IsMap two_clients.cache
unfolding lookup
two_clients-IsMap = (refl, (refl, tt))

cache_hit-sweep_expired_locked_example :
    cache_hit 1100 "b/main" "y" (sweep_expired_locked 1100 two_clients)
    ≡ cache_hit 1100 "b/main" "y" two_clients
cache_hit-sweep_expired_locked_example =
    cache_hit-sweep_expired_locked 1100 1100 (omega arith) "b/main" "y" two_clients
      two_clients-IsMap

expired_miss : cache_hit 1100 "a/main" "x" two_clients ≡ none
unfolding cache_hit lookup
expired_miss = refl

cache_hit-store_client_example :
    let (c, f') = store_client 1100 1101 1102 "a/main" "x" 3 two_clients in
    (c ≡ 3)
    × (cache_hit 1500 "a/main" "x" f' ≡ some 3)
    × (cache_hit 1500 "b/main" "y" f' ≡ cache_hit 1500 "b/main" "y" two_clients)
cache_hit-store_client_example =
    cache_hit-store_client 1100 1101 1102 "a/main" "x" 3 two_clients 1500 "b/main" "y"
      two_clients-IsMap expired_miss (omega arith) (omega arith) ne_keys

abbrev first_client : ℕ
first_client = 7

first-IsFresh : IsFresh first_client new_with_config
unfolding lookup
first-IsFresh = record { uncached = λ k e h. absurd (cc h); unclosed = tt }

abbrev stored_and_forgotten : Factory ℕ
stored_and_forgotten =
    forget_instance "b/main" (store_client 5 6 7 "a/main" "x" first_client new_with_config).1

reached : Reach new_with_config stored_and_forgotten
reached =
    next (next here (store new_with_config 5 6 7 "a/main" "x" first_client first-IsFresh))
      (forget _ "b/main")

Reach-IsSound_example : IsSound stored_and_forgotten
Reach-IsSound_example = Reach-IsSound reached

abbrev build_nine : Perses → Act Unit Error ℕ
build_nine p e = (ok 9, e)

abbrev no_show : ℕ → String
no_show n = "1"

empty_miss :
    (now : ℕ)
    → cache_hit now
        (instance_key no_show none perses_main)
        (config_fingerprint no_show none perses_main)
        (new_with_config {C = ℕ})
      ≡ none
unfolding cache_hit lookup
empty_miss now = refl

create_client-again_example :
    let (r, f', _) =
      create_client no_show none build_nine 10 11 12 13 perses_main new_with_config tt in
    (r ≡ ok 9)
    × ((later recheck' created' swept' : ℕ) (e'' : Unit)
        → 13 ≤ later
        → later < 12 + default_client_cache_ttl
        → create_client no_show none build_nine later recheck' created' swept' perses_main f' e''
          ≡ (ok 9, f', e''))
create_client-again_example =
    create_client-again no_show none build_nine 10 11 12 13 perses_main new_with_config tt tt 9 tt
      (empty_miss 10) (empty_miss 11) refl
