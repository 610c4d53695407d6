-- ===== src/ClientFactory/Store.antt =====
-- What CreateClient leaves in the cache.
use perses_operator.Prelude.{
  ℕ, ◌+◌, ◌≤◌, ◌<◌, ◌≡◌, ◌≢◌, refl, ◌∙◌, String, none, some, lookup, insert, lookup-insert, eq_iff,
  eq_refl, arith,
}
use perses_operator.ClientFactory.{
  Factory, cache_hit, store_client, sweep_expired_locked, close_entry,
}
use perses_operator.ClientFactory.Sweep.{IsMap, insert-IsMap, cache_hit-sweep_expired_locked}

module _ {C : Type 0} (recheck created swept : ℕ) (key fingerprint : String) (client : C)
    (f : Factory C) where
  -- The cache with the new entry, before the sweep.
  abbrev pub with_entry : Factory C
  with_entry = record f {
    cache =
        insert key (record { client = client; fingerprint = fingerprint; created_at = created })
          f.cache;
    closed = close_entry (lookup key f.cache) f.closed;
  }

  pub store_client-miss :
      cache_hit recheck key fingerprint f ≡ none
      → store_client recheck created swept key fingerprint client f
        ≡ (client, sweep_expired_locked swept with_entry)
  unfolding store_client
  store_client-miss h = rw (h, store_client)

  pub store_client-hit :
      (cached : C)
      → cache_hit recheck key fingerprint f ≡ some cached
      → store_client recheck created swept key fingerprint client f ≡ (cached, f)
  unfolding store_client
  store_client-hit cached h = rw (h, store_client)

  hit_with_entry :
      (now : ℕ) → now < created + f.ttl → cache_hit now key fingerprint with_entry ≡ some client
  unfolding cache_hit
  hit_with_entry now young = ground (
    arith,
    eq_refl key,
    eq_refl fingerprint,
    lookup-insert key key
        (record { client = client; fingerprint = fingerprint; created_at = created }) f.cache,
  )

  hit_other :
      (now : ℕ) (other print : String)
      → key ≢ other
      → cache_hit now other print with_entry ≡ cache_hit now other print f
  unfolding cache_hit
  hit_other now other print ne = ground (
    arith,
    eq_iff key other,
    lookup-insert key other
        (record { client = client; fingerprint = fingerprint; created_at = created }) f.cache,
  )

  pub stored_hit :
      (now : ℕ)
      → IsMap f.cache
      → cache_hit recheck key fingerprint f ≡ none
      → swept ≤ now
      → now < created + f.ttl
      → let (c, f') = store_client recheck created swept key fingerprint client f in
        (c ≡ client) × (cache_hit now key fingerprint f' ≡ some client)
  stored_hit now m miss later young = rw (store_client-miss miss) (
    refl,
    cache_hit-sweep_expired_locked swept now later key fingerprint with_entry
          (insert-IsMap key _ f.cache m)
        ∙ hit_with_entry now young,
  )

  -- On a cache that holds each key once: where no client is cached for the instance and its
  -- configuration, CreateClient returns the client that it built; from then on until the time to
  -- live has passed the cache returns this client for them, and for every other instance what it
  -- returned before.
  pub cache_hit-store_client :
      (now : ℕ) (other print : String)
      → IsMap f.cache
      → cache_hit recheck key fingerprint f ≡ none
      → swept ≤ now
      → now < created + f.ttl
      → key ≢ other
      → let (c, f') = store_client recheck created swept key fingerprint client f in
        (c ≡ client)
        × (cache_hit now key fingerprint f' ≡ some client)
        × (cache_hit now other print f' ≡ cache_hit now other print f)
  cache_hit-store_client now other print m miss later young ne =
      let same = λ (k p : String).
        cache_hit-sweep_expired_locked swept now later k p with_entry
          (insert-IsMap key _ f.cache m) in
      rw (store_client-miss miss) (
        refl,
        same key fingerprint ∙ hit_with_entry now young,
        same other print ∙ hit_other now other print ne,
      )
