-- ===== src/ClientFactory/Lookup.antt =====
-- What the cache returns, and what it holds after a client was stored or an instance forgotten.
use perses_operator.Prelude.{
  ℕ, ◌+◌, ◌<◌, ◌≡◌, ◌≢◌, ◌↔◌, refl, String, Option, none, some, lookup, lookup-remove, eq_iff,
  eq_refl, arith,
}
use perses_operator.ClientFactory.{ClientCacheEntry, Factory, cache_hit, hit_entry, forget_instance}

module _ {C : Type 0} (f : Factory C) (now : ℕ) (key fingerprint : String) where
  hit_needs :
      (c : C) (found : Option (ClientCacheEntry C))
      → lookup key f.cache ≡ found
      → hit_entry f.ttl now fingerprint found ≡ some c
      → (entry : ClientCacheEntry C) × (lookup key f.cache ≡ some entry)
        × (entry.client ≡ c)
        × (entry.fingerprint ≡ fingerprint)
        × (now < entry.created_at + f.ttl)
  hit_needs c none e h = cc
  hit_needs c (some entry) e h =
      let same = eq_iff entry.fingerprint fingerprint in
      (entry, e, ground (arith, same), ground (arith, same), ground (arith, same))

  hit_from :
      (c : C)
      → ((entry : ClientCacheEntry C) × (lookup key f.cache ≡ some entry)
          × (entry.client ≡ c)
          × (entry.fingerprint ≡ fingerprint)
          × (now < entry.created_at + f.ttl))
      → cache_hit now key fingerprint f ≡ some c
  unfolding cache_hit
  hit_from c (entry, found, same, made_for, young) =
      ground (arith, eq_iff entry.fingerprint fingerprint)

  -- A cached client is returned exactly when the entry of the instance holds it, was made for the
  -- same configuration, and is younger than the time to live.
  pub cache_hit_iff :
      (c : C)
      → (cache_hit now key fingerprint f ≡ some c) ↔ (
          (entry : ClientCacheEntry C) × (lookup key f.cache ≡ some entry)
          × (entry.client ≡ c)
          × (entry.fingerprint ≡ fingerprint)
          × (now < entry.created_at + f.ttl))
  unfolding cache_hit
  cache_hit_iff c = (hit_needs c (lookup key f.cache) refl, hit_from c)

module _ {C : Type 0} (f : Factory C) (key fingerprint : String) where
  -- After ForgetInstance no lookup of the instance is a hit, and every lookup of another instance
  -- has the result that it had before.
  pub cache_hit-forget_instance :
      (now : ℕ) (other : String)
      → key ≢ other
      → (cache_hit now key fingerprint (forget_instance key f) ≡ none)
        × (cache_hit now other fingerprint (forget_instance key f)
            ≡ cache_hit now other fingerprint f)
  unfolding cache_hit forget_instance
  cache_hit-forget_instance now other h = (
    ground (arith, lookup-remove key key f.cache, eq_refl key),
    ground (arith, lookup-remove key other f.cache, eq_iff key other),
  )
