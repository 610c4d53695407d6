-- ===== src/ClientFactory/Sweep.antt =====
-- What a sweep of the cache keeps, on a cache that holds each key once.
use perses_operator.Prelude.{
  ℕ, ◌≤◌, ◌≡◌, refl, String, Option, none, some, [], ◌∷◌, Dict, lookup, insert, remove,
  lookup-remove, eq_iff, eq_refl, arith, Bool-cases, inl, inr, if◌then◌else◌, ◌==◌,
}
use perses_operator.ClientFactory.{
  ClientCacheEntry, Factory, is_expired, unexpired, sweep_expired_locked, hit_entry, cache_hit,
}

-- No key stands twice.
abbrev pub IsMap : {V : Type 0} → Dict V → Type 0
IsMap [] = Unit
IsMap ((k, v) ∷ m) = (lookup k m ≡ none) × IsMap m

module _ {V : Type 0} where
  pub remove-IsMap : (k : String) (m : Dict V) → IsMap m → IsMap (remove k m)
  unfolding remove
  remove-IsMap k [] h = tt
  remove-IsMap k ((j, v) ∷ m) h = elim (Bool-cases (j == k)) [
    | inl same ↦ rw same (remove-IsMap k m h.1)
    | inr other ↦ rw other (ground (arith, lookup-remove k j m, h.0), remove-IsMap k m h.1)
  ]

  pub insert-IsMap : (k : String) (v : V) (m : Dict V) → IsMap m → IsMap (insert k v m)
  unfolding insert
  insert-IsMap k v m h = (ground (arith, lookup-remove k k m, eq_refl k), remove-IsMap k m h)

module _ {C : Type 0} (ttl now : ℕ) where
  -- What a sweep leaves of the entry found at a key.
  abbrev pub left : Option (ClientCacheEntry C) → Option (ClientCacheEntry C)
  left none = none
  left (some e) = if is_expired ttl now e then none else some e

  pub lookup-unexpired :
      (k : String) (m : Dict (ClientCacheEntry C))
      → IsMap m
      → lookup k (unexpired ttl now m) ≡ left (lookup k m)
  unfolding lookup unexpired
  lookup-unexpired k [] h = refl
  lookup-unexpired k ((j, e) ∷ m) h = ground (arith, lookup-unexpired k m h.1, eq_iff j k, h.0)

module _ {C : Type 0} (now now' : ℕ) (later : now ≤ now') (key fingerprint : String) where
  hit-left :
      (ttl : ℕ) (found : Option (ClientCacheEntry C))
      → hit_entry ttl now' fingerprint (left ttl now found) ≡ hit_entry ttl now' fingerprint found
  hit-left ttl none = refl
  hit-left ttl (some e) = ground arith

  -- On a cache that holds each key once, a sweep is never seen by a lookup: at the time of the
  -- sweep or later, a lookup is a hit after it exactly when it would have been one without it,
  -- with the same client.
  pub cache_hit-sweep_expired_locked :
      (f : Factory C)
      → IsMap f.cache
      → cache_hit now' key fingerprint (sweep_expired_locked now f)
        ≡ cache_hit now' key fingerprint f
  unfolding cache_hit sweep_expired_locked
  cache_hit-sweep_expired_locked f m =
      ground (arith, lookup-unexpired f.ttl now key f.cache m, hit-left f.ttl (lookup key f.cache))

module _ {C : Type 0} (ttl now : ℕ) where
  pub unexpired-IsMap : (m : Dict (ClientCacheEntry C)) → IsMap m → IsMap (unexpired ttl now m)
  unfolding unexpired
  unexpired-IsMap [] h = tt
  unexpired-IsMap ((j, e) ∷ m) h = elim (Bool-cases (is_expired ttl now e)) [
    | inl old ↦ rw old (unexpired-IsMap m h.1)
    | inr young ↦
        rw young (ground (arith, lookup-unexpired ttl now j m h.1, h.0), unexpired-IsMap m h.1)
  ]
