-- ===== src/ClientFactory.antt =====
-- internal/perses/common/perses_client_factory.go: the clients of the Perses instances and their
-- cache. The mutex makes each critical section one step on the cache, and the clock is read where
-- the code reads it: a time is a number of nanoseconds, an argument of the step. What follows the
-- clock reading `now` and compares `now.Sub(t) >= ttl` is written `t + ttl ≤ now`.
pub mod Lookup
pub mod Create
pub mod Store
pub mod Sweep
pub mod Interleaving
use perses_operator.Prelude.{
  ℕ, ◌+◌, ◌*◌, String, Bool, true, false, not, Option, none, some, List, [], ◌∷◌, Dict, lookup,
  insert, remove, leb, ◌==◌, ◌<>◌, if◌then◌else◌,
}

pub record ClientCacheEntry (C : Type 0) : Type 0 where
  pub client : C
  pub fingerprint : String
  pub created_at : ℕ

-- `lastSweep` is `none` before the first sweep, the zero time. `closed` records the clients whose
-- idle connections were closed, the latest first.
pub record Factory (C : Type 0) : Type 0 where
  pub cache : Dict (ClientCacheEntry C)
  pub ttl : ℕ
  pub last_sweep : Option ℕ
  pub closed : List C

abbrev pub default_client_cache_ttl : ℕ
default_client_cache_ttl = 5 * 60 * 1000000000

module _ {C : Type 0} where
  -- NewWithConfig
  abbrev pub new_with_config : Factory C
  new_with_config = record {
    cache = [];
    ttl = default_client_cache_ttl;
    last_sweep = none;
    closed = [];
  }

  -- closeClientConnections
  abbrev pub close_client_connections : C → List C → List C
  close_client_connections c closed = c ∷ closed

  abbrev pub close_entry : Option (ClientCacheEntry C) → List C → List C
  close_entry none closed = closed
  close_entry (some entry) closed = close_client_connections entry.client closed

  unfoldable pub forget_instance : String → Factory C → Factory C
  forget_instance key f = record f {
    cache = remove key f.cache;
    closed = close_entry (lookup key f.cache) f.closed;
  }

  -- `now.Sub(entry.createdAt) >= f.ttl`
  abbrev pub is_expired : ℕ → ℕ → ClientCacheEntry C → Bool
  is_expired ttl now entry = leb (entry.created_at + ttl) now

  -- The loop of sweepExpiredLocked: what stays, and what is closed.
  unfoldable pub unexpired : ℕ → ℕ → Dict (ClientCacheEntry C) → Dict (ClientCacheEntry C)
  unexpired ttl now [] = []
  unexpired ttl now ((key, entry) ∷ m) =
      let rest = unexpired ttl now m in
      if is_expired ttl now entry then rest else (key, entry) ∷ rest

  unfoldable pub close_expired : ℕ → ℕ → Dict (ClientCacheEntry C) → List C → List C
  close_expired ttl now [] closed = closed
  close_expired ttl now ((key, entry) ∷ m) closed =
      close_expired ttl now m
        (if is_expired ttl now entry then close_client_connections entry.client closed else closed)

  -- `now.Sub(f.lastSweep) < f.ttl`
  unfoldable pub swept_recently : ℕ → Factory C → Bool
  swept_recently now f = elim f.last_sweep [
    | none ↦ false
    | some last ↦ not (leb (last + f.ttl) now)
  ]

  unfoldable pub sweep_expired_locked : ℕ → Factory C → Factory C
  unfolding swept_recently unexpired close_expired
  sweep_expired_locked now f = if swept_recently now f then f else record f {
    cache = unexpired f.ttl now f.cache;
    last_sweep = some now;
    closed = close_expired f.ttl now f.cache f.closed;
  }

  abbrev pub hit_entry : ℕ → ℕ → String → Option (ClientCacheEntry C) → Option C
  hit_entry ttl now fingerprint none = none
  hit_entry ttl now fingerprint (some entry) =
      if not (entry.fingerprint == fingerprint)
      then none
      else if is_expired ttl now entry
      then none
      else some entry.client

  unfoldable pub cache_hit : ℕ → String → String → Factory C → Option C
  cache_hit now key fingerprint f = hit_entry f.ttl now fingerprint (lookup key f.cache)

  -- What CreateClient does under the write lock with the client that it built: another goroutine's
  -- client is preferred, else the new one replaces what was there, and expired entries are swept.
  -- `recheck`, `created` and `swept` are the three readings of the clock.
  unfoldable pub store_client : ℕ → ℕ → ℕ → String → String → C → Factory C → C × Factory C
  store_client recheck created swept key fingerprint client f =
      elim (cache_hit recheck key fingerprint f) [
        | some cached ↦ (cached, f)
        | none ↦ (
          client,
          sweep_expired_locked swept (record f {
            cache =
                insert key
                  (record { client = client; fingerprint = fingerprint; created_at = created })
                  f.cache;
            closed = close_entry (lookup key f.cache) f.closed;
          }),
        )
      ]
