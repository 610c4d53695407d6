-- ===== src/ClientFactory/Interleaving.antt =====
-- Any number of controllers share one factory. Between the critical sections of CreateClient other
-- goroutines may run theirs, so a history is a sequence of critical sections in any order.
pub mod Sound
use perses_operator.Prelude.{
  ℕ, ◌+◌, ◌<◌, ◌≡◌, ◌≢◌, refl, sym, ◌∙◌, String, Bool, true, false, Option, none, some, List, [],
  ◌∷◌, Dict, lookup, insert, remove, lookup-insert, lookup-remove, eq_iff, arith, Option-cases,
  Bool-cases, inl, inr, if◌then◌else◌, ◌==◌,
}
use perses_operator.ClientFactory.{
  ClientCacheEntry, Factory, new_with_config, is_expired, unexpired, close_expired, close_entry,
  forget_instance, sweep_expired_locked, swept_recently, store_client, cache_hit,
}
use perses_operator.ClientFactory.Sweep.{
  IsMap, remove-IsMap, insert-IsMap, left, lookup-unexpired, unexpired-IsMap,
}
use perses_operator.ClientFactory.Store.{with_entry}

module _ {C : Type 0} where
  -- `c` is none of the clients.
  abbrev pub NotIn : C → List C → Type 0
  NotIn c [] = Unit
  NotIn c (x ∷ xs) = (c ≢ x) × NotIn c xs

  -- A client that was just made is neither cached nor was it ever closed.
  pub record IsFresh (c : C) (f : Factory C) : Type 0 where
    pub uncached : (k : String) (e : ClientCacheEntry C) → lookup k f.cache ≡ some e → c ≢ e.client
    pub unclosed : NotIn c f.closed

  -- A critical section that changes the factory. The client that is stored was made by this
  -- goroutine.
  pub data Step : Factory C → Factory C → Type 0 where
    forget : (f : Factory C) (key : String) → Step f (forget_instance key f)
    store :
        (f : Factory C) (recheck created swept : ℕ) (key fingerprint : String) (client : C)
        → IsFresh client f
        → Step f (store_client recheck created swept key fingerprint client f).1

  pub data Reach (f : Factory C) : Factory C → Type 0 where
    here : Reach f f
    next : {g h : Factory C} → Reach f g → Step g h → Reach f h

  -- Each key stands once, no two instances share a client, and no cached client was closed.
  pub record IsSound (f : Factory C) : Type 0 where
    pub is_map : IsMap f.cache
    pub apart :
        (j k : String) (d e : ClientCacheEntry C)
        → lookup j f.cache ≡ some d
        → lookup k f.cache ≡ some e
        → d.client ≡ e.client
        → j ≡ k
    pub open_clients :
        (k : String) (e : ClientCacheEntry C) → lookup k f.cache ≡ some e → NotIn e.client f.closed
