-- ===== src/ClientFactory/Interleaving/Sound.antt =====
-- Every critical section keeps the cache sound.
use perses_operator.Prelude.{
  ℕ, ◌≡◌, ◌≢◌, refl, sym, ap, ◌∙◌, ◌⊎◌, inl, inr, String, true, false, Option, none, some, List, [],
  ◌∷◌, Dict, lookup, insert, remove, lookup-insert, lookup-remove, eq_iff, eq_refl, arith,
  Bool-cases, ◌==◌, Option-cases,
}
use mathlib.Core.Path.{subst}
use perses_operator.ClientFactory.{
  ClientCacheEntry, Factory, new_with_config, is_expired, unexpired, close_expired, close_entry,
  forget_instance, sweep_expired_locked, swept_recently, cache_hit,
}
use perses_operator.ClientFactory.Sweep.{
  IsMap, remove-IsMap, insert-IsMap, left, lookup-unexpired, unexpired-IsMap,
}
use perses_operator.ClientFactory.Store.{with_entry, store_client-miss, store_client-hit}
use perses_operator.ClientFactory.Interleaving.{
  NotIn, IsFresh, IsSound, Step, forget, store, Reach, here, next,
}

module _ {C : Type 0} where
  NotIn-close_entry :
      (c : C) (o : Option (ClientCacheEntry C)) (closed : List C)
      → ((e : ClientCacheEntry C) → o ≡ some e → c ≢ e.client)
      → NotIn c closed
      → NotIn c (close_entry o closed)
  NotIn-close_entry c none closed h k = k
  NotIn-close_entry c (some e) closed h k = (h e refl, k)

  -- What is found after a removal was found before, at another key.
  found-remove :
      (key k : String) (m : Dict (ClientCacheEntry C)) (e : ClientCacheEntry C)
      → lookup k (remove key m) ≡ some e
      → (lookup k m ≡ some e) × (key ≢ k)
  found-remove key k m e h = (
    ground (arith, lookup-remove key k m, eq_iff key k),
    λ same. ground (arith, lookup-remove key k m, eq_iff key k),
  )

  -- What is found after an insertion is the new entry, or was found before at another key.
  found-insert :
      (key k : String) (v : ClientCacheEntry C) (m : Dict (ClientCacheEntry C))
      (e : ClientCacheEntry C)
      → lookup k (insert key v m) ≡ some e
      → ((key ≡ k) × (e ≡ v)) ⊎ ((key ≢ k) × (lookup k m ≡ some e))
  found-insert key k v m e h = elim (Bool-cases (key == k)) [
    | inl same ↦ inl (ground (arith, eq_iff key k), ground (arith, lookup-insert key k v m))
    | inr other ↦
        inr ((λ eq. ground (arith, eq_iff key k)), ground (arith, lookup-insert key k v m))
  ]

  forget-IsSound : (f : Factory C) (key : String) → IsSound f → IsSound (forget_instance key f)
  unfolding forget_instance
  forget-IsSound f key s = record {
    is_map = remove-IsMap key f.cache s.is_map;
    apart = λ j k d e hj hk same.
        s.apart j k d e (found-remove key j f.cache d hj).0 (found-remove key k f.cache e hk).0
          same;
    open_clients = λ k e h.
        let (found, ne) = found-remove key k f.cache e h in
        NotIn-close_entry e.client (lookup key f.cache) f.closed
          (λ d hd same. ne (s.apart key k d e hd found (sym same))) (s.open_clients k e found);
  }

module _ {C : Type 0} (recheck created now : ℕ) (key fingerprint : String) (c : C) (f : Factory C)
    (fresh : IsFresh c f) (s : IsSound f) where
  abbrev new_entry : ClientCacheEntry C
  new_entry = record { client = c; fingerprint = fingerprint; created_at = created }

  entry_apart :
      (j k : String) (d e : ClientCacheEntry C)
      → ((key ≡ j) × (d ≡ new_entry)) ⊎ ((key ≢ j) × (lookup j f.cache ≡ some d))
      → ((key ≡ k) × (e ≡ new_entry)) ⊎ ((key ≢ k) × (lookup k f.cache ≡ some e))
      → d.client ≡ e.client
      → j ≡ k
  entry_apart j k d e (inl a) (inl b) same = sym a.0 ∙ b.0
  entry_apart j k d e (inl a) (inr b) same =
      absurd (fresh.uncached k e b.1 (sym (ap (λ x. x.client) a.1) ∙ same))
  entry_apart j k d e (inr a) (inl b) same =
      absurd (fresh.uncached j d a.1 (sym (ap (λ x. x.client) b.1) ∙ sym same))
  entry_apart j k d e (inr a) (inr b) same = s.apart j k d e a.1 b.1 same

  entry_open :
      (k : String) (e : ClientCacheEntry C)
      → ((key ≡ k) × (e ≡ new_entry)) ⊎ ((key ≢ k) × (lookup k f.cache ≡ some e))
      → NotIn e.client (close_entry (lookup key f.cache) f.closed)
  entry_open k e (inl a) =
      subst (λ (x : ClientCacheEntry C). NotIn x.client (close_entry (lookup key f.cache) f.closed))
        (sym a.1)
        (NotIn-close_entry c (lookup key f.cache) f.closed (fresh.uncached key) fresh.unclosed)
  entry_open k e (inr b) =
      NotIn-close_entry e.client (lookup key f.cache) f.closed
        (λ d hd same. b.0 (s.apart key k d e hd b.1 (sym same))) (s.open_clients k e b.1)

  with_entry-IsSound : IsSound (with_entry recheck created now key fingerprint c f)
  with_entry-IsSound = record {
    is_map = insert-IsMap key new_entry f.cache s.is_map;
    apart = λ j k d e hj hk.
        entry_apart j k d e (found-insert key j new_entry f.cache d hj)
          (found-insert key k new_entry f.cache e hk);
    open_clients = λ k e h. entry_open k e (found-insert key k new_entry f.cache e h);
  }

module _ {V : Type 0} where
  found_tail :
      (key j : String) (v : V) (m : Dict V) (d : V)
      → lookup key m ≡ none
      → lookup j m ≡ some d
      → lookup j ((key, v) ∷ m) ≡ some d
  unfolding lookup
  found_tail key j v m d h k = ground (arith, eq_iff key j)

  found_head : (key : String) (v : V) (m : Dict V) → lookup key ((key, v) ∷ m) ≡ some v
  unfolding lookup
  found_head key v m = ground (arith, eq_refl key)

module _ {C : Type 0} (ttl now : ℕ) where
  NotIn-close_expired :
      (c : C) (m : Dict (ClientCacheEntry C)) (closed : List C)
      → IsMap m
      → ((j : String) (d : ClientCacheEntry C)
          → lookup j m ≡ some d
          → is_expired ttl now d ≡ true
          → c ≢ d.client)
      → NotIn c closed
      → NotIn c (close_expired ttl now m closed)
  unfolding close_expired
  NotIn-close_expired c [] closed h others k = k
  NotIn-close_expired c ((key, e) ∷ m) closed h others k =
      NotIn-close_expired c m _ h.1 (λ j d hd. others j d (found_tail key j e m d h.0 hd))
        (elim (Bool-cases (is_expired ttl now e)) [
          | inl old ↦ rw old (others key e (found_head key e m) old, k)
          | inr young ↦ rw young k
        ])

  swept-apart :
      (k : String) (o : Option (ClientCacheEntry C)) (e : ClientCacheEntry C)
      → left ttl now o ≡ some e
      → (o ≡ some e) × (is_expired ttl now e ≡ false)
  swept-apart k none e h = cc
  swept-apart k (some d) e h = elim (Bool-cases (is_expired ttl now d)) [
    | inl old ↦ absurd (ground (arith, old))
    | inr young ↦ (ground (arith, young), ground (arith, young))
  ]

module _ {C : Type 0} (now : ℕ) (f : Factory C) (s : IsSound f) where
  -- The loop of a sweep, on a sound cache.
  abbrev swept : Factory C
  swept = record f {
    cache = unexpired f.ttl now f.cache;
    last_sweep = some now;
    closed = close_expired f.ttl now f.cache f.closed;
  }

  found-swept :
      (k : String) (e : ClientCacheEntry C)
      → lookup k (unexpired f.ttl now f.cache) ≡ some e
      → (lookup k f.cache ≡ some e) × (is_expired f.ttl now e ≡ false)
  found-swept k e h =
      swept-apart f.ttl now k (lookup k f.cache) e
        (sym (lookup-unexpired f.ttl now k f.cache s.is_map) ∙ h)

  swept-IsSound : IsSound swept
  swept-IsSound = record {
    is_map = unexpired-IsMap f.ttl now f.cache s.is_map;
    apart = λ j k d e hj hk. s.apart j k d e (found-swept j d hj).0 (found-swept k e hk).0;
    open_clients = λ k e h.
        let (found, young) = found-swept k e h in
        NotIn-close_expired f.ttl now e.client f.cache f.closed s.is_map
          (λ j d hd old same.
            let here = s.apart k j e d found hd same in
            let eq = sym found ∙ ap (λ x. lookup x f.cache) here ∙ hd in
            ground (arith, eq, young, old))
          (s.open_clients k e found);
  }

  sweep-IsSound : IsSound (sweep_expired_locked now f)
  unfolding sweep_expired_locked
  sweep-IsSound = elim (Bool-cases (swept_recently now f)) [
    | inl recent ↦ rw recent s
    | inr due ↦ rw due swept-IsSound
  ]

module _ {C : Type 0} where
  step-IsSound : {f g : Factory C} → Step f g → IsSound f → IsSound g
  step-IsSound (forget f key) s = forget-IsSound f key s
  step-IsSound (store f recheck created now key fingerprint client fresh) s =
      elim (Option-cases (cache_hit recheck key fingerprint f)) [
        | inl miss ↦
            subst (λ r. IsSound r.1)
              (sym (store_client-miss recheck created now key fingerprint client f miss))
              (sweep-IsSound now (with_entry recheck created now key fingerprint client f)
                (with_entry-IsSound recheck created now key fingerprint client f fresh s))
        | inr (cached, hit) ↦
            subst (λ r. IsSound r.1)
              (sym (store_client-hit recheck created now key fingerprint client f cached hit)) s
      ]

  -- Whatever the order in which the controllers store clients and forget instances, starting from a
  -- new factory: each instance has one cached client at most, no two instances share a client, and
  -- the connections of a client that is still in the cache were never closed.
  pub Reach-IsSound : {f : Factory C} → Reach new_with_config f → IsSound f
  Reach-IsSound here = record {
    is_map = tt;
    apart = λ j k d e hj. absurd (unfold lookup in cc hj);
    open_clients = λ k e h. tt;
  }
  Reach-IsSound (next r st) = step-IsSound st (Reach-IsSound r)
