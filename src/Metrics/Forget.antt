-- ===== src/Metrics/Forget.antt =====
-- What the resource counts hold of an object after ForgetObject and after SetSyncedResources.
use perses_operator.Prelude.{
  ℕ, String, ◌≡◌, ◌≢◌, refl, sym, ap, ◌∙◌, true, false, none, some, List, [], ◌∷◌, lookup, insert,
  remove, lookup-remove, lookup-insert, arith, eq_iff, eq_refl, if◌then◌else◌, Bool-cases, inl, inr,
  is_empty,
}
use mathlib.Core.Path.{subst}
use perses_operator.Metrics.{
  ResourceKey, ResourceState, synced, failed, key_eq, Resources, Metrics, objects_of, set_resources,
  set_synced_resources, set_failed_resources, forget_resources, forget_object,
}

key_eq_sound : (a b : ResourceKey) → key_eq a b ≡ true → a ≡ b
key_eq_sound a b h = ground (arith, eq_iff a.resource b.resource, eq_iff a.namespace b.namespace)

key_eq_refl : (a : ResourceKey) → key_eq a a ≡ true
key_eq_refl a = ground (arith, eq_refl a.resource, eq_refl a.namespace)

apart_keys : (i j k : ResourceKey) → key_eq i k ≡ false → key_eq i j ≡ true → key_eq k j ≡ false
apart_keys i j k other here = elim (Bool-cases (key_eq k j)) [
  | inr differ ↦ differ
  | inl both ↦
      let same = key_eq_sound i j here ∙ sym (key_eq_sound k j both) in
      absurd (ground (arith, ap (λ x. key_eq i x) same, key_eq_refl i, other))
]

pub objects_of-set_resources :
    (obj : String) (k j : ResourceKey) (v : ℕ) (rs : Resources)
    → objects_of j (set_resources obj k v rs)
      ≡ (if key_eq k j then insert obj v (objects_of k rs) else objects_of j rs)
unfolding objects_of set_resources
objects_of-set_resources obj k j v [] = refl
objects_of-set_resources obj k j v ((i, objs) ∷ rs) = elim (Bool-cases (key_eq i k)) [
  | inl here ↦
      let same : key_eq i j ≡ key_eq k j = ap (λ x. key_eq x j) (key_eq_sound i k here) in
      elim (Bool-cases (key_eq k j)) [
        | inl both ↦ rw (here, same, both)
        | inr differ ↦ rw (here, same, differ)
      ]
  | inr other ↦ elim (Bool-cases (key_eq i j)) [
    | inl there ↦ rw (other, there, apart_keys i j k other there)
    | inr away ↦ rw (other, away, objects_of-set_resources obj k j v rs)
  ]
]

-- No entry has the key.
abbrev pub NotKey : ResourceKey → Resources → Type 0
NotKey k [] = Unit
NotKey k ((j, objs) ∷ rs) = (key_eq j k ≡ false) × NotKey k rs

-- No key stands twice.
abbrev pub IsKeyed : Resources → Type 0
IsKeyed [] = Unit
IsKeyed ((k, objs) ∷ rs) = NotKey k rs × IsKeyed rs

objects_of-NotKey : (k : ResourceKey) (rs : Resources) → NotKey k rs → objects_of k rs ≡ []
unfolding objects_of
objects_of-NotKey k [] h = refl
objects_of-NotKey k ((j, objs) ∷ rs) h = ground (arith, objects_of-NotKey k rs h.1, h.0)

NotKey-forget_resources :
    (obj : String) (k : ResourceKey) (rs : Resources)
    → NotKey k rs
    → NotKey k (forget_resources obj rs)
unfolding forget_resources
NotKey-forget_resources obj k [] h = tt
NotKey-forget_resources obj k ((j, objs) ∷ rs) h = elim (Bool-cases (is_empty (remove obj objs))) [
  | inl empty ↦ rw empty (NotKey-forget_resources obj k rs h.1)
  | inr filled ↦ rw filled (h.0, NotKey-forget_resources obj k rs h.1)
]

is_empty→nil : {A : Type 0} (m : List A) → is_empty m ≡ true → m ≡ []
is_empty→nil [] h = refl
is_empty→nil (x ∷ m) h = cc

-- ForgetObject removes the object under every key, and nothing else.
objects_of-forget_resources :
    (obj : String) (k : ResourceKey) (rs : Resources)
    → IsKeyed rs
    → objects_of k (forget_resources obj rs) ≡ remove obj (objects_of k rs)
unfolding objects_of forget_resources
objects_of-forget_resources obj k [] h = unfold remove in refl
objects_of-forget_resources obj k ((j, objs) ∷ rs) h =
    let rest = objects_of-forget_resources obj k rs h.1 in
    elim (Bool-cases (is_empty (remove obj objs))) [
      | inl empty ↦ elim (Bool-cases (key_eq j k)) [
        | inl here ↦
            let same = key_eq_sound j k here in
            rw (empty, here, is_empty→nil (remove obj objs) empty)
              (objects_of-NotKey k (forget_resources obj rs)
                (NotKey-forget_resources obj k rs (subst (λ x. NotKey x rs) same h.0)))
        | inr away ↦ rw (empty, away) rest
      ]
      | inr filled ↦ elim (Bool-cases (key_eq j k)) [
        | inl here ↦ rw (filled, here)
        | inr away ↦ rw (filled, away) rest
      ]
    ]

abbrev pub key_of : String → String → ResourceState → ResourceKey
key_of resource namespace state = record {
  resource = resource;
  state = state;
  namespace = namespace;
}

module _ (m : Metrics) (obj other : String) (k : ResourceKey) where
  -- Where each key stands once: after ForgetObject the object is counted under no key, every other
  -- object under the keys that it was counted under before.
  pub forget_object-forgets :
      IsKeyed m.resources
      → obj ≢ other
      → (lookup obj (objects_of k (forget_object obj m).resources) ≡ none)
        × (lookup other (objects_of k (forget_object obj m).resources)
            ≡ lookup other (objects_of k m.resources))
  unfolding forget_object
  forget_object-forgets keyed ne =
      let objs = objects_of k m.resources in
      rw (objects_of-forget_resources obj k m.resources keyed) (
        ground (arith, lookup-remove obj obj objs, eq_refl obj),
        ground (arith, lookup-remove obj other objs, eq_iff obj other),
      )

module _ (obj resource namespace : String) (v : ℕ) (m : Metrics) where
  pub set_synced-recorded :
      lookup obj (
        objects_of
          (key_of resource namespace synced)
          (set_synced_resources obj resource namespace v m).resources)
      ≡ some v
  unfolding set_synced_resources
  set_synced-recorded =
      let k = key_of resource namespace synced in
      rw (objects_of-set_resources obj k k v m.resources, key_eq_refl k)
        (ground (arith, lookup-insert obj obj v (objects_of k m.resources), eq_refl obj))

  pub set_failed-recorded :
      lookup obj (
        objects_of
          (key_of resource namespace failed)
          (set_failed_resources obj resource namespace v m).resources)
      ≡ some v
  unfolding set_failed_resources
  set_failed-recorded =
      let k = key_of resource namespace failed in
      rw (objects_of-set_resources obj k k v m.resources, key_eq_refl k)
        (ground (arith, lookup-insert obj obj v (objects_of k m.resources), eq_refl obj))

module _ (m : Metrics) (obj : String) where
  -- SetSyncedResources stores the value for the object in the synced count of its resource and
  -- namespace, and changes nothing else in the counts: no other object under that key, and no
  -- object under any other key. So an object that was counted as failed before is still counted as
  -- failed, and now as synced too.
  pub set_synced_resources-keeps_others :
      (resource namespace : String) (v : ℕ) (other : String) (k : ResourceKey)
      → obj ≢ other
      → key_of resource namespace synced ≢ k
      → let key = key_of resource namespace synced in
        let counts = (set_synced_resources obj resource namespace v m).resources in
        (lookup obj (objects_of key counts) ≡ some v)
        × (lookup other (objects_of key counts) ≡ lookup other (objects_of key m.resources))
        × (objects_of k counts ≡ objects_of k m.resources)
  unfolding set_synced_resources
  set_synced_resources-keeps_others resource namespace v other k ne nk =
      let key = key_of resource namespace synced in
      (
        set_synced-recorded obj resource namespace v m,
        rw (objects_of-set_resources obj key key v m.resources, key_eq_refl key)
            (ground
              (arith, lookup-insert obj other v (objects_of key m.resources), eq_iff obj other)),
        elim (Bool-cases (key_eq key k)) [
          | inl same ↦ absurd (nk (key_eq_sound key k same))
          | inr differ ↦ rw (objects_of-set_resources obj key k v m.resources, differ)
        ],
      )
