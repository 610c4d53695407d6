-- ===== src/InformerCache.antt =====
-- internal/cache/options.go: which objects the operator's client sees in its cache.
pub mod Seen
use perses_operator.Prelude.{
  String, Bool, true, false, Option, none, some, List, [], ◌∷◌, Dict, if◌then◌else◌,
}
use perses_operator.Tags.{Text, codes}
use perses_operator.Api.{Opaque}

-- `labels.Selector`: the selectors of the library, over a type `S` of theirs.
pub record Selectors (S : Type 0) : Type 0 where
  pub selector_from_set : Dict Text → S
  pub everything : S
  pub matches : S → Dict Text → Bool

-- The types of objects that the map has an entry for.
pub data CachedKind : Type 0 where
  deployments stateful_sets config_maps services secrets api_servers : CachedKind

-- `corev1.Secret`, as far as the transform changes it.
pub record CachedSecret : Type 0 where
  pub managed_fields : Option Opaque
  pub contents : Option (Dict String)
  pub string_data : Option (Dict String)

-- `cache.ByObject`
pub record ByObject (S : Type 0) : Type 0 where
  pub label : Option S
  pub transform : Option (CachedSecret → CachedSecret)

abbrev pub managed_by_label : String
managed_by_label = "app.kubernetes.io/managed-by"

abbrev strip_secret : CachedSecret → CachedSecret
strip_secret s = record { managed_fields = none; contents = none; string_data = none }

module _ {S : Type 0} (l : Selectors S) where
  abbrev managed_by_selector : S
  managed_by_selector = l.selector_from_set ((managed_by_label, codes "perses-operator") ∷ [])

  abbrev watch_selector : Option S → S
  watch_selector (some s) = s
  watch_selector none = l.selector_from_set (("perses.dev/watch", codes "true") ∷ [])

  abbrev managed_entry : Option (ByObject S)
  managed_entry = some (record { label = some managed_by_selector; transform = none })

  -- The flags are `watchAllSecrets` and `tlsClusterProfile`.
  unfoldable pub build_cache_by_object : Option S → Bool → Bool → CachedKind → Option (ByObject S)
  build_cache_by_object secret_selector watch_all profile deployments = managed_entry
  build_cache_by_object secret_selector watch_all profile stateful_sets = managed_entry
  build_cache_by_object secret_selector watch_all profile config_maps = managed_entry
  build_cache_by_object secret_selector watch_all profile services = managed_entry
  build_cache_by_object secret_selector watch_all profile secrets = some (record {
    label = if watch_all then none else some (watch_selector secret_selector);
    transform = some strip_secret;
  })
  build_cache_by_object secret_selector watch_all profile api_servers =
      if profile then some (record { label = some l.everything; transform = none }) else none

  abbrev selected : Option S → Dict Text → Bool
  selected none labels = true
  selected (some s) labels = l.matches s labels

  -- Whether the cache holds an object: without an entry, it holds every one.
  abbrev pub holds_object : Option (ByObject S) → Dict Text → Bool
  holds_object none labels = true
  holds_object (some e) labels = selected e.label labels
