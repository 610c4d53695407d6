-- ===== src/Examples/TestServer.antt =====
-- The server of the examples is a Perses server.
use perses_operator.Prelude.{
  ◌≡◌, refl, ◌⊎◌, inl, inr, String, true, Option, none, some, arith, eq_iff, eq_refl, Bool-cases,
  ◌==◌, ◌&&◌, ◌↔◌, ap,
}
use perses_operator.Act.{ok, fail}
use perses_operator.Api.{Opaque, raw}
use perses_operator.Errors.{Error, is_request_not_found}
use perses_operator.World.{ObjectKind, Object, Project, dashboard, datasource, global_datasource}
use perses_operator.Server.{IsServer}
use perses_operator.Server.Deleted.{Deletes}
use perses_operator.Examples.{
  Objects, kind_eq, found_or_missing, stored_at, removed_at, test_env, text_of,
}

kind_eq_refl : (k : ObjectKind) → kind_eq k k ≡ true
kind_eq_refl dashboard = refl
kind_eq_refl datasource = refl
kind_eq_refl global_datasource = refl

kind_eq_sound : (a b : ObjectKind) → kind_eq a b ≡ true → a ≡ b
kind_eq_sound dashboard dashboard h = refl
kind_eq_sound dashboard datasource h = cc
kind_eq_sound dashboard global_datasource h = cc
kind_eq_sound datasource dashboard h = cc
kind_eq_sound datasource datasource h = refl
kind_eq_sound datasource global_datasource h = cc
kind_eq_sound global_datasource dashboard h = cc
kind_eq_sound global_datasource datasource h = cc
kind_eq_sound global_datasource global_datasource h = refl

found : (o : Option Object) (x : Object) → found_or_missing o ≡ ok x → o ≡ some x
found none x h = cc
found (some y) x h = ground arith

missing :
    (o : Option Object) (err : Error)
    → found_or_missing o ≡ fail err
    → is_request_not_found err ≡ true
    → o ≡ none
missing none err h k = refl
missing (some y) err h k = cc

module _ (k : ObjectKind) (o : Object) (e : Objects) where
  stores : (p : Project) → stored_at k o e k p o.name ≡ some o
  stores p = rw (kind_eq_refl k, eq_refl o.name)

  frame :
      (k' : ObjectKind) (p : Project) (n : String)
      → (stored_at k o e k' p n ≡ e k' p n)
        ⊎ ((stored_at k o e k' p n ≡ some o) × (k' ≡ k) × (n ≡ o.name))
  frame k' p n = elim (Bool-cases (kind_eq k' k)) [
    | inr other ↦ inl (rw other)
    | inl same ↦ elim (Bool-cases (n == o.name)) [
      | inr other ↦ inl (rw (same, other))
      | inl here ↦
          inr (rw (same, here), kind_eq_sound k' k same, ground (arith, eq_iff n o.name, here))
    ]
  ]

deep_equal_iff : (s t : Opaque) → (test_env.deep_equal s t ≡ true) ↔ (s ≡ t)
deep_equal_iff (raw s) (raw t) =
    (λ h. ap raw (ground (arith, h, eq_iff s t)), λ h. ground (arith, ap text_of h, eq_iff s t))

removes : (k : ObjectKind) (n : String) (e : Objects) (p : Project) → removed_at k n e k p n ≡ none
removes k n e p = rw (kind_eq_refl k, eq_refl n)

remove_frame :
    (k : ObjectKind) (n : String) (e : Objects) (k' : ObjectKind) (p : Project) (n' : String)
    → (removed_at k n e k' p n' ≡ e k' p n') ⊎ (removed_at k n e k' p n' ≡ none)
remove_frame k n e k' p n' = elim (Bool-cases (kind_eq k' k && n' == n)) [
  | inr other ↦ inl (rw other)
  | inl same ↦ inr (rw same)
]

pub deleting_server : (s : IsServer test_env) × Deletes s
deleting_server = (
  record {
    stored = λ e a k p n. e k p n;
    at = λ c. "http://perses";
    address = λ p. "http://perses";
    connects = λ p e c h. refl;
    get_found = λ c k p n e o h. found (e k p n) o h;
    get_missing = λ c k p n e err h m. missing (e k p n) err h m;
    create_stores = λ c k p o e h. stores k o e p;
    update_stores = λ c k p o e h. stores k o e p;
    create_frame = λ c k p o e a k' p' n. frame k o e k' p' n;
    update_frame = λ c k p o e a k' p' n. frame k o e k' p' n;
    create_client_same = λ p e. refl;
    project_get_same = λ c n e. refl;
    project_create_same = λ c n e. refl;
    object_get_same = λ c k p n e. refl;
    object_validate_same = λ c k o e. refl;
    secret_get_same = λ c p n e. refl;
    secret_create_same = λ c p s e. refl;
    secret_update_same = λ c p s e. refl;
    read_secret_same = λ ns n e. refl;
    read_config_map_same = λ ns n e. refl;
    read_file_same = λ path e. refl;
    deep_equal_iff = deep_equal_iff;
  },
  record {
    delete_removes = λ c k p n e h. removes k n e p;
    delete_missing = λ c k p n e err h m. absurd (cc h);
    delete_frame = λ c k p n e a k' p' n'. remove_frame k n e k' p' n';
    secret_delete_same = λ c p n e. refl;
  },
)

abbrev pub test_server : IsServer test_env
test_server = deleting_server.0

abbrev pub test_deletes : Deletes test_server
test_deletes = deleting_server.1
