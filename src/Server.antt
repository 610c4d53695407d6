-- ===== src/Server.antt =====
-- What is assumed of a Perses server and of the clients to it, which are not part of the operator:
-- an object that was created or updated is stored as it was sent, and no other call stores one. And
-- of DeepEqual: that it is equality.
pub mod Steps
pub mod Secrets
pub mod Converge
pub mod Kept
pub mod Synced
pub mod Instances
pub mod Idle
pub mod Reaches
pub mod Deleted
pub mod Emptied
use perses_operator.Prelude.{
  ◌≡◌, ◌⊎◌, ◌↔◌, String, true, Option, none, some, List, [], length, default,
}
use perses_operator.Act.{ok}
use perses_operator.Api.{Opaque}
use perses_operator.Api.Instance.{Perses}
use perses_operator.Errors.{Error, is_request_not_found}
use perses_operator.Act.{fail}
use perses_operator.World.{ObjectKind, Object, Project, Env, World}
use perses_operator.Tags.{Text, mem_text}

-- The objects of all servers: by the server's address, the kind, the project and the name.
abbrev pub Stored : Type 0
Stored = String → ObjectKind → Project → String → Option Object

pub record IsServer {E C : Type 0} (v : Env E C) : Type 0 where
  pub stored : E → Stored
  pub at : C → String
  pub address : Perses → String
  pub connects : (p : Perses) (e : E) (c : C) → (v.create_client p e).0 ≡ ok c → at c ≡ address p
  -- reading
  pub get_found :
      (c : C) (k : ObjectKind) (p : Project) (n : String) (e : E) (o : Object)
      → (v.object_get c k p n e).0 ≡ ok o
      → stored (v.object_get c k p n e).1 (at c) k p n ≡ some o
  pub get_missing :
      (c : C) (k : ObjectKind) (p : Project) (n : String) (e : E) (err : Error)
      → (v.object_get c k p n e).0 ≡ fail err
      → is_request_not_found err ≡ true
      → stored e (at c) k p n ≡ none
  -- writing
  pub create_stores :
      (c : C) (k : ObjectKind) (p : Project) (o : Object) (e : E)
      → (v.object_create c k p o e).0 ≡ ok tt
      → stored (v.object_create c k p o e).1 (at c) k p o.name ≡ some o
  pub update_stores :
      (c : C) (k : ObjectKind) (p : Project) (o : Object) (e : E)
      → (v.object_update c k p o e).0 ≡ ok tt
      → stored (v.object_update c k p o e).1 (at c) k p o.name ≡ some o
  -- A write, also one that fails half-way, changes nothing but the object that was sent.
  pub create_frame :
      (c : C) (k : ObjectKind) (p : Project) (o : Object) (e : E) (a : String) (k' : ObjectKind)
      (p' : Project) (n : String)
      → (stored (v.object_create c k p o e).1 a k' p' n ≡ stored e a k' p' n)
        ⊎ ((stored (v.object_create c k p o e).1 a k' p' n ≡ some o) × (k' ≡ k) × (n ≡ o.name))
  pub update_frame :
      (c : C) (k : ObjectKind) (p : Project) (o : Object) (e : E) (a : String) (k' : ObjectKind)
      (p' : Project) (n : String)
      → (stored (v.object_update c k p o e).1 a k' p' n ≡ stored e a k' p' n)
        ⊎ ((stored (v.object_update c k p o e).1 a k' p' n ≡ some o) × (k' ≡ k) × (n ≡ o.name))
  -- The other calls store no object.
  pub create_client_same : (p : Perses) (e : E) → stored (v.create_client p e).1 ≡ stored e
  pub project_get_same : (c : C) (n : String) (e : E) → stored (v.project_get c n e).1 ≡ stored e
  pub project_create_same :
      (c : C) (n : String) (e : E) → stored (v.project_create c n e).1 ≡ stored e
  pub object_get_same :
      (c : C) (k : ObjectKind) (p : Project) (n : String) (e : E)
      → stored (v.object_get c k p n e).1 ≡ stored e
  pub object_validate_same :
      (c : C) (k : ObjectKind) (o : Object) (e : E)
      → stored (v.object_validate c k o e).1 ≡ stored e
  pub secret_get_same :
      (c : C) (p : Project) (n : String) (e : E) → stored (v.secret_get c p n e).1 ≡ stored e
  pub secret_create_same :
      (c : C) (p : Project) (s : _) (e : E) → stored (v.secret_create c p s e).1 ≡ stored e
  pub secret_update_same :
      (c : C) (p : Project) (s : _) (e : E) → stored (v.secret_update c p s e).1 ≡ stored e
  pub read_secret_same : (ns n : String) (e : E) → stored (v.reader.get_secret ns n e).1 ≡ stored e
  pub read_config_map_same :
      (ns n : String) (e : E) → stored (v.reader.get_config_map ns n e).1 ≡ stored e
  pub read_file_same : (path : String) (e : E) → stored (v.read_file path e).1 ≡ stored e
  -- Semantic.DeepEqual is equality of what an `Opaque` is: a value up to empty lists and maps.
  pub deep_equal_iff : (s t : Opaque) → (v.deep_equal s t ≡ true) ↔ (s ≡ t)

-- The same set of tags, for lists that hold no tag twice: as many, and each of one is in the other.
abbrev pub SameTags : Option (List Text) → Option (List Text) → Type 0
SameTags a b =
    (length (default [] a) ≡ length (default [] b))
    × ((t : Text) → mem_text t (default [] a) ≡ true → mem_text t (default [] b) ≡ true)

-- An object with the tags and the specification of the desired one.
abbrev pub IsLike : Object → Object → Type 0
IsLike desired o = SameTags o.tags desired.tags × (o.spec ≡ desired.spec)

module _ {E C : Type 0} {v : Env E C} (server : IsServer v) where
  -- The server at an address holds an object with the tags and the specification of the desired one,
  -- under its name.
  abbrev pub Holds : ObjectKind → Project → Object → String → E → Type 0
  Holds k p desired a e =
      (o : Object) × (server.stored e a k p desired.name ≡ some o) × IsLike desired o
