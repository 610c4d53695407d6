-- ===== src/Server/Kept.antt =====
-- An object that a server holds as desired stays there through the calls of another synchronisation of
-- the same resource.
use perses_operator.Prelude.{◌≡◌, refl, ap, ◌∙◌, ◌⊎◌, inl, inr, String, Option, none, some}
use perses_operator.Act.{Outcome, ok, fail}
use perses_operator.Act.Triple.{Post}
use perses_operator.World.{ObjectKind, Object, Project, Env, World}
use perses_operator.Sync.{Sync, put}
use perses_operator.Server.{IsServer, Holds}
use perses_operator.Api.{Client}
use perses_operator.Api.Instance.{Perses}
use perses_operator.Datasources.{sync_client_secret}
use perses_operator.Sync.{connect, ensure_project, get_existing, validate}
use perses_operator.Server.Steps.{
  Stays, InEnv, Keeping, Keeping-connect, Keeping-ensure_project, Keeping-get_existing,
  Keeping-validate,
}
use perses_operator.Server.Secrets.{SecretStays, Keeping-sync_client_secret}

Post-keep :
    {E F A : Type 0} (P : E → Type 0) (r : Outcome F A) (w : World E)
    → P w.env
    → Post (λ _. InEnv P) (InEnv P) r w
Post-keep P (ok x) w h = h
Post-keep P (fail e) w h = h

module _ {E C : Type 0} {v : Env E C} (server : IsServer v) (k : ObjectKind) (p : Project)
    (desired : Object) (a : String) where
  abbrev pub Held : E → Type 0
  Held = Holds server k p desired a

  pub Held-same : {e e' : E} → server.stored e' ≡ server.stored e → Held e → Held e'
  Held-same s h = (h.0, ap (λ f. f a k p desired.name) s ∙ h.1, h.2)

  pub Held-SecretStays : SecretStays v Held
  Held-SecretStays = record {
    read_secret = λ ns n e. Held-same (server.read_secret_same ns n e);
    read_config_map = λ ns n e. Held-same (server.read_config_map_same ns n e);
    read_file = λ path e. Held-same (server.read_file_same path e);
    secret_get = λ c q n e. Held-same (server.secret_get_same c q n e);
    secret_create = λ c q s e. Held-same (server.secret_create_same c q s e);
    secret_update = λ c q s e. Held-same (server.secret_update_same c q s e);
  }

  Held-frame :
      {e e' : E}
      → (server.stored e' a k p desired.name ≡ server.stored e a k p desired.name)
        ⊎ ((server.stored e' a k p desired.name ≡ some desired)
            × (k ≡ k)
            × (desired.name ≡ desired.name))
      → Held e
      → Held e'
  Held-frame (inl s) h = (h.0, s ∙ h.1, h.2)
  Held-frame (inr s) h = (desired, s.0, ((refl, λ t m. m), refl))

  pub Stays-create : (c : C) (q : Project) → Stays Held (v.object_create c k q desired)
  Stays-create c q e h = Held-frame (server.create_frame c k q desired e a k p desired.name) h

  pub Stays-update : (c : C) (q : Project) → Stays Held (v.object_update c k q desired)
  Stays-update c q e h = Held-frame (server.update_frame c k q desired e a k p desired.name) h

  pub Keeping-put :
      (c : C) (existing : Option Object) → Keeping v Held (put v c k p existing desired)
  unfolding put
  Keeping-put c none = record { at = λ w h. Post-keep Held _ _ (Stays-create c p w.env h) }
  Keeping-put c (some o) = record { at = λ w h. Post-keep Held _ _ (Stays-update c p w.env h) }

  pub Held-connect : (perses : Perses) → Keeping v Held (connect v perses)
  Held-connect perses =
      Keeping-connect v Held perses (λ e. Held-same (server.create_client_same perses e))

  pub Held-ensure_project : (c : C) (ns : String) → Keeping v Held (ensure_project v c ns)
  Held-ensure_project c ns =
      Keeping-ensure_project v Held c ns (λ e. Held-same (server.project_get_same c ns e))
        (λ e. Held-same (server.project_create_same c ns e))

  pub Held-get_existing :
      (c : C) (k' : ObjectKind) (q : Project) (n : String)
      → Keeping v Held (get_existing v c k' q n)
  Held-get_existing c k' q n =
      Keeping-get_existing v Held c k' q n (λ e. Held-same (server.object_get_same c k' q n e))

  pub Held-validate : (c : C) (what : String) → Keeping v Held (validate v c k what desired)
  Held-validate c what =
      Keeping-validate v Held c k what desired
        (λ e. Held-same (server.object_validate_same c k desired e))

  pub Held-secret :
      (f : Client → Sync E Unit) (client : Option Client)
      → ((x : Client) → Keeping v Held (f x))
      → Keeping v Held (sync_client_secret v f client)
  Held-secret f client t = Keeping-sync_client_secret v Held f client t
