-- ===== src/Server/Converge.antt =====
-- The steps towards an object that is stored with the desired tags and specification.
use perses_operator.Prelude.{
  ◌≡◌, refl, String, Option, none, some, arith, Bool-cases, inl, inr, if◌then◌else◌,
}
use mathlib.Core.Path.{subst}
use perses_operator.Act.{Act, Outcome, ok, fail, map_error, pure, Outcome-cases}
use perses_operator.Act.Triple.{Triple, Post}
use perses_operator.Api.Instance.{Perses}
use perses_operator.Errors.{Error, reason_backend_error}
use perses_operator.World.{ObjectKind, Object, Project, Env, World}
use perses_operator.Sync.{Sync, because, in_sync, already_in_sync, connect, get_existing, put}
use perses_operator.Sync.InSync.{in_sync_iff}
use perses_operator.Server.{IsServer, Holds}

abbrev pub Any : {W : Type 0} → W → Type 0
Any w = Unit

module _ {W F A : Type 0} where
  Post-Any : (r : Outcome F A) (w : W) → Post (λ _. Any) Any r w
  Post-Any (ok a) w = tt
  Post-Any (fail e) w = tt

  pub triple-Any : (m : Act W F A) → Triple Any m (λ _. Any) Any
  triple-Any m = record { at = λ w h. Post-Any (m w).0 (m w).1 }

module _ {E C : Type 0} {v : Env E C} (server : IsServer v) where
  -- The client that was made speaks to the server of the instance.
  pub connect-at :
      (perses : Perses)
      → Triple
          (Any {W = World E})
          (connect v perses)
          (λ c w. server.at c ≡ server.address perses)
          Any
  unfolding connect
  connect-at perses = record {
    at = λ w h. elim (Outcome-cases (v.create_client perses w.env).0) [
      | inl (c, e) ↦ ground (arith, e, server.connects perses w.env c e)
      | inr (err, e) ↦ ground (arith, e)
    ];
  }

  module _ (k : ObjectKind) (p : Project) (desired : Object) where
    -- What `get_existing` returned is what the server holds.
    abbrev pub Found : C → Option Object → World E → Type 0
    Found c none w = Unit
    Found c (some o) w = server.stored w.env (server.at c) k p desired.name ≡ some o

    pub get_existing-Found :
        (c : C) → Triple (Any {W = World E}) (get_existing v c k p desired.name) (Found c) Any
    unfolding get_existing
    get_existing-Found c = record {
      at = λ w h. elim (Outcome-cases (v.object_get c k p desired.name w.env).0) [
        | inl (o, e) ↦ ground (arith, server.get_found c k p desired.name w.env o e)
        | inr (err, e) ↦ ground arith
      ];
    }

    abbrev pub HeldAt : String → World E → Type 0
    HeldAt a w = Holds server k p desired a w.env

    stored-HeldAt :
        (a : String) (e : E)
        → server.stored e a k p desired.name ≡ some desired
        → Holds server k p desired a e
    stored-HeldAt a e h = (desired, h, ((refl, λ t m. m), refl))

    put-result :
        (c : C) (r : Outcome Error Unit) (w' : World E)
        → (r ≡ ok tt → server.stored w'.env (server.at c) k p desired.name ≡ some desired)
        → Post (λ _. HeldAt (server.at c)) Any (map_error (because reason_backend_error) r) w'
    put-result c (ok _) w' h = stored-HeldAt _ _ (h refl)
    put-result c (fail err) w' h = tt

    pub put-HeldAt :
        (c : C) (existing : Option Object)
        → Triple (Any {W = World E}) (put v c k p existing desired) (λ _. HeldAt (server.at c)) Any
    unfolding put
    put-HeldAt c none = record {
      at = λ w h. put-result c _ _ (server.create_stores c k p desired w.env);
    }
    put-HeldAt c (some o) = record {
      at = λ w h. put-result c _ _ (server.update_stores c k p desired w.env);
    }

    -- Nothing is done where the object is in sync, and else `m` brings it there.
    pub unless_in_sync :
        (c : C) (existing : Option Object) (m : Sync E Unit)
        → Triple Any m (λ _. HeldAt (server.at c)) Any
        → Triple
            (Found c existing)
            (if already_in_sync v existing desired then pure tt else m)
            (λ _. HeldAt (server.at c))
            Any
    unfolding already_in_sync
    unless_in_sync c none m t = record { at = λ w h. t.at w tt }
    unless_in_sync c (some o) m t = elim (Bool-cases (in_sync v o desired)) [
      | inl same ↦
          let like = (in_sync_iff v server.deep_equal_iff o desired).0 same in
          rw same (record { at = λ w h. (o, h, like) })
      | inr other ↦ rw other (record { at = λ w h. t.at w tt })
    ]

    -- From the client on, the address is that of the instance.
    pub at_address :
        {A : Type 0} (perses : Perses) (c : C) (m : Sync E A)
        → Triple Any m (λ _. HeldAt (server.at c)) Any
        → Triple
            (λ w. server.at c ≡ server.address perses)
            m
            (λ _. HeldAt (server.address perses))
            Any
    at_address perses c m t = record {
      at = λ w h. subst (λ a. Post (λ _. HeldAt a) Any (m w).0 (m w).1) h (t.at w tt);
    }
