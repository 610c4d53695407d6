-- ===== src/Server/Idle.antt =====
-- A synchronisation with a server that holds the desired object writes nothing.
use perses_operator.Prelude.{
  ℕ, ◌+◌, ◌≡◌, sym, ap, ◌∙◌, inl, inr, String, Bool, true, false, Option, none, some, List, [], ◌∷◌,
  arith, Bool-cases, if◌then◌else◌,
}
use mathlib.Core.Path.{subst}
use perses_operator.Act.{pure, Outcome-cases}
use perses_operator.Act.Triple.{Triple, Post, triple-bind, triple-both}
use perses_operator.Api.{Resource}
use perses_operator.Api.Instance.{Perses}
use perses_operator.Errors.{is_request_not_found}
use perses_operator.World.{
  ObjectKind, Object, Project, Env, World, Call, Event, create_object, update_object, delete_object,
  create_secret, update_secret, delete_secret, dashboard, datasource, global_datasource,
}
use perses_operator.Sync.{Sync, in_sync, already_in_sync, connect, ensure_project, get_existing}
use perses_operator.Sync.InSync.{in_sync_iff}
use perses_operator.Dashboards.{desired_object, sync_perses_dashboard}
use perses_operator.Datasources.{sync_perses_datasource, sync_perses_global_datasource}
use perses_operator.Server.{IsServer}
use perses_operator.Server.Kept.{Held, Held-same, Held-ensure_project}

some_injective : {A : Type 0} {a b : A} → ◌≡◌ {A = Option A} (some a) (some b) → a ≡ b
some_injective h = cc

none_not_some : {A : Type 0} {a : A} → ◌≡◌ {A = Option A} none (some a) → ⊥
none_not_some h = cc

-- Calls that change an object or a secret.
abbrev pub is_write : Call → Bool
is_write (create_object k p o) = true
is_write (update_object k p o) = true
is_write (delete_object k p n) = true
is_write (create_secret p s) = true
is_write (update_secret p s) = true
is_write (delete_secret p n) = true
is_write _ = false

-- How many calls of the log are writes.
abbrev pub writes : List Event → ℕ
writes [] = 0
writes (e ∷ es) = (if is_write e.call then 1 else 0) + writes es

module _ {E : Type 0} (n : ℕ) where
  abbrev pub Wrote : World E → Type 0
  Wrote w = writes w.calls ≡ n

module _ {E C : Type 0} {v : Env E C} (server : IsServer v) (k : ObjectKind) (p : Project)
    (o : Object) (n : ℕ) where
  -- So far `n` writes, and the server at `a` holds the object.
  abbrev pub Settled : String → World E → Type 0
  Settled a w = Held server k p o a w.env × Wrote n w

  pub Settled-connect :
      (perses : Perses)
      → Triple
          (Settled (server.address perses))
          (connect v perses)
          (λ c. Settled (server.at c))
          (Wrote n)
  unfolding connect
  Settled-connect perses = record {
    at = λ w h. elim (Outcome-cases (v.create_client perses w.env).0) [
      | inl (c, e) ↦
          let h' = Held-same server k p o _ (server.create_client_same perses w.env) h.0 in
          let at_c = server.connects perses w.env c e in
          rw e
            (subst (λ a. Held server k p o a (v.create_client perses w.env).1) (sym at_c) h', h.1)
      | inr (err, e) ↦ rw e h.1
    ];
  }

  Wrote-ensure_project :
      (c : C) (ns : String) → Triple (Wrote n) (ensure_project v c ns) (λ _. Wrote n) (Wrote n)
  unfolding ensure_project
  Wrote-ensure_project c ns = record { at = λ w h. ground arith }

  pub Settled-ensure_project :
      (a : String) (c : C) (ns : String)
      → Triple (Settled a) (ensure_project v c ns) (λ _. Settled a) (Wrote n)
  Settled-ensure_project a c ns =
      triple-both (Wrote n) (Held-ensure_project server k p o a c ns) (Wrote-ensure_project c ns)
        (λ w h h'. h')

  -- What is read is the object that is held, so it is in sync.
  pub Settled-get_existing :
      (c : C)
      → Triple
          (Settled (server.at c))
          (get_existing v c k p o.name)
          (λ existing w. (already_in_sync v existing o ≡ true) × Wrote n w)
          (Wrote n)
  unfolding get_existing already_in_sync
  Settled-get_existing c = record {
    at = λ w h. elim (Outcome-cases (v.object_get c k p o.name w.env).0) [
      | inl (x, e) ↦
          let found = server.get_found c k p o.name w.env x e in
          let same =
            ap (λ f. f (server.at c) k p o.name) (server.object_get_same c k p o.name w.env) in
          let eq = some_injective (sym h.0.1 ∙ sym same ∙ found) in
          let held = (in_sync_iff v server.deep_equal_iff h.0.0 o).1 h.0.2 in
          ground (arith, e, subst (λ y. in_sync v y o ≡ true) eq held)
      | inr (err, e) ↦ elim (Bool-cases (is_request_not_found err)) [
        | inl gone ↦
            let missing = server.get_missing c k p o.name w.env err e gone in
            absurd (none_not_some (sym missing ∙ h.0.1))
        | inr other ↦ ground (arith, e, other)
      ]
    ];
  }

  pub settled-if :
      (existing : Option Object) (m : Sync E Unit)
      → Triple
          (λ w. (already_in_sync v existing o ≡ true) × Wrote n w)
          (if already_in_sync v existing o then pure tt else m)
          (λ _. Wrote n)
          (Wrote n)
  settled-if existing m = record {
    at = λ w h.
        subst
          (λ b.
            Post (λ _. Wrote n) (Wrote n) ((if b then pure tt else m) w).0
              ((if b then pure tt else m) w).1)
          (sym h.0) h.1;
  }

module _ {E C : Type 0} {v : Env E C} (server : IsServer v) (perses : Perses) (d : Resource)
    (n : ℕ) where
  pub idle-dashboard :
      Triple
        (Settled server dashboard (some d.namespace) (desired_object v d) n (server.address perses))
        (sync_perses_dashboard v perses d)
        (λ _. Wrote n)
        (Wrote n)
  unfolding sync_perses_dashboard
  idle-dashboard =
      let o = desired_object v d in
      let p : Project = some d.namespace in
      triple-bind (Settled-connect server dashboard p o n perses) λ c.
        triple-bind (Settled-ensure_project server dashboard p o n _ c d.namespace) λ _.
          triple-bind (Settled-get_existing server dashboard p o n c)
            λ existing. settled-if server dashboard p o n existing _

  pub idle-datasource :
      Triple
        (Settled server datasource
          (some d.namespace)
          (desired_object v d)
          n
          (server.address perses))
        (sync_perses_datasource v perses d)
        (λ _. Wrote n)
        (Wrote n)
  unfolding sync_perses_datasource
  idle-datasource =
      let o = desired_object v d in
      let p : Project = some d.namespace in
      triple-bind (Settled-connect server datasource p o n perses) λ c.
        triple-bind (Settled-ensure_project server datasource p o n _ c d.namespace) λ _.
          triple-bind (Settled-get_existing server datasource p o n c)
            λ existing. settled-if server datasource p o n existing _

  pub idle-global_datasource :
      Triple
        (Settled server global_datasource none (desired_object v d) n (server.address perses))
        (sync_perses_global_datasource v perses d)
        (λ _. Wrote n)
        (Wrote n)
  unfolding sync_perses_global_datasource
  idle-global_datasource =
      let o = desired_object v d in
      triple-bind (Settled-connect server global_datasource none o n perses) λ c.
        triple-bind (Settled-get_existing server global_datasource none o n c)
          λ existing. settled-if server global_datasource none o n existing _
