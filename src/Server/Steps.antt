-- ===== src/Server/Steps.antt =====
-- A predicate on the environment that the calls of a step keep is kept by the step.
use perses_operator.Prelude.{String, arith}
use perses_operator.Act.{Act, or_halt}
use perses_operator.Act.Triple.{Triple}
use perses_operator.Api.Instance.{Perses}
use perses_operator.Errors.{Error}
use perses_operator.World.{ObjectKind, Object, Project, PersesSecret, Env, World, lift}
use perses_operator.Sync.{Sync, Failure, connect, ensure_project, get_existing, validate}
use perses_operator.DatasourceSecret.{put_secret}

-- The call `m` keeps `P`, however it ends.
abbrev pub Stays : {E F A : Type 0} → (E → Type 0) → Act E F A → Type 0
Stays {E} P m = (e : E) → P e → P (m e).1

abbrev pub InEnv : {E : Type 0} → (E → Type 0) → World E → Type 0
InEnv P w = P w.env

module _ {E C : Type 0} (v : Env E C) (P : E → Type 0) where
  abbrev pub Keeping : {A : Type 0} → Sync E A → Type 0
  Keeping m = Triple (InEnv P) m (λ _. InEnv P) (InEnv P)

  pub Keeping-lift :
      {A : Type 0} (f : Error → Failure) (m : Act E Error A)
      → Stays P m
      → Keeping (or_halt f (lift m))
  Keeping-lift f m s = record { at = λ w h. ground (arith, s w.env h) }

  pub Keeping-connect : (p : Perses) → Stays P (v.create_client p) → Keeping (connect v p)
  unfolding connect
  Keeping-connect p s = record { at = λ w h. ground (arith, s w.env h) }

  pub Keeping-ensure_project :
      (c : C) (ns : String)
      → Stays P (v.project_get c ns)
      → Stays P (v.project_create c ns)
      → Keeping (ensure_project v c ns)
  unfolding ensure_project
  Keeping-ensure_project c ns s t = record {
    at = λ w h. ground (arith, s w.env h, t (v.project_get c ns w.env).1 (s w.env h));
  }

  pub Keeping-get_existing :
      (c : C) (k : ObjectKind) (p : Project) (name : String)
      → Stays P (v.object_get c k p name)
      → Keeping (get_existing v c k p name)
  unfolding get_existing
  Keeping-get_existing c k p name s = record { at = λ w h. ground (arith, s w.env h) }

  pub Keeping-validate :
      (c : C) (k : ObjectKind) (what : String) (o : Object)
      → Stays P (v.object_validate c k o)
      → Keeping (validate v c k what o)
  unfolding validate
  Keeping-validate c k what o s = record { at = λ w h. ground (arith, s w.env h) }

  pub Keeping-put_secret :
      (c : C) (p : Project) (s : PersesSecret) (what name : String) (ns : _)
      → Stays P (v.secret_get c p s.name)
      → Stays P (v.secret_create c p s)
      → Stays P (v.secret_update c p s)
      → Keeping (put_secret v what name ns c p s)
  unfolding put_secret
  Keeping-put_secret c p s what name ns g t u = record {
    at = λ w h.
        let e = (v.secret_get c p s.name w.env).1 in
        ground (arith, g w.env h, t e (g w.env h), u e (g w.env h));
  }
