-- ===== src/Sync/Guarded.antt =====
-- No write to a Perses server without a validation that the server accepted.
use perses_operator.Prelude.{
  if◌then◌else◌, ◌≡◌, sym, ◌⊎◌, String, Bool, true, false, Option, none, some, List, [], ◌∷◌, arith,
}
use mathlib.Core.Path.{subst}
use perses_operator.Act.{Act, Outcome, ok, fail}
use perses_operator.Act.Triple.{Triple, Post}
use perses_operator.Api.Instance.{Perses}
use perses_operator.World.{
  ObjectKind, Object, Project, PersesSecret, Env, World, Call, Event, get_project, create_project,
  get_object, delete_object, validate_object, create_object, update_object, get_secret,
  delete_secret, create_secret, update_secret,
}
use perses_operator.Sync.{Sync, Failure, connect, ensure_project, get_existing, validate, put}
use perses_operator.Sync.Quiet.{IsQuiet}

module _ (k : ObjectKind) (p : Project) (S : PersesSecret → Type 0) (o : Object) where
  -- One of the calls is a validation of `o` that the server accepted.
  abbrev pub IsValidated : List Event → Type 0
  IsValidated [] = ⊥
  IsValidated (e ∷ es) = ((e.call ≡ validate_object k o) × (e.succeeded ≡ true)) ⊎ IsValidated es

  -- What a call may write after the calls `es`: the object `o` or a secret in `S`, in the project `p`
  -- and only after `o` was validated. Reads and the creation of a project are free.
  abbrev pub MayFollow : Call → List Event → Type 0
  MayFollow (create_object k' p' o') es = (k' ≡ k) × (p' ≡ p) × (o' ≡ o) × IsValidated es
  MayFollow (update_object k' p' o') es = (k' ≡ k) × (p' ≡ p) × (o' ≡ o) × IsValidated es
  MayFollow (create_secret p' s) es = (p' ≡ p) × S s × IsValidated es
  MayFollow (update_secret p' s) es = (p' ≡ p) × S s × IsValidated es
  MayFollow (delete_object k' p' n) es = ⊥
  MayFollow (delete_secret p' n) es = ⊥
  MayFollow (get_project n) es = Unit
  MayFollow (create_project n) es = Unit
  MayFollow (get_object k' p' n) es = Unit
  MayFollow (validate_object k' o') es = Unit
  MayFollow (get_secret p' n) es = Unit

  abbrev pub IsGuarded : List Event → Type 0
  IsGuarded [] = Unit
  IsGuarded (e ∷ es) = MayFollow e.call es × IsGuarded es

  abbrev Pair : List Event → Type 0
  Pair es = IsValidated es × IsGuarded es

  module _ {E : Type 0} where
    abbrev pub Guarded : World E → Type 0
    Guarded w = IsGuarded w.calls

    abbrev pub Cleared : World E → Type 0
    Cleared w = IsValidated w.calls × IsGuarded w.calls

    -- An action that keeps the guard, and one that is only run after the validation.
    abbrev pub Keeps : {A : Type 0} → Sync E A → Type 0
    Keeps m = Triple Guarded m (λ _. Guarded) Guarded

    abbrev pub KeepsCleared : {A : Type 0} → Sync E A → Type 0
    KeepsCleared m = Triple Cleared m (λ _. Cleared) Guarded

module _ {E C : Type 0} (v : Env E C) (k : ObjectKind) (p : Project) (S : PersesSecret → Type 0)
    (o : Object) where
  pub Keeps-connect : (perses : Perses) → Keeps k p S o (connect v perses)
  unfolding connect
  Keeps-connect perses = record { at = λ w h. ground arith }

  pub Keeps-ensure_project : (c : C) (ns : String) → Keeps k p S o (ensure_project v c ns)
  unfolding ensure_project
  Keeps-ensure_project c ns = record { at = λ w h. ground arith }

  pub Keeps-get_existing :
      (c : C) (k' : ObjectKind) (p' : Project) (name : String)
      → Keeps k p S o (get_existing v c k' p' name)
  unfolding get_existing
  Keeps-get_existing c k' p' name = record { at = λ w h. ground arith }

  -- Past the validation of `o`, it has been validated.
  pub clears-validate :
      (c : C) (what : String)
      → Triple (Guarded k p S o) (validate v c k what o) (λ _. Cleared k p S o) (Guarded k p S o)
  unfolding validate
  clears-validate c what = record { at = λ w h. ground arith }

  pub keeps-put :
      (c : C) (existing : Option Object)
      → Triple (Cleared k p S o) (put v c k p existing o) (λ _. Guarded k p S o) (Guarded k p S o)
  unfolding put
  keeps-put c none = record { at = λ w h. ground arith }
  keeps-put c (some x) = record { at = λ w h. ground arith }

module _ {W F A : Type 0} {P R : W → Type 0} {Q : A → W → Type 0} where
  pub triple-if :
      (b : Bool) {m n : Act W F A}
      → Triple P m Q R
      → Triple P n Q R
      → Triple P (if b then m else n) Q R
  triple-if true t u = t
  triple-if false t u = u

module _ {W F A : Type 0} where
  post_same : (P : W → Type 0) (r : Outcome F A) (w : W) → Post (λ _. P) P r w → P w
  post_same P (ok a) w h = h
  post_same P (fail e) w h = h

  -- With one condition on both ways to end, it holds at the end, whatever held at the beginning.
  pub kept_either :
      {P Q : W → Type 0} {m : Act W F A} → Triple P m (λ _. Q) Q → (w : W) → P w → Q (m w).1
  kept_either {Q} {m} t w h = post_same Q (m w).0 (m w).1 (t.at w h)

  -- The same for a condition that is kept.
  pub kept : {P : W → Type 0} {m : Act W F A} → Triple P m (λ _. P) P → (w : W) → P w → P (m w).1
  kept {P} {m} t w h = post_same P (m w).0 (m w).1 (t.at w h)

module _ (k : ObjectKind) (p : Project) (S : PersesSecret → Type 0) (o : Object)
    {E A : Type 0} where
  -- An action that makes no call to a Perses server changes nothing about the log.
  pub quiet-cleared : {m : Sync E A} → IsQuiet m → KeepsCleared k p S o m
  quiet-cleared {m} q = record {
    at = λ w h. both (m w).0 (m w).1 (subst (Pair k p S o) (sym (q.same_calls w)) h);
  }
    where
      both :
          (r : Outcome Failure A) (w : World E)
          → Cleared k p S o w
          → Post (λ _. Cleared k p S o) (Guarded k p S o) r w
      both (ok a) w h = h
      both (fail e) w h = h.1
