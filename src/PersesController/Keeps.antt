-- ===== src/PersesController/Keeps.antt =====
-- What a sequence of steps keeps: the loop over the sub-reconcilers, and RetryOnConflict.
use perses_operator.Prelude.{Bool, true, false, ◌≡◌, refl, List, [], ◌∷◌, All, if◌then◌else◌}
use perses_operator.Errors.{Error}
use perses_operator.Subreconciler.{should_halt_or_requeue}
use perses_operator.Act.{Act, Outcome, ok, fail, continue, ◌>>=◌}
use perses_operator.World.{World}
use perses_operator.Controller.{Step}
use perses_operator.Controller.Reconcile.{run_steps}
use perses_operator.Workload.{Cluster, State}
use perses_operator.Workload.Mounts.{if-keeps}

-- RetryOnConflict runs the function that it is given, any number of times, and nothing else: what
-- every run keeps is kept.
abbrev pub KeepsWhatRunsKeep : {E : Type 0} → Cluster E → Type 1
KeepsWhatRunsKeep {E} v =
    (P : State E → Type 0) (f : Act (State E) Error Unit)
    → ((s : State E) → P s → P (f s).1)
    → (s : State E) → P s
    → P (v.retry_on_conflict f s).1

module _ {S : Type 0} where
  abbrev pub Keeps : {A : Type 0} → (S → Type 0) → (S → A × S) → Type 0
  Keeps P m = (s : S) → P s → P (m s).1

  pub bind-Keeps :
      {A B : Type 0} (P : S → Type 0) (m : Act S Error A) (f : A → Act S Error B)
      → Keeps P m
      → ((a : A) → Keeps P (f a))
      → Keeps P (m >>= f)
  bind-Keeps {A = A} {B = B} P m f h g s k = go (m s).0 (m s).1 (h s k)
    where
      go : (r : Outcome Error A) (s' : S) → P s' → P (continue r f s').1
      go (ok a) s' k' = g a s' k'
      go (fail e) s' k' = k'

module _ {E : Type 0} where
  -- A list of steps keeps what each step keeps.
  pub run_steps-Keeps :
      (P : World E → Type 0) (fs : List (Step E)) → All (λ f. Keeps P f) fs → Keeps P (run_steps fs)
  unfolding run_steps
  run_steps-Keeps P [] h w k = k
  run_steps-Keeps P (f ∷ fs) h w k =
      if-keeps P (should_halt_or_requeue (f w).0) ((f w).0.1, (f w).1) (run_steps fs (f w).1)
        (h.0 w k) (run_steps-Keeps P fs h.1 (f w).1 (h.0 w k))

  pub run_steps-cons :
      (P : World E → Type 0) (f : Step E) (fs : List (Step E))
      → Keeps P f
      → Keeps P (run_steps fs)
      → Keeps P (run_steps (f ∷ fs))
  unfolding run_steps
  run_steps-cons P f fs h g w k =
      if-keeps P (should_halt_or_requeue (f w).0) ((f w).0.1, (f w).1) (run_steps fs (f w).1)
        (h w k) (g (f w).1 (h w k))

  -- A step that continues goes on from `Q`, and one that halts keeps `P`.
  pub run_steps-next :
      (P Q : World E → Type 0) (f : Step E) (fs : List (Step E)) (w : World E)
      → P (f w).1
      → (should_halt_or_requeue (f w).0 ≡ false → Q (f w).1)
      → ((w' : World E) → Q w' → P (run_steps fs w').1)
      → P (run_steps (f ∷ fs) w).1
  unfolding run_steps
  run_steps-next P Q f fs w h k g = go (should_halt_or_requeue (f w).0) k
    where
      go :
          (b : Bool)
          → (b ≡ false → Q (f w).1)
          → P (if b then ((f w).0.1, (f w).1) else run_steps fs (f w).1).1
      go true q = h
      go false q = g (f w).1 (q refl)
