-- ===== src/Sync/Quiet.antt =====
-- Actions that make no call to a Perses server.
use perses_operator.Prelude.{◌≡◌, refl, ◌∙◌}
use perses_operator.Errors.{Error}
use perses_operator.Act.{Act, Outcome, ok, fail, pure, halt, continue, or_halt, ◌>>=◌}
use perses_operator.World.{World, lift}

pub record IsQuiet {E F A : Type 0} (m : Act (World E) F A) : Type 0 where
  pub same_calls : (w : World E) → (m w).1.calls ≡ w.calls

module _ {E F A : Type 0} where
  pub IsQuiet-pure : (a : A) → IsQuiet {E = E} {F = F} (pure a)
  IsQuiet-pure a = record { same_calls = λ w. refl }

  pub IsQuiet-halt : (e : F) → IsQuiet {E = E} {A = A} (halt e)
  IsQuiet-halt e = record { same_calls = λ w. refl }

  pub IsQuiet-or_halt-lift : (f : Error → F) (m : Act E Error A) → IsQuiet (or_halt f (lift m))
  IsQuiet-or_halt-lift f m = record { same_calls = λ w. refl }

module _ {E F A B : Type 0} where
  quiet-continue :
      (r : Outcome F A) (w : World E) (f : A → Act (World E) F B)
      → ((a : A) → IsQuiet (f a))
      → (continue r f w).1.calls ≡ w.calls
  quiet-continue (ok a) w f k = (k a).same_calls w
  quiet-continue (fail e) w f k = refl

  pub IsQuiet-bind :
      (m : Act (World E) F A) (f : A → Act (World E) F B)
      → IsQuiet m
      → ((a : A) → IsQuiet (f a))
      → IsQuiet (m >>= f)
  IsQuiet-bind m f q k = record {
    same_calls = λ w. quiet-continue (m w).0 (m w).1 f k ∙ q.same_calls w;
  }

pub ruleset quiet_rules = (IsQuiet-pure, IsQuiet-halt, IsQuiet-or_halt-lift, IsQuiet-bind)
