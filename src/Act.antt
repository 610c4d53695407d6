-- ===== src/Act.antt =====
-- Code that acts on a world and may end early: a Go function that returns an error as soon as a
-- call has one. What was done before the early return stays done.
pub mod Triple
use perses_operator.Prelude.{◌≡◌, refl, ◌⊎◌, inl, inr}

pub data Outcome {ℓ} (E A : Type ℓ) : Type ℓ where
  ok : A → Outcome E A
  fail : E → Outcome E A

abbrev pub Act {ℓ} : Type ℓ → Type ℓ → Type ℓ → Type ℓ
Act W E A = W → Outcome E A × W

module _ {ℓ} {W E A : Type ℓ} where
  abbrev pub pure : A → Act W E A
  pure a w = (ok a, w)

  abbrev pub halt : E → Act W E A
  halt e w = (fail e, w)

module _ {ℓ} {W E A B : Type ℓ} where
  abbrev pub continue : Outcome E A → (A → Act W E B) → Act W E B
  continue (ok a) f w = f a w
  continue (fail e) f w = (fail e, w)

  infixl 10 ◌>>=◌ ◌>>◌
  abbrev pub ◌>>=◌ : Act W E A → (A → Act W E B) → Act W E B
  ◌>>=◌ m f w = let (r, w') = m w in continue r f w'

  abbrev pub ◌>>◌ : Act W E A → Act W E B → Act W E B
  m >> n = m >>= λ _. n

-- What follows a call that returned an error: `if err != nil { return f(err) }`.
abbrev pub map_error {ℓ} : {E F A : Type ℓ} → (E → F) → Outcome E A → Outcome F A
map_error f (ok a) = ok a
map_error f (fail e) = fail (f e)

module _ {ℓ} {W E F A : Type ℓ} where
  abbrev pub or_halt : (E → F) → Act W E A → Act W F A
  or_halt f m w = let (r, w') = m w in (map_error f r, w')

  -- The result and the error of a call, both looked at by what follows.
  abbrev pub attempt : Act W E A → Act W F (Outcome E A)
  attempt m w = let (r, w') = m w in (ok r, w')

pub Outcome-cases {ℓ} :
    {E A : Type ℓ} (r : Outcome E A) → ((a : A) × (r ≡ ok a)) ⊎ ((e : E) × (r ≡ fail e))
Outcome-cases (ok a) = inl (a, refl)
Outcome-cases (fail e) = inr (e, refl)
