-- ===== src/Prelude/TextOrder.antt =====
-- The order `<` of Go's strings, and that two texts neither of which is before the other are equal.
use Prim.Native.Nat.{ℕ, Ordering, compare as compare_ℕ}
use Prim.Native.Char.{code}
use Prim.Native.String.compare
use Prim.Native.String.{String, [], ◌∷◌, compare, then}
use mathlib.Core.Path.{◌≡◌, refl, sym, ap, ◌∙◌, subst}
use mathlib.Core.Bool
use mathlib.Core.Bool.{Bool, true, false}
use text.Mathlib.Text.{is_lt}
use text.Mathlib.TextEquality.{path_by_compare}
use text.Mathlib.TextPositions.{compare_refl}
use native.Mathlib.Omega.{arith}

abbrev pub less : String → String → Bool
less s t = is_lt (compare s t)

abbrev IsGt : Ordering → Type 0
IsGt Ordering.lt = ⊥
IsGt Ordering.eq = ⊥
IsGt Ordering.gt = Unit

lt_not_gt : Ordering.lt ≡ Ordering.gt → ⊥
lt_not_gt h = subst IsGt (sym h) tt

eq_not_gt : Ordering.eq ≡ Ordering.gt → ⊥
eq_not_gt h = subst IsGt (sym h) tt

number_flip :
    (m n : ℕ)
    → (compare_ℕ m n ≡ Ordering.gt → compare_ℕ n m ≡ Ordering.lt)
      × (compare_ℕ m n ≡ Ordering.eq → compare_ℕ n m ≡ Ordering.eq)
number_flip m n = (λ h. ground arith, λ h. ground arith)

then_flip :
    (o o' r r' : Ordering)
    → (o ≡ Ordering.gt → o' ≡ Ordering.lt) × (o ≡ Ordering.eq → o' ≡ Ordering.eq)
    → (r ≡ Ordering.gt → r' ≡ Ordering.lt)
    → then o r ≡ Ordering.gt
    → then o' r' ≡ Ordering.lt
then_flip Ordering.lt o' r r' f g h = absurd (lt_not_gt h)
then_flip Ordering.eq o' r r' f g h = ap (λ o. then o r') (f.1 refl) ∙ g h
then_flip Ordering.gt o' r r' f g h = ap (λ o. then o r') (f.0 refl)

gt-flip : (s t : String) → compare s t ≡ Ordering.gt → compare t s ≡ Ordering.lt
gt-flip [] [] h = absurd (eq_not_gt (sym compare.nil-nil ∙ h))
gt-flip [] (d ∷ t) h = absurd (lt_not_gt (sym (compare.nil-cons d t) ∙ h))
gt-flip (c ∷ s) [] h = compare.nil-cons c s
gt-flip (c ∷ s) (d ∷ t) h =
    compare.cons-cons d c t s
    ∙ then_flip (compare_ℕ (code c) (code d)) (compare_ℕ (code d) (code c)) (compare s t)
        (compare t s) (number_flip (code c) (code d)) (gt-flip s t)
        (sym (compare.cons-cons c d s t) ∙ h)

pub less_antisymm : (s t : String) → less s t ≡ false → less t s ≡ false → s ≡ t
less_antisymm s t h k = go (compare s t) refl
  where
    go : (o : Ordering) → compare s t ≡ o → s ≡ t
    go Ordering.lt e = absurd (Bool.true≢false (sym (ap is_lt e) ∙ h))
    go Ordering.eq e = path_by_compare s t e
    go Ordering.gt e = absurd (Bool.true≢false (sym (ap is_lt (gt-flip s t e)) ∙ k))

pub less_irrefl : (s : String) → less s s ≡ false
less_irrefl s = ap is_lt (compare_refl s)
