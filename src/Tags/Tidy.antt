-- ===== src/Tags/Tidy.antt =====
-- Each tag that ParseTags reads is trimmed and in lower case.
use perses_operator.Prelude.{
  ◌≡◌, refl, ℕ, Bool, true, false, [], ◌∷◌, is_empty, arith, Bool-cases, inl, inr, leb, ltb, ◌&&◌,
  ◌||◌, if◌then◌else◌,
}
use perses_operator.Tags.{
  Text, text_eq, is_space, drop_spaces, drop_trailing, trim_space, to_lower, to_lower_rune,
}

pub text_eq_refl : (t : Text) → text_eq t t ≡ true
text_eq_refl [] = refl
text_eq_refl (c ∷ t) = ground (arith, text_eq_refl t)

pub text_eq_sound : (s t : Text) → text_eq s t ≡ true → s ≡ t
text_eq_sound [] [] h = refl
text_eq_sound [] (b ∷ t) h = absurd (ground (arith, h))
text_eq_sound (a ∷ s) [] h = absurd (ground (arith, h))
text_eq_sound (a ∷ s) (b ∷ t) h = elim (Bool-cases (text_eq s t)) [
  | inl e ↦ ground (arith, h, text_eq_sound s t e)
  | inr e ↦ absurd (ground (arith, h, e))
]

abbrev pub is_capital : ℕ → Bool
is_capital c = leb b'A' c && leb c b'Z'

abbrev pub has_capital : Text → Bool
has_capital [] = false
has_capital (c ∷ s) = is_capital c || has_capital s

abbrev pub starts_in_space : Text → Bool
starts_in_space [] = false
starts_in_space (c ∷ s) = is_space c

abbrev pub ends_in_space : Text → Bool
ends_in_space [] = false
ends_in_space (c ∷ []) = is_space c
ends_in_space (c ∷ d ∷ s) = ends_in_space (d ∷ s)

-- No space at either end, and no capital letter of ASCII.
abbrev pub IsTidy : Text → Type 0
IsTidy t = (starts_in_space t ≡ false) × (ends_in_space t ≡ false) × (has_capital t ≡ false)

-- What `unicode.ToLower` does beyond ASCII: no space comes of anything else, and no capital letter
-- of ASCII at all.
pub record LowersRunes (lower : ℕ → ℕ) : Type 0 where
  pub keeps_nonspace : (c : ℕ) → is_space c ≡ false → is_space (lower c) ≡ false
  pub no_capital : (c : ℕ) → ltb c 128 ≡ false → is_capital (lower c) ≡ false

starts-drop_spaces : (s : Text) → starts_in_space (drop_spaces s) ≡ false
starts-drop_spaces [] = refl
starts-drop_spaces (c ∷ s) = elim (Bool-cases (is_space c)) [
  | inl space ↦ rw space (starts-drop_spaces s)
  | inr other ↦ rw (other, other)
]

starts-drop_trailing :
    (s : Text) → starts_in_space s ≡ false → starts_in_space (drop_trailing s) ≡ false
starts-drop_trailing [] h = refl
starts-drop_trailing (c ∷ s) h = elim (Bool-cases (is_empty (drop_trailing s) && is_space c)) [
  | inl cut ↦ rw cut
  | inr other ↦ rw (other, h)
]

ends-cons :
    (c : ℕ) (rest : Text)
    → ends_in_space rest ≡ false
    → ends_in_space (if is_empty rest && is_space c then [] else c ∷ rest) ≡ false
ends-cons c [] h = elim (Bool-cases (is_space c)) [
  | inl space ↦ rw space
  | inr other ↦ rw (other, other)
]
ends-cons c (d ∷ rest) h = h

ends-drop_trailing : (s : Text) → ends_in_space (drop_trailing s) ≡ false
ends-drop_trailing [] = refl
ends-drop_trailing (c ∷ s) = ends-cons c (drop_trailing s) (ends-drop_trailing s)

module _ (lower : ℕ → ℕ) (runes : LowersRunes lower) where
  space-to_lower_rune : (c : ℕ) → is_space c ≡ false → is_space (to_lower_rune lower c) ≡ false
  unfolding to_lower_rune is_space
  space-to_lower_rune c h = ground (arith, h, runes.keeps_nonspace c h)

  capital-to_lower_rune : (c : ℕ) → is_capital (to_lower_rune lower c) ≡ false
  unfolding to_lower_rune
  capital-to_lower_rune c = elim (Bool-cases (ltb c 128)) [
    | inl ascii ↦ ground (arith, ascii)
    | inr other ↦ rw other (runes.no_capital c other)
  ]

  starts-to_lower :
      (s : Text) → starts_in_space s ≡ false → starts_in_space (to_lower lower s) ≡ false
  unfolding to_lower
  starts-to_lower [] h = refl
  starts-to_lower (c ∷ s) h = space-to_lower_rune c h

  ends-to_lower : (s : Text) → ends_in_space s ≡ false → ends_in_space (to_lower lower s) ≡ false
  unfolding to_lower
  ends-to_lower [] h = refl
  ends-to_lower (c ∷ []) h = space-to_lower_rune c h
  ends-to_lower (c ∷ d ∷ s) h = ends-to_lower (d ∷ s) h

  capital-to_lower : (s : Text) → has_capital (to_lower lower s) ≡ false
  unfolding to_lower
  capital-to_lower [] = refl
  capital-to_lower (c ∷ s) = rw (capital-to_lower_rune c) (capital-to_lower s)

  pub tidy : (p : Text) → IsTidy (to_lower lower (trim_space p))
  unfolding trim_space
  tidy p = (
    starts-to_lower (drop_trailing (drop_spaces p))
        (starts-drop_trailing (drop_spaces p) (starts-drop_spaces p)),
    ends-to_lower (drop_trailing (drop_spaces p)) (ends-drop_trailing (drop_spaces p)),
    capital-to_lower (drop_trailing (drop_spaces p)),
  )
