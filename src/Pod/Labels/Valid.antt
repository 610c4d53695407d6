-- ===== src/Pod/Labels/Valid.antt =====
-- The labels are valid label values, and the operator's own ones are never replaced.
use perses_operator.Prelude.{
  ℕ, zero, suc, ◌≤◌, String, Bool, true, ◌&&◌, ◌||◌, ◌≡◌, refl, Option, none, some, [], ◌∷◌, Dict,
  All, length, lookup, insert, lookup-insert, nat_eq, arith, ap, eq_iff, leb, if◌then◌else◌,
}
use perses_operator.Tags.{Text, to_lower, to_lower_rune}
use perses_operator.Api.Instance.{Perses}
use perses_operator.Pod.Volumes.{is_lower_alnum}
use perses_operator.Pod.Labels.{
  replace, replace_char, fix_first, take, fix_last, sanitize_label, add_missing, own_labels,
  labels_for_perses, metadata_labels,
}

-- What a Kubernetes label value may hold, in lower case.
abbrev pub is_label_char : ℕ → Bool
is_label_char c = is_lower_alnum c || (nat_eq c b'-' || (nat_eq c b'_' || nat_eq c b'.'))

abbrev pub IsLabelText : Text → Type 0
IsLabelText s = All (λ c. is_label_char c ≡ true) s

-- The characters that a label is made of before it is sanitised.
abbrev pub is_name_char : ℕ → Bool
is_name_char c =
    is_label_char c
    || ((leb b'A' c && leb c b'Z') || (nat_eq c b' ' || (nat_eq c b'/' || nat_eq c b':')))

abbrev pub starts_alnum : Text → Bool
starts_alnum [] = true
starts_alnum (c ∷ s) = is_lower_alnum c

abbrev pub ends_alnum : Text → Bool
ends_alnum [] = true
ends_alnum (c ∷ []) = is_lower_alnum c
ends_alnum (c ∷ d ∷ s) = ends_alnum (d ∷ s)

take-length : (n : ℕ) (s : Text) → length (take n s) ≤ n
take-length n [] = ground arith
take-length zero (c ∷ s) = ground arith
take-length (suc n) (c ∷ s) = let ih = take-length n s in omega arith

fix_last-length : (s : Text) → length (fix_last s) ≡ length s
fix_last-length [] = refl
fix_last-length (c ∷ []) = refl
fix_last-length (c ∷ d ∷ s) = ap suc (fix_last-length (d ∷ s))

fix_last-ends : (s : Text) → ends_alnum (fix_last s) ≡ true
fix_last-ends [] = refl
fix_last-ends (c ∷ []) = ground arith
fix_last-ends (c ∷ d ∷ []) = fix_last-ends (d ∷ [])
fix_last-ends (c ∷ d ∷ e ∷ s) = fix_last-ends (d ∷ e ∷ s)

fix_first-starts : (s : Text) → starts_alnum (fix_first s) ≡ true
fix_first-starts [] = refl
fix_first-starts (c ∷ s) = ground arith

take-starts : (n : ℕ) (s : Text) → starts_alnum s ≡ true → starts_alnum (take n s) ≡ true
take-starts n [] h = refl
take-starts zero (c ∷ s) h = refl
take-starts (suc n) (c ∷ s) h = h

fix_last-starts : (s : Text) → starts_alnum s ≡ true → starts_alnum (fix_last s) ≡ true
fix_last-starts [] h = refl
fix_last-starts (c ∷ []) h = ground arith
fix_last-starts (c ∷ d ∷ s) h = h

x_or_same :
    (c : ℕ) → is_label_char c ≡ true → is_label_char (if is_lower_alnum c then c else b'x') ≡ true
x_or_same c h = ground arith

fix_first-valid : (s : Text) → IsLabelText s → IsLabelText (fix_first s)
fix_first-valid [] h = tt
fix_first-valid (c ∷ s) h = (x_or_same c h.0, h.1)

take-valid : (n : ℕ) (s : Text) → IsLabelText s → IsLabelText (take n s)
take-valid n [] h = tt
take-valid zero (c ∷ s) h = tt
take-valid (suc n) (c ∷ s) h = (h.0, take-valid n s h.1)

fix_last-valid : (s : Text) → IsLabelText s → IsLabelText (fix_last s)
fix_last-valid [] h = tt
fix_last-valid (c ∷ []) h = (x_or_same c h.0, tt)
fix_last-valid (c ∷ d ∷ s) h = (h.0, fix_last-valid (d ∷ s) h.1)

abbrev pub or_else : {V : Type 0} → Option V → Option V → Option V
or_else (some v) w = some v
or_else none w = w

module _ (lower : ℕ → ℕ) where
  char_valid :
      (c : ℕ) → is_name_char c ≡ true → is_label_char (replace_char (to_lower_rune lower c)) ≡ true
  unfolding to_lower_rune
  char_valid c h = ground arith

  replace_valid :
      (s : Text) → All (λ c. is_name_char c ≡ true) s → IsLabelText (replace (to_lower lower s))
  unfolding to_lower
  replace_valid [] h = tt
  replace_valid (c ∷ s) h = (char_valid c h.0, replace_valid s h.1)

  -- The text that sanitizeLabel makes of any text is at most 63 characters long, starts and ends
  -- with a lower-case letter or a digit where it is not empty, and, if the text given consists of
  -- ASCII letters, digits and `-_. /:`, consists of lower-case letters, digits and `-_.`: it is a
  -- valid label value.
  pub sanitize_label-IsLabelText :
      (s : Text)
      → (length (sanitize_label lower s) ≤ 63)
        × ((starts_alnum (sanitize_label lower s) ≡ true)
            × ((ends_alnum (sanitize_label lower s) ≡ true)
                × (All (λ c. is_name_char c ≡ true) s → IsLabelText (sanitize_label lower s))))
  unfolding sanitize_label
  sanitize_label-IsLabelText s =
      let t = fix_first (replace (to_lower lower s)) in
      let bound = take-length 63 t in
      let same = fix_last-length (take 63 t) in
      (
        omega arith,
        (
          fix_last-starts (take 63 t)
              (take-starts 63 t (fix_first-starts (replace (to_lower lower s)))),
          (
            fix_last-ends (take 63 t),
            λ h. fix_last-valid (take 63 t) (
                take-valid 63 t (fix_first-valid (replace (to_lower lower s)) (replace_valid s h))),
          ),
        ),
      )

or_none : {V : Type 0} (v : Option V) → v ≡ or_else v none
or_none none = refl
or_none (some v) = refl

-- The label that the operator sets, or else the one that is there.
lookup-add_missing :
    (k : String) (ls ms : Dict Text)
    → lookup k (add_missing ls ms) ≡ or_else (lookup k ms) (lookup k ls)
unfolding lookup add_missing
lookup-add_missing k [] ms = or_none (lookup k ms)
lookup-add_missing k ((l, v) ∷ ls) ms =
    let here = eq_iff l k in
    let ih = lookup-add_missing k ls ms in
    let more = lookup-add_missing k ls (insert l v ms) in
    let ins = lookup-insert l k v ms in ground arith

module _ (lower : ℕ → ℕ) where
  -- The label of every key is the one that the operator sets itself, or else, if it sets none, the
  -- one of the resource's metadata.
  pub lookup-labels_for_perses :
      (k name : String) (perses : Perses)
      → lookup k (labels_for_perses lower name perses)
        ≡ or_else
            (lookup k (own_labels lower name perses))
            (lookup k (metadata_labels perses.spec.metadata))
  unfolding labels_for_perses
  lookup-labels_for_perses k name perses =
      lookup-add_missing k (metadata_labels perses.spec.metadata) (own_labels lower name perses)
