-- ===== src/Tags/Laws.antt =====
-- The tags that ParseTags returns are a set: those of the parts of the annotation.
use perses_operator.Prelude.{
  ◌≡◌, ℕ, String, true, false, some, List, [], ◌∷◌, Dict, lookup, is_empty, arith, ◌↔◌, ◌⊎◌, sym,
  Bool-cases, inl, inr, if◌then◌else◌,
}
use mathlib.Core.Path.{subst}
use perses_operator.Tags.{
  Text, text_eq, mem_text, add_tag, add_tags, parse_tags, tags_annotation, split_commas, codes,
  trim_space, to_lower,
}
use perses_operator.Tags.Tidy.{IsTidy, LowersRunes, text_eq_refl, text_eq_sound, tidy}

-- No text is empty or untidy, and none stands twice.
abbrev pub IsTagSet : List Text → Type 0
IsTagSet [] = Unit
IsTagSet (t ∷ ts) = (is_empty t ≡ false) × IsTidy t × (mem_text t ts ≡ false) × IsTagSet ts

module _ (lower : ℕ → ℕ) (runes : LowersRunes lower) where
  -- The tag of a part of the annotation.
  abbrev pub tag_of : Text → Text
  tag_of p = to_lower lower (trim_space p)

  insert-IsTagSet :
      (t : Text) (tags : List Text)
      → IsTidy t
      → IsTagSet tags
      → IsTagSet (if is_empty t then tags else add_tag t tags)
  insert-IsTagSet t tags h k = elim (Bool-cases (is_empty t)) [
    | inl empty ↦ rw empty k
    | inr filled ↦ elim (Bool-cases (mem_text t tags)) [
      | inl twice ↦ rw (filled, twice) k
      | inr once ↦ rw (filled, once) (filled, h, once, k)
    ]
  ]

  add_tags-IsTagSet :
      (ps : List Text) (tags : List Text) → IsTagSet tags → IsTagSet (add_tags lower ps tags)
  unfolding add_tags
  add_tags-IsTagSet [] tags h = h
  add_tags-IsTagSet (p ∷ ps) tags h =
      add_tags-IsTagSet ps _ (insert-IsTagSet (tag_of p) tags (tidy lower runes p) h)

  mem-add_tag :
      (t u : Text) (tags : List Text) → mem_text t tags ≡ true → mem_text t (add_tag u tags) ≡ true
  mem-add_tag t u tags h = elim (Bool-cases (mem_text u tags)) [
    | inl twice ↦ rw twice h
    | inr once ↦ rw once (ground (arith, h))
  ]

  mem-add_tag_itself : (t : Text) (tags : List Text) → mem_text t (add_tag t tags) ≡ true
  mem-add_tag_itself t tags = elim (Bool-cases (mem_text t tags)) [
    | inl twice ↦ rw (twice, twice)
    | inr once ↦ rw once (ground (arith, text_eq_refl t))
  ]

  mem-step :
      (t u : Text) (tags : List Text)
      → mem_text t tags ≡ true
      → mem_text t (if is_empty u then tags else add_tag u tags) ≡ true
  mem-step t u tags h = elim (Bool-cases (is_empty u)) [
    | inl empty ↦ rw empty h
    | inr filled ↦ rw filled (mem-add_tag t u tags h)
  ]

  mem-add_tags :
      (t : Text) (ps tags : List Text)
      → mem_text t tags ≡ true
      → mem_text t (add_tags lower ps tags) ≡ true
  unfolding add_tags
  mem-add_tags t [] tags h = h
  mem-add_tags t (p ∷ ps) tags h = mem-add_tags t ps _ (mem-step t (tag_of p) tags h)

  -- The text is the tag of one of the parts.
  abbrev pub IsTagOf : List Text → Text → Type 0
  IsTagOf ps t = (p : Text) × (mem_text p ps ≡ true) × (t ≡ tag_of p)

  covered :
      (ps tags : List Text) (p : Text)
      → mem_text p ps ≡ true
      → is_empty (tag_of p) ≡ false
      → mem_text (tag_of p) (add_tags lower ps tags) ≡ true
  unfolding add_tags
  covered [] tags p h filled = absurd (ground (arith, h))
  covered (q ∷ ps) tags p h filled = elim (Bool-cases (text_eq p q)) [
    | inl here ↦
        subst
          (λ x.
            mem_text (tag_of p)
              (add_tags lower ps (if is_empty (tag_of x) then tags else add_tag (tag_of x) tags))
            ≡ true)
          (text_eq_sound p q here)
          (mem-add_tags (tag_of p) ps _ (rw filled (mem-add_tag_itself (tag_of p) tags)))
    | inr away ↦ covered ps _ p (ground (arith, h, away)) filled
  ]

  from_step :
      (t u : Text) (tags : List Text)
      → mem_text t (if is_empty u then tags else add_tag u tags) ≡ true
      → (mem_text t tags ≡ true) ⊎ (t ≡ u)
  from_step t u tags h = elim (Bool-cases (mem_text t tags)) [
    | inl old ↦ inl old
    | inr new ↦ inr (text_eq_sound t u (ground (arith, h, new)))
  ]

  from_parts :
      (t : Text) (ps tags : List Text)
      → mem_text t (add_tags lower ps tags) ≡ true
      → (mem_text t tags ≡ true) ⊎ IsTagOf ps t
  unfolding add_tags
  from_parts t [] tags h = inl h
  from_parts t (p ∷ ps) tags h = elim (from_parts t ps _ h) [
    | inr (q, m, e) ↦ inr (q, ground (arith, m), e)
    | inl m ↦ elim (from_step t (tag_of p) tags m) [
      | inl old ↦ inl old
      | inr e ↦ inr (p, ground (arith, text_eq_refl p), e)
    ]
  ]

  member-filled :
      (t : Text) (tags : List Text) → IsTagSet tags → mem_text t tags ≡ true → is_empty t ≡ false
  member-filled t [] k h = absurd (ground (arith, h))
  member-filled t (u ∷ us) k h = elim (Bool-cases (text_eq t u)) [
    | inl same ↦ subst (λ x. is_empty x ≡ false) (sym (text_eq_sound t u same)) k.0
    | inr other ↦ member-filled t us k.3 (ground (arith, h, other))
  ]

  -- Where ToLower is as said beyond ASCII: the tags that are read from an annotation are not empty,
  -- have no space at either end and no capital letter of ASCII, and each stands once, however the
  -- annotation repeats them. They are exactly the texts that are not empty and come of a part
  -- between two commas, trimmed and in lower case.
  pub parse_tags-IsTagSet :
      (annotations : Dict String) (value : String) (tags : List Text)
      → lookup tags_annotation annotations ≡ some value
      → parse_tags lower annotations ≡ some tags
      → IsTagSet tags
        × ((t : Text)
            → (mem_text t tags ≡ true)
              ↔ ((is_empty t ≡ false) × IsTagOf (split_commas (codes value)) t))
  unfolding parse_tags
  parse_tags-IsTagSet annotations value tags found h =
      let ps = split_commas (codes value) in
      let set = add_tags-IsTagSet ps [] tt in
      subst
        (λ x.
          IsTagSet x × ((t : Text) → (mem_text t x ≡ true) ↔ ((is_empty t ≡ false) × IsTagOf ps t)))
        (ground (arith, h, found))
        (
          set,
          λ t. (
            λ m. (
              member-filled t (add_tags lower ps []) set m,
              elim (from_parts t ps [] m) [ inl none ↦ absurd (ground (arith, none)) | inr p ↦ p ],
            ),
            λ g.
                subst (λ x. mem_text x (add_tags lower ps []) ≡ true) (sym g.1.2)
                  (covered ps [] g.1.0 g.1.1 (subst (λ x. is_empty x ≡ false) g.1.2 g.0)),
          ),
        )
