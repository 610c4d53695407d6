-- ===== src/Tags.antt =====
-- internal/perses/common/tags.go: the tags of a resource, from its annotation. A text is walked as
-- a list of code points.
pub mod Tidy
pub mod Laws
use perses_operator.Prelude.{
  ℕ, ◌+◌, String, Bool, true, false, not, ◌&&◌, ◌||◌, Option, none, some, List, [], ◌∷◌, Dict,
  lookup, leb, ltb, nat_eq, if◌then◌else◌, is_empty,
}
use Prim.Native.Char.{code}

abbrev pub Text : Type 0
Text = List ℕ

-- The code points of a text.
abbrev pub codes : String → Text
codes String.[] = []
codes (String.◌∷◌ c s) = code c ∷ codes s

abbrev pub text_eq : Text → Text → Bool
text_eq [] [] = true
text_eq (a ∷ s) (b ∷ t) = nat_eq a b && text_eq s t
text_eq _ _ = false

-- `unicode.IsSpace`
unfoldable pub is_space : ℕ → Bool
is_space c =
    (leb 9 c && leb c 13)
    || nat_eq c 32
    || nat_eq c 0x85
    || nat_eq c 0xa0
    || nat_eq c 0x1680
    || (leb 0x2000 c && leb c 0x200a)
    || nat_eq c 0x2028
    || nat_eq c 0x2029
    || nat_eq c 0x202f
    || nat_eq c 0x205f
    || nat_eq c 0x3000

abbrev pub drop_spaces : Text → Text
drop_spaces [] = []
drop_spaces (c ∷ s) = let rest = drop_spaces s in if is_space c then rest else c ∷ s

-- A text without its trailing spaces.
abbrev pub drop_trailing : Text → Text
drop_trailing [] = []
drop_trailing (c ∷ s) =
    let rest = drop_trailing s in if is_empty rest && is_space c then [] else c ∷ rest

-- `strings.TrimSpace`
unfoldable pub trim_space : Text → Text
unfolding is_space
trim_space s = drop_trailing (drop_spaces s)

-- `strings.Split(raw, ",")`: never the empty list.
abbrev cons_head : ℕ → List Text → List Text
cons_head c [] = (c ∷ []) ∷ []
cons_head c (p ∷ ps) = (c ∷ p) ∷ ps

unfoldable pub split_commas : Text → List Text
split_commas [] = [] ∷ []
split_commas (c ∷ s) =
    let rest = split_commas s in if nat_eq c b',' then [] ∷ rest else cons_head c rest

abbrev pub mem_text : Text → List Text → Bool
mem_text t [] = false
mem_text t (u ∷ us) = text_eq t u || mem_text t us

-- `set.Set[string]` as a list that holds no text twice; `Add` leaves a member where it is.
abbrev pub add_tag : Text → List Text → List Text
add_tag t tags = if mem_text t tags then tags else t ∷ tags

abbrev pub tags_annotation : String
tags_annotation = "perses.dev/tags"

-- `lower` is what `unicode.ToLower` does with a code point beyond ASCII, whose table is not part of
-- the model.
module _ (lower : ℕ → ℕ) where
  unfoldable pub to_lower_rune : ℕ → ℕ
  to_lower_rune c = if ltb c 128 then (if leb b'A' c && leb c b'Z' then c + 32 else c) else lower c

  -- `strings.ToLower`
  unfoldable pub to_lower : Text → Text
  unfolding to_lower_rune
  to_lower [] = []
  to_lower (c ∷ s) = to_lower_rune c ∷ to_lower s

  -- The loop of ParseTags over the parts of the annotation.
  unfoldable pub add_tags : List Text → List Text → List Text
  add_tags [] tags = tags
  add_tags (p ∷ ps) tags =
      let t = to_lower (trim_space p) in add_tags ps (if is_empty t then tags else add_tag t tags)

  -- A nil set is `none`.
  unfoldable pub parse_tags : Dict String → Option (List Text)
  parse_tags annotations = elim (lookup tags_annotation annotations) [
    | none ↦ none
    | some value ↦ some (add_tags (split_commas (codes value)) [])
  ]
