-- ===== src/Pod/Labels.antt =====
-- internal/perses/common/labels.go. A label is a text of bytes, which are characters where it is
-- ASCII, as the names of Kubernetes objects are.
pub mod Valid
use perses_operator.Prelude.{
  ℕ, zero, suc, String, Bool, true, false, not, ◌&&◌, ◌||◌, Option, none, some, List, [], ◌∷◌, Dict,
  lookup, insert, is_some, nat_eq, if◌then◌else◌, default, ◌==◌, ◌<>◌,
}
use perses_operator.Errors.{Error, plain}
use perses_operator.Act.{Outcome, ok, fail}
use perses_operator.Tags.{Text, codes, to_lower}
use perses_operator.Api.Instance.{Perses, PodMetadata}
use perses_operator.Pod.Volumes.{is_lower_alnum}

-- `strings.NewReplacer(" ", "-", "/", "-", ":", "-")`
abbrev pub replace_char : ℕ → ℕ
replace_char c = if nat_eq c b' ' || (nat_eq c b'/' || nat_eq c b':') then b'-' else c

abbrev pub replace : Text → Text
replace [] = []
replace (c ∷ s) = replace_char c ∷ replace s

-- The three repairs of sanitizeLabel: of the first character, of the length, of the last character.
abbrev pub fix_first : Text → Text
fix_first [] = []
fix_first (c ∷ s) = (if is_lower_alnum c then c else b'x') ∷ s

abbrev pub take : ℕ → Text → Text
take n [] = []
take zero (c ∷ s) = []
take (suc n) (c ∷ s) = c ∷ take n s

abbrev pub fix_last : Text → Text
fix_last [] = []
fix_last (c ∷ []) = (if is_lower_alnum c then c else b'x') ∷ []
fix_last (c ∷ d ∷ s) = c ∷ fix_last (d ∷ s)

-- `validation.LabelValueMaxLength`
abbrev pub label_value_max_length : ℕ
label_value_max_length = 63

-- `persesLabels[label] = value` where the label is not there yet.
unfoldable pub add_missing : Dict Text → Dict Text → Dict Text
add_missing [] labels = labels
add_missing ((label, value) ∷ more) labels =
    add_missing more (if is_some (lookup label labels) then labels else insert label value labels)

abbrev pub metadata_labels : Option PodMetadata → Dict Text
metadata_labels none = []
metadata_labels (some m) = m.labels

module _ (lower : ℕ → ℕ) where
  unfoldable pub sanitize_label : Text → Text
  sanitize_label label =
      fix_last (take label_value_max_length (fix_first (replace (to_lower lower label))))

  -- The labels that the operator sets itself.
  unfoldable pub own_labels : String → Perses → Dict Text
  own_labels name perses =
      ("app.kubernetes.io/name", sanitize_label (codes name))
      ∷ ("app.kubernetes.io/instance", sanitize_label (codes perses.name))
      ∷ ("app.kubernetes.io/part-of", codes "perses-operator")
      ∷ ("app.kubernetes.io/created-by", codes "controller-manager")
      ∷ ("app.kubernetes.io/managed-by", codes "perses-operator")
      ∷ []

  unfoldable pub labels_for_perses : String → Perses → Dict Text
  unfolding own_labels
  labels_for_perses name perses =
      add_missing (metadata_labels perses.spec.metadata) (own_labels name perses)

abbrev contains_char : ℕ → Text → Bool
contains_char c [] = false
contains_char c (d ∷ s) = nat_eq c d || contains_char c s

-- The image of the resource, or else that of the flag, which must have a tag.
unfoldable pub image_for_perses : Perses → String → Outcome Error String
image_for_perses perses image_from_flags =
    let own = default "" perses.spec.image in
    let image = if own == "" then image_from_flags else own in
    if image == ""
    then fail (
        plain
          "no image specified: set spec.image in the Perses CR or pass --perses-default-base-image")
    else if contains_char b':' (codes image)
    then ok image
    else fail (plain ("image \"" <> image <> "\" must include a tag (e.g. :v1.0.0)"))
