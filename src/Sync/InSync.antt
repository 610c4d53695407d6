-- ===== src/Sync/InSync.antt =====
-- The test that decides whether an object is written.
use perses_operator.Prelude.{
  ◌≡◌, refl, sym, true, List, [], ◌∷◌, default, arith, ◌↔◌, Bool-cases, inl, inr,
}
use mathlib.Core.Path.{subst}
use perses_operator.Api.{Opaque}
use perses_operator.Server.{IsLike}
use perses_operator.Tags.{Text, text_eq, mem_text}
use perses_operator.Tags.Tidy.{text_eq_refl, text_eq_sound}
use perses_operator.World.{Object, Env}
use perses_operator.Sync.{all_mem, tags_equal, in_sync}

all_mem→mem :
    (ts us : List Text)
    → all_mem ts us ≡ true
    → (t : Text) → mem_text t ts ≡ true
    → mem_text t us ≡ true
all_mem→mem [] us h t e = absurd (ground (arith, e))
all_mem→mem (s ∷ ts) us h t e = elim (Bool-cases (text_eq t s)) [
  | inl same ↦ subst (λ x. mem_text x us ≡ true) (sym (text_eq_sound t s same)) (ground (arith, h))
  | inr other ↦ all_mem→mem ts us (ground (arith, h)) t (ground (arith, e, other))
]

mem→all_mem :
    (ts us : List Text)
    → ((t : Text) → mem_text t ts ≡ true → mem_text t us ≡ true)
    → all_mem ts us ≡ true
mem→all_mem [] us h = refl
mem→all_mem (s ∷ ts) us h =
    let rest = mem→all_mem ts us (λ t e. h t (ground (arith, e))) in
    ground (arith, rest, h s (ground (arith, text_eq_refl s)))

-- Where DeepEqual is equality: an object is in sync with another exactly where it has as many tags,
-- all of them the other's, and the same specification.
pub in_sync_iff :
    {E C : Type 0} (v : Env E C)
    → ((s t : Opaque) → (v.deep_equal s t ≡ true) ↔ (s ≡ t))
    → (o desired : Object) → (in_sync v o desired ≡ true) ↔ IsLike desired o
unfolding in_sync tags_equal
in_sync_iff v e o desired =
    let mine = default [] o.tags in
    let others = default [] desired.tags in
    (
      λ h. (
        (ground (arith, h), all_mem→mem mine others (ground (arith, h))),
        (e o.spec desired.spec).0 (ground (arith, h)),
      ),
      λ l. ground (arith, l.0.0, mem→all_mem mine others l.0.1, (e o.spec desired.spec).1 l.1),
    )
