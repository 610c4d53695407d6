-- ===== src/PersesController/Provisioning/Order.antt =====
-- The versions of the secrets do not depend on the order in which Go visits the map.
use mathlib.Core.Path.{subst, ap₂}
use mathlib.Core.Bool.{Bool-set}
use mathlib.Core.Logic.Or
use mathlib.Core.List.{Mem, Perm, mem-cons_self, mem-cons_of_mem, eq-or-mem_of_mem-cons}
use mathlib.Core.List.Perm
use perses_operator.Prelude.{
  String, Bool, true, false, ◌≡◌, sym, ap, ◌∙◌, List, [], ◌∷◌, Dict, none, some, lookup, ◌==◌,
  eq_iff, Option-cases, inl, inr, arith,
}
use perses_operator.Prelude.TextOrder.{less, less_antisymm, less_irrefl}
use perses_operator.Api.Instance.{SecretVersion}
use perses_operator.Workload.{Cluster}
use perses_operator.PersesController.Provisioning.{versions_of}

-- No later element is before an earlier one, by name: what `sort.Slice` promises.
abbrev pub IsSorted : List SecretVersion → Type 0
IsSorted [] = Unit
IsSorted (x ∷ xs) = ((y : SecretVersion) → Mem y xs → less y.name x.name ≡ false) × IsSorted xs

-- The map holds this version under this name.
abbrev pub holds : Dict String → String → String → Bool
holds m name version = elim (lookup name m) [ none ↦ false | some w ↦ w == version ]

-- Every version is the one that the map holds under its name.
abbrev pub IsRead : Dict String → List SecretVersion → Type 0
IsRead m xs = (x : SecretVersion) → Mem x xs → holds m x.name x.version ≡ true

same_version :
    (m : Dict String) (name u w : String) → holds m name u ≡ true → holds m name w ≡ true → u ≡ w
same_version m name u w h k = elim (Option-cases (lookup name m)) [
  | inl e ↦ absurd (ground arith)
  | inr (t, e) ↦ sym ((eq_iff t u).0 (ground arith)) ∙ (eq_iff t w).0 (ground arith)
]

same_name :
    (m : Dict String) (x y : SecretVersion)
    → holds m x.name x.version ≡ true
    → holds m y.name y.version ≡ true
    → x.name ≡ y.name
    → x ≡ y
same_name m x y h k e =
    let here = subst (λ n. holds m n x.version ≡ true) e h in
    ap₂ (λ (n : String) (w : String). record { name = n; version = w }) e
      (same_version m y.name x.version y.version here k)

heads_le :
    (x y : SecretVersion) (xs ys : List SecretVersion)
    → IsSorted (x ∷ xs)
    → Perm (y ∷ ys) (x ∷ xs)
    → less y.name x.name ≡ false
heads_le x y xs ys s p =
    Or.elim (Bool-set _ _) (eq-or-mem_of_mem-cons ((Perm.mem_iff p).0 mem-cons_self))
      (λ e. ap (λ (z : SecretVersion). less z.name x.name) e ∙ less_irrefl x.name) (λ m. s.0 y m)

pub IsSorted-eq :
    (m : Dict String) (xs ys : List SecretVersion)
    → IsSorted xs
    → IsSorted ys
    → IsRead m ys
    → Perm xs ys
    → xs ≡ ys
IsSorted-eq m [] ys s t d p = Perm.nil-eq p
IsSorted-eq m (x ∷ xs) [] s t d p = Perm.eq-nil p
IsSorted-eq m (x ∷ xs) (y ∷ ys) s t d p =
    let names_eq =
      less_antisymm x.name y.name (heads_le y x ys xs t p) (heads_le x y xs ys s (Perm.symm p)) in
    let heads =
      same_name m x y (d x ((Perm.mem_iff p).0 mem-cons_self)) (d y mem-cons_self) names_eq in
    let tails = Perm.cons_inv (Perm.trans p (Perm.symm (Perm.cons' heads Perm.rfl))) in
    ap₂ ◌∷◌ heads (IsSorted-eq m xs ys s.1 t.1 (λ z h. d z (mem-cons_of_mem y h)) tails)

-- `range` visits every entry of the map, and `sort.Slice` orders the list that it is given.
pub record Visits {E : Type 0} (v : Cluster E) (m : Dict String) : Type 0 where
  pub range_law : Perm (versions_of (v.range m)) (versions_of m)
  pub sort_law : Perm (v.sort_by_name (versions_of (v.range m))) (versions_of (v.range m))
  pub sorted_law : IsSorted (v.sort_by_name (versions_of (v.range m)))
