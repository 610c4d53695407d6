-- ===== src/PersesController/Provisioning/Collected.antt =====
-- What the versions of the secrets are read from, and which instances a secret's change reconciles.
use mathlib.Core.Path.{subst}
use mathlib.Core.Logic.Or
use mathlib.Core.List.{eq-or-mem_of_mem-cons, not-mem-nil}
use mathlib.Core.Bool.{Bool-set}
use perses_operator.Prelude.{
  String, Bool, true, false, ◌||◌, ◌≡◌, refl, sym, ap, ◌∙◌, List, [], ◌∷◌, Dict, All, lookup,
  insert, remove, lookup-insert, lookup-same, is_some, ◌==◌, eq_iff, eq_refl, Bool-cases, inl, inr,
  arith, if◌then◌else◌,
}
use perses_operator.Errors.{Error}
use perses_operator.Act.{Act, Outcome, ok, fail, continue}
use perses_operator.Api.Instance.{ProvisioningSecret, SecretVersion}
use perses_operator.Workload.{Cluster, State, from_cluster}
use perses_operator.PersesController.Provisioning.{versions_of, references, collect_versions}
use perses_operator.PersesController.Provisioning.Order.{holds, IsRead}

abbrev pub IfOk : {O : Type 0} → (O → Type 0) → Outcome Error O → Type 0
IfOk P (ok o) = P o
IfOk P (fail e) = Unit

if-ok :
    {S O : Type 0} (P : O → Type 0) (b : Bool) (x y : Outcome Error O × S)
    → (b ≡ true → IfOk P x.0)
    → (b ≡ false → IfOk P y.0)
    → IfOk P (if b then x else y).0
if-ok P true x y h k = h refl
if-ok P false x y h k = k refl

IfOk-map :
    {O : Type 0} (P Q : O → Type 0) (r : Outcome Error O)
    → ((o : O) → P o → Q o)
    → IfOk P r
    → IfOk Q r
IfOk-map P Q (ok o) h k = h o k
IfOk-map P Q (fail e) h k = tt

continue-ok :
    {S A O : Type 0} (P : O → Type 0) (r : Outcome Error A) (f : A → Act S Error O) (s : S)
    → ((a : A) → IfOk P (f a s).0)
    → IfOk P (continue r f s).0
continue-ok P (ok a) f s h = h a
continue-ok P (fail e) f s h = tt

-- Every entry is the one that is found under its key.
abbrev pub AllHeld : Dict String → Dict String → Type 0
AllHeld m l = All (λ (x : String × String). holds m x.0 x.1 ≡ true) l

held-insert :
    (k j u w : String) (m : Dict String)
    → (j == k) ≡ false
    → holds m j u ≡ true
    → holds (insert k w m) j u ≡ true
held-insert k j u w m h e = ground (arith, lookup-insert k j w m, eq_iff k j, eq_iff j k)

held-same : (k w : String) (m : Dict String) → holds (insert k w m) k w ≡ true
held-same k w m = ground (arith, lookup-same k w m, eq_refl w)

AllHeld-remove :
    (k w : String) (m l : Dict String) → AllHeld m l → AllHeld (insert k w m) (remove k l)
unfolding remove
AllHeld-remove k w m [] h = tt
AllHeld-remove k w m ((j, u) ∷ l) h = go (j == k) refl (AllHeld-remove k w m l h.1)
  where
    go :
        (b : Bool)
        → (j == k) ≡ b
        → AllHeld (insert k w m) (remove k l)
        → AllHeld (insert k w m) (if b then remove k l else (j, u) ∷ remove k l)
    go true e rest = rest
    go false e rest = (held-insert k j u w m e h.0, rest)

AllHeld-insert :
    (k w : String) (m : Dict String) → AllHeld m m → AllHeld (insert k w m) ((k, w) ∷ remove k m)
AllHeld-insert k w m h = (held-same k w m, AllHeld-remove k w m m h)

insert_eq : (k w : String) (m : Dict String) → insert k w m ≡ (k, w) ∷ remove k m
unfolding insert
insert_eq k w m = refl

pub AllHeld-IsRead : (m l : Dict String) → AllHeld m l → IsRead m (versions_of l)
AllHeld-IsRead m [] h x e = absurd (not-mem-nil e)
AllHeld-IsRead m ((j, u) ∷ l) h x e =
    Or.elim (Bool-set _ _) (eq-or-mem_of_mem-cons e)
      (λ q. ap (λ (z : SecretVersion). holds m z.name z.version) q ∙ h.0)
      (λ q. AllHeld-IsRead m l h.1 x q)

module _ {E : Type 0} (v : Cluster E) where
  pub collect-AllHeld :
      (namespace : String) (refs : List ProvisioningSecret) (seen : Dict String) (s : State E)
      → AllHeld seen seen
      → IfOk (λ m. AllHeld m m) (collect_versions v namespace refs seen s).0
  unfolding collect_versions
  collect-AllHeld namespace [] seen s h = h
  collect-AllHeld namespace (r ∷ refs) seen s h =
      let read = from_cluster (v.secret_version namespace r.name) s in
      let go = λ (w : String). collect_versions v namespace refs (insert r.name w seen) in
      if-ok (λ m. AllHeld m m) (is_some (lookup r.name seen))
        (collect_versions v namespace refs seen s) (continue read.0 go read.1)
        (λ e. collect-AllHeld namespace refs seen s h)
        (λ e.
          continue-ok (λ m. AllHeld m m) read.0 go read.1
            (λ w. collect-AllHeld namespace refs (insert r.name w seen) read.1 (
              subst (AllHeld (insert r.name w seen)) (sym (insert_eq r.name w seen))
                (AllHeld-insert r.name w seen h))))

  -- Under which names the map that is collected has versions.
  abbrev pub Names : String → List ProvisioningSecret → Dict String → Dict String → Type 0
  Names n refs seen m = is_some (lookup n m) ≡ (references n refs || is_some (lookup n seen))

  Names-read :
      (n : String) (r : ProvisioningSecret) (refs : List ProvisioningSecret) (seen m : Dict String)
      (w : String)
      → Names n refs (insert r.name w seen) m
      → Names n (r ∷ refs) seen m
  Names-read n r refs seen m w h = ground (arith, lookup-insert r.name n w seen)

  Names-skipped :
      (n : String) (r : ProvisioningSecret) (refs : List ProvisioningSecret) (seen m : Dict String)
      → is_some (lookup r.name seen) ≡ true
      → Names n refs seen m
      → Names n (r ∷ refs) seen m
  Names-skipped n r refs seen m e h = elim (Bool-cases (r.name == n)) [
    | inl q ↦
        let here = sym (ap (λ k. is_some (lookup k seen)) ((eq_iff r.name n).0 q)) ∙ e in
        ground arith
    | inr q ↦ ground arith
  ]

  pub collect-Names :
      (n namespace : String) (refs : List ProvisioningSecret) (seen : Dict String) (s : State E)
      → IfOk (Names n refs seen) (collect_versions v namespace refs seen s).0
  unfolding collect_versions
  collect-Names n namespace [] seen s = refl
  collect-Names n namespace (r ∷ refs) seen s =
      let read = from_cluster (v.secret_version namespace r.name) s in
      let go = λ (w : String). collect_versions v namespace refs (insert r.name w seen) in
      if-ok (Names n (r ∷ refs) seen) (is_some (lookup r.name seen))
        (collect_versions v namespace refs seen s) (continue read.0 go read.1)
        (λ e.
          IfOk-map (Names n refs seen) (Names n (r ∷ refs) seen)
            (collect_versions v namespace refs seen s).0 (λ m. Names-skipped n r refs seen m e)
            (collect-Names n namespace refs seen s))
        (λ e. continue-ok (Names n (r ∷ refs) seen) read.0 go read.1 (λ w.
          IfOk-map (Names n refs (insert r.name w seen)) (Names n (r ∷ refs) seen) (go w read.1).0
            (λ m. Names-read n r refs seen m w)
            (collect-Names n namespace refs (insert r.name w seen) read.1)))
