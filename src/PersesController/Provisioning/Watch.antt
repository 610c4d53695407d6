-- ===== src/PersesController/Provisioning/Watch.antt =====
-- The status that reconcileProvisioning writes, and the instances that a secret's change reconciles.
use mathlib.Core.Path.{subst}
use mathlib.Core.Logic.Or
use mathlib.Core.List.{
  Mem, Mem-prop, Perm, mem-cons_self, mem-cons_of_mem, eq-or-mem_of_mem-cons, not-mem-nil,
}
use mathlib.Core.List.Perm
use perses_operator.Prelude.{
  String, Bool, true, false, ◌≡◌, sym, ap, ◌∙◌, List, [], ◌∷◌, Dict, lookup, is_some, default,
  arith, if◌then◌else◌,
}
use perses_operator.Errors.{Error}
use perses_operator.Act.{Outcome, ok}
use perses_operator.Api.Instance.{Perses, ProvisioningSecret, SecretVersion}
use perses_operator.Controller.{Request}
use perses_operator.Workload.{Cluster, State}
use perses_operator.PersesController.Provisioning.{
  versions_of, references, request_of, requests_for, collect_versions, new_secret_versions,
}
use perses_operator.PersesController.Provisioning.Order.{IsRead, IsSorted, IsSorted-eq, Visits}
use perses_operator.PersesController.Provisioning.Collected.{
  IfOk, AllHeld, AllHeld-IsRead, collect-AllHeld, collect-Names, Names,
}

ok-of : {O : Type 0} (P : O → Type 0) (r : Outcome Error O) (o : O) → r ≡ ok o → IfOk P r → P o
ok-of P r o e h = subst (IfOk P) e h

IsRead-perm :
    (m : Dict String) (xs ys : List SecretVersion) → Perm xs ys → IsRead m ys → IsRead m xs
IsRead-perm m xs ys p h x e = h x ((Perm.mem_iff p).0 e)

module _ {E : Type 0} (v w : Cluster E) (m : Dict String) (a : Visits v m) (b : Visits w m) where
  -- Where `range` visits every entry of a map once, in any order, and `sort.Slice` orders by name, by
  -- any algorithm: two operators that only differ in these two make the same list of versions of a
  -- map that was collected. It is ordered by name, and every version is the one of the map.
  pub new_secret_versions-eq :
      (namespace : String) (refs : List ProvisioningSecret) (s : State E)
      → (collect_versions v namespace refs [] s).0 ≡ ok m
      → (new_secret_versions v m ≡ new_secret_versions w m)
        × (IsSorted (new_secret_versions v m) × IsRead m (new_secret_versions v m))
  unfolding new_secret_versions
  new_secret_versions-eq namespace refs s e =
      let held =
        ok-of (λ d. AllHeld d d) (collect_versions v namespace refs [] s).0 m e
          (collect-AllHeld v namespace refs [] s tt) in
      let read = AllHeld-IsRead m m held in
      let pv = Perm.trans a.sort_law a.range_law in
      let pw = Perm.trans b.sort_law b.range_law in
      (
        IsSorted-eq m (v.sort_by_name (versions_of (v.range m)))
            (w.sort_by_name (versions_of (w.range m))) a.sorted_law b.sorted_law
            (IsRead-perm m (w.sort_by_name (versions_of (w.range m))) (versions_of m) pw read)
            (Perm.trans pv (Perm.symm pw)),
        (
          a.sorted_law,
          IsRead-perm m (v.sort_by_name (versions_of (v.range m))) (versions_of m) pv read,
        ),
      )

requests_for-mem :
    (n : String) (p : Perses) (ps : List Perses)
    → Mem p ps
    → references n (default [] p.spec.provisioning) ≡ true
    → Mem (request_of p) (requests_for n ps)
unfolding requests_for
requests_for-mem n p [] h e = absurd (not-mem-nil h)
requests_for-mem n p (q ∷ ps) h e =
    Or.elim Mem-prop (eq-or-mem_of_mem-cons h)
      (λ l.
        first (references n (default [] q.spec.provisioning))
          (sym (ap (λ (z : Perses). references n (default [] z.spec.provisioning)) l) ∙ e)
          (ap request_of l))
      (λ l. later (references n (default [] q.spec.provisioning)) (requests_for-mem n p ps l e))
  where
    first :
        (b : Bool)
        → b ≡ true
        → request_of p ≡ request_of q
        → Mem (request_of p) (if b then request_of q ∷ requests_for n ps else requests_for n ps)
    first true k l =
        subst (λ (z : Request). Mem z (request_of q ∷ requests_for n ps)) (sym l) mem-cons_self
    first false k l = absurd (ground arith)

    later :
        (b : Bool)
        → Mem (request_of p) (requests_for n ps)
        → Mem (request_of p) (if b then request_of q ∷ requests_for n ps else requests_for n ps)
    later true m = mem-cons_of_mem (request_of q) m
    later false m = m

module _ {E : Type 0} (v : Cluster E) where
  -- If the versions of the secrets that an instance references were collected, and the map has one
  -- under a name, then a change of the secret of that name asks for a reconciliation of the
  -- instance, wherever it stands in the list of the namespace; and the map has one under every name
  -- that the instance references.
  pub requests_for-collected :
      (n namespace : String) (p : Perses) (ps : List Perses) (s : State E) (m : Dict String)
      → Mem p ps
      → (collect_versions v namespace (default [] p.spec.provisioning) [] s).0 ≡ ok m
      → (is_some (lookup n m) ≡ true → Mem (request_of p) (requests_for n ps))
        × (references n (default [] p.spec.provisioning) ≡ true → is_some (lookup n m) ≡ true)
  unfolding lookup
  requests_for-collected n namespace p ps s m h e =
      let refs = default [] p.spec.provisioning in
      let names =
        ok-of (Names v n refs []) (collect_versions v namespace refs [] s).0 m e
          (collect-Names v n namespace refs [] s) in
      (λ k. requests_for-mem n p ps h (ground arith), λ k. ground arith)
