-- ===== src/Workload/Settled.antt =====
-- What is on the API server once a sub-reconciler of an owned object has run.
pub mod Workloads
use perses_operator.Prelude.{
  Bool, true, false, not, ◌≡◌, refl, sym, ap, ◌∙◌, ◌⊎◌, inl, inr, Option, none, some, List, ◌∷◌,
  String, if◌then◌else◌, Option-cases, Bool-cases, arith,
}
use mathlib.Core.Path.{subst}
use perses_operator.Errors.{Error, api_error, not_found, is_not_found}
use perses_operator.Subreconciler.{StepResult, continue_reconciling, requeue_with_error}
use perses_operator.Act.{Act, Outcome, ok, fail}
use perses_operator.Api.Instance.{Perses}
use perses_operator.Controller.{Step}
use perses_operator.Workload.{
  Cluster, Memory, State, Objects, ObjectMeta, full_update, dry_run, creation,
}
use perses_operator.Workload.Child.{
  Child, create_child, update_child, ensure_got, ensure, update_filled, built, done_with,
}

abbrev pub got : {O : Type 0} → Option O → Outcome Error O
got none = fail (api_error not_found "")
got (some o) = ok o

-- An API server that answers. It holds objects by name and namespace, and `look` is the one under a
-- key. Given what it holds under an object's own key, `accepts` is its validation of that object when
-- it is sent, which may refuse a creation or the change of an immutable field such as the selector,
-- and `fill` is what it makes of the object, with the fields that it sets itself. `stored` and `drop` are
-- its states with an object, and without one.
pub record Answers {E O : Type 0} (objects : Objects E O) (meta : O → ObjectMeta) : Type 0 where
  pub look : String → String → E → Option O
  pub accepts : Option O → O → Bool
  pub fill : Option O → O → O
  pub stored : O → E → E
  pub drop : String → String → E → E
  pub get_law : (n ns : String) (e : E) → objects.get n ns e ≡ (got (look n ns e), e)
  pub create_law :
      (o : O) (e : E)
      → look (meta o).name (meta o).namespace e ≡ none
      → accepts none o ≡ true
      → objects.create o e ≡ (ok tt, stored (fill none o) e)
  pub dry_run_law :
      (o found : O) (e : E)
      → look (meta o).name (meta o).namespace e ≡ some found
      → accepts (some found) o ≡ true
      → objects.update_dry_run o e ≡ (ok (fill (some found) o), e)
  pub update_law :
      (o found : O) (e : E)
      → look (meta o).name (meta o).namespace e ≡ some found
      → accepts (some found) o ≡ true
      → objects.update o e ≡ (ok tt, stored (fill (some found) o) e)
  pub delete_law :
      (n ns : String) (found : O) (e : E)
      → look n ns e ≡ some found
      → objects.delete found e ≡ (ok tt, drop n ns e)
  -- What was filled in is accepted as it is, under the same key.
  pub fill_again : (found o : O) → fill (some found) (fill (some found) o) ≡ fill (some found) o
  pub fill_accepted :
      (found o : O)
      → accepts (some found) o ≡ true
      → accepts (some found) (fill (some found) o) ≡ true
  pub fill_name : (m : Option O) (o : O) → (meta (fill m o)).name ≡ (meta o).name
  pub fill_namespace : (m : Option O) (o : O) → (meta (fill m o)).namespace ≡ (meta o).namespace
  pub put_law : (o : O) (e : E) → look (meta o).name (meta o).namespace (stored o e) ≡ some o
  pub drop_law : (n ns : String) (e : E) → look n ns (drop n ns e) ≡ none

module _ {E O : Type 0} (v : Cluster E) (c : Child E O) {meta : O → ObjectMeta}
    (a : Answers c.objects meta) where
  -- What is held under the key of an object.
  abbrev there : O → State E → Option O
  there o s = a.look (meta o).name (meta o).namespace s.env.cluster

  -- Under its key the server holds the object built, as it makes it of the object and of what it
  -- held before, or one that needs no update to that.
  abbrev pub IsSettled : Option O → O → State E → Type 0
  IsSettled m o s =
      (found : O) × (there o s ≡ some found)
      × ((found ≡ a.fill m o) ⊎ (c.needs_update s.env.perses found (a.fill m o) ≡ false))

  abbrev Settles : Option O → O → StepResult × State E → Type 0
  Settles m o x = ((x.0 ≡ c.created) ⊎ (x.0 ≡ continue_reconciling)) × IsSettled m o x.1

  filled-there :
      (m : Option O) (o : O) (e : E)
      → a.look (meta o).name (meta o).namespace (a.stored (a.fill m o) e) ≡ some (a.fill m o)
  filled-there m o e =
      subst (λ n. a.look n (meta o).namespace (a.stored (a.fill m o) e) ≡ some (a.fill m o))
        (a.fill_name m o)
        (subst
          (λ ns. a.look (meta (a.fill m o)).name ns (a.stored (a.fill m o) e) ≡ some (a.fill m o))
          (a.fill_namespace m o) (a.put_law (a.fill m o) e))

  found-again :
      (m : Option O) (o : O) (e : E) (r : Option O)
      → a.look (meta o).name (meta o).namespace e ≡ r
      → a.look (meta (a.fill m o)).name (meta (a.fill m o)).namespace e ≡ r
  found-again m o e r h =
      ap (λ n. a.look n (meta (a.fill m o)).namespace e) (a.fill_name m o)
      ∙ ap (λ ns. a.look (meta o).name ns e) (a.fill_namespace m o)
      ∙ h

  create-settled :
      (o : O) (s : State E)
      → there o s ≡ none
      → a.accepts none o ≡ true
      → Settles none o (create_child v c (ok o) s)
  unfolding create_child
  create-settled o s h k =
      subst
        (λ (x : Outcome Error Unit × E). Settles none o (
          done_with v c c.created x.0,
          record s {
            env = record s.env { cluster = x.1; writes = c.write creation o ∷ s.env.writes };
          },
        ))
        (sym (a.create_law o s.env.cluster h k))
        (inl refl, (a.fill none o, filled-there none o s.env.cluster, inl refl))

  updated-settled :
      (o found : O) (s : State E)
      → there o s ≡ some found
      → (b : Bool) → c.needs_update s.env.perses found (a.fill (some found) o) ≡ b
      → (x : Outcome Error Unit × E) → x ≡ (ok tt, a.stored (a.fill (some found) o) s.env.cluster)
      → Settles (some found) o (
          if b
          then (
            done_with v c continue_reconciling x.0,
            record s {
              env = record s.env {
                cluster = x.1;
                writes = c.write full_update (a.fill (some found) o) ∷ s.env.writes;
              };
            },
          )
          else (continue_reconciling, s))
  updated-settled o found s h true e x l =
      subst
        (λ (x : Outcome Error Unit × E). Settles (some found) o (
          done_with v c continue_reconciling x.0,
          record s {
            env = record s.env {
              cluster = x.1;
              writes = c.write full_update (a.fill (some found) o) ∷ s.env.writes;
            };
          },
        ))
        (sym l)
        (inr refl, (a.fill (some found) o, filled-there (some found) o s.env.cluster, inl refl))
  updated-settled o found s h false e x l = (inr refl, (found, h, inr e))

  -- The update sends what the dry run answered, which the server stores as it is.
  update-answered :
      (o found : O) (e : E)
      → a.look (meta o).name (meta o).namespace e ≡ some found
      → a.accepts (some found) o ≡ true
      → c.objects.update (a.fill (some found) o) e ≡ (ok tt, a.stored (a.fill (some found) o) e)
  update-answered o found e h k =
      a.update_law (a.fill (some found) o) found e (found-again (some found) o e (some found) h)
        (a.fill_accepted found o k)
      ∙ ap (λ x. (ok tt, a.stored x e)) (a.fill_again found o)

  update-settled :
      (o found : O) (s : State E)
      → there o s ≡ some found
      → a.accepts (some found) o ≡ true
      → Settles (some found) o (update_child v c found (ok o) s)
  unfolding update_child
  update-settled o found s h k =
      subst
        (λ (x : Outcome Error O × E). Settles (some found) o (
          update_filled v c found x.0 (record s {
            env = record s.env { cluster = x.1; writes = c.write dry_run o ∷ s.env.writes };
          })))
        (sym (a.dry_run_law o found s.env.cluster h k))
        (updated-settled o found
          (record s { env = record s.env { writes = c.write dry_run o ∷ s.env.writes } }) h
          (c.needs_update s.env.perses found (a.fill (some found) o)) refl
          (c.objects.update (a.fill (some found) o) s.env.cluster)
          (update-answered o found s.env.cluster h k))

  ensure_got-settled :
      (m : Option O) (o : O) (s : State E)
      → there o s ≡ m
      → a.accepts m o ≡ true
      → (c.build s.env.perses).0 ≡ ok o
      → Settles m o (ensure_got v c (got m) s)
  unfolding ensure_got is_not_found
  ensure_got-settled none o s h k b =
      let s' = (built v c s).1 in
      subst (λ (r : Outcome Error O). Settles none o (create_child v c r s')) (sym b)
        (create-settled o s' h k)
  ensure_got-settled (some found) o s h k b =
      let s' = (built v c s).1 in
      subst (λ (r : Outcome Error O). Settles (some found) o (update_child v c found r s')) (sym b)
        (update-settled o found s' h k)

  -- Where the API server answers as Answers says: if the object is built from the resource under the
  -- key that the sub-reconciler reads, and the server accepts it given what it holds there, then the
  -- sub-reconciler returns its normal result, and under that key the server holds the object as it
  -- fills it in, or one that does not differ from it in what the operator compares.
  pub ensure-IsSettled :
      (o : O) (s : State E)
      → let p = s.env.perses in
        let m = a.look (c.object_name p) p.namespace s.env.cluster in
        (c.build p).0 ≡ ok o
        → (meta o).name ≡ c.object_name p
        → (meta o).namespace ≡ p.namespace
        → a.accepts m o ≡ true
        → (((ensure v c s).0 ≡ c.created) ⊎ ((ensure v c s).0 ≡ continue_reconciling))
          × IsSettled m o (ensure v c s).1
  unfolding ensure
  ensure-IsSettled o s b n ns k =
      let p = s.env.perses in
      let m = a.look (c.object_name p) p.namespace s.env.cluster in
      let here : there o s ≡ m =
        ap (λ x. a.look x (meta o).namespace s.env.cluster) n
        ∙ ap (λ x. a.look (c.object_name p) x s.env.cluster) ns in
      subst
        (λ (x : Outcome Error O × E).
          Settles m o (ensure_got v c x.0 (record s { env = record s.env { cluster = x.1 } })))
        (sym (a.get_law (c.object_name p) p.namespace s.env.cluster))
        (ensure_got-settled m o s here k b)
