-- ===== src/Server/Instances.antt =====
-- The loop over the Perses instances brings a resource to every instance that is available.
use perses_operator.Prelude.{
  ◌≡◌, ◌≢◌, sym, inl, inr, String, true, false, some, List, [], ◌∷◌, All, arith, Bool-cases,
}
use mathlib.Core.Path.{subst}
use perses_operator.Act.{Act, ok, Outcome-cases}
use perses_operator.Act.Triple.{Triple, Post}
use perses_operator.Api.{Resource, type_available_perses}
use perses_operator.Api.Instance.{Perses}
use perses_operator.Subreconciler.{StepResult, continue_reconciling, should_halt_or_requeue}
use perses_operator.World.{ObjectKind, Project, Env, World, Object}
use perses_operator.Sync.{Failure}
use perses_operator.Controller.{Kind, Request, set_status_to_degraded, sync_instances}
use perses_operator.Server.{IsServer}
use perses_operator.Server.Converge.{Any, HeldAt}
use perses_operator.Server.Steps.{Keeping}
use perses_operator.Server.Kept.{Held}

module _ {W F A : Type 0} where
  -- What a triple says of a run that succeeds.
  pub on_ok :
      {P R : W → Type 0} {Q : A → W → Type 0} {m : Act W F A} (t : Triple P m Q R) (w : W) (a : A)
      → P w
      → (m w).0 ≡ ok a
      → Q a (m w).1
  on_ok {R} {Q} {m} t w a h e = subst (λ s. Post Q R s (m w).1) e (t.at w h)

module _ {E C : Type 0} {v : Env E C} (server : IsServer v) (kind : Kind E) (req : Request)
    (k : ObjectKind) (p : Project) (o : Object) (d : Resource)
    (converges : (i : Perses)
      → Triple Any (kind.sync i d) (λ _. HeldAt server k p o (server.address i)) Any)
    (keeps : (i : Perses) (a : String) → Keeping v (Held server k p o a) (kind.sync i d)) where
  abbrev pub IsAvailable : Perses → Type 0
  IsAvailable i = v.is_status_condition_true i.conditions type_available_perses ≡ true

  -- A resource that was degraded is not reported as one to go on with.
  degraded-ne-continue :
      (f : Failure) (w : World E)
      → (set_status_to_degraded v kind req
          (some d)
          (some (record { requeue_after = 0 }))
          f.reason
          (some f.err)
          w).0
        ≢ continue_reconciling
  unfolding set_status_to_degraded
  degraded-ne-continue f w h = ground arith

  module _ (i : Perses) (is : List Perses) (w : World E)
      (done : (sync_instances v kind req d (i ∷ is) w).0 ≡ continue_reconciling) where
    skip_first :
        v.is_status_condition_true i.conditions type_available_perses ≡ false
        → sync_instances v kind req d (i ∷ is) w ≡ sync_instances v kind req d is w
    unfolding sync_instances
    skip_first h = rw h

    sync_first :
        v.is_status_condition_true i.conditions type_available_perses ≡ true
        → ((kind.sync i d w).0 ≡ ok tt)
          × (sync_instances v kind req d (i ∷ is) w
              ≡ sync_instances v kind req d is (kind.sync i d w).1)
    unfolding sync_instances should_halt_or_requeue
    sync_first h = elim (Outcome-cases (kind.sync i d w).0) [
      | inl (a, e) ↦ (e, ground arith)
      | inr (f, e) ↦ absurd (degraded-ne-continue f (kind.sync i d w).1 (ground arith))
    ]

  abbrev pub Continues : List Perses → World E → Type 0
  Continues is w = (sync_instances v kind req d is w).0 ≡ continue_reconciling

  -- A run of the loop, as its result and its world.
  abbrev pub Run : Type 0
  Run = StepResult × World E

  abbrev Ended : Run → Type 0
  Ended r = r.0 ≡ continue_reconciling

  abbrev pub At : String → Run → Type 0
  At a r = Held server k p o a r.1.env

  -- What a server held before the loop it holds after it.
  Held-through :
      (is : List Perses) (w : World E) (a : String)
      → Continues is w
      → Held server k p o a w.env
      → At a (sync_instances v kind req d is w)
  Held-through [] w a done h = unfold sync_instances in h
  Held-through (i ∷ is) w a done h =
      elim (Bool-cases (v.is_status_condition_true i.conditions type_available_perses)) [
        | inr off ↦
            let e = skip_first i is w done off in
            subst (At a) (sym e) (Held-through is w a (subst Ended e done) h)
        | inl on ↦
            let (good, e) = sync_first i is w done on in
            subst (At a) (sym e) (
              Held-through is (kind.sync i d w).1 a (subst Ended e done)
                (on_ok (keeps i a) w tt h good))
      ]

  abbrev pub AllHeld : List Perses → Run → Type 0
  AllHeld is r = All (λ i. IsAvailable i → At (server.address i) r) is

  -- A run that goes on has brought the object to each available instance.
  pub sync_instances_converge :
      (is : List Perses) (w : World E)
      → Continues is w
      → AllHeld is (sync_instances v kind req d is w)
  sync_instances_converge [] w done = tt
  sync_instances_converge (i ∷ is) w done =
      elim (Bool-cases (v.is_status_condition_true i.conditions type_available_perses)) [
        | inr off ↦
            let e = skip_first i is w done off in
            subst (AllHeld (i ∷ is)) (sym e)
              ((λ on. cc), sync_instances_converge is w (subst Ended e done))
        | inl on ↦
            let (good, e) = sync_first i is w done on in
            let w' = (kind.sync i d w).1 in
            let h = on_ok (converges i) w tt tt good in
            let ends = subst Ended e done in
            subst (AllHeld (i ∷ is)) (sym e) (
              (λ _. Held-through is w' (server.address i) ends h),
              sync_instances_converge is w' ends,
            )
      ]
