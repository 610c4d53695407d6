-- ===== src/Controller/Degraded.antt =====
-- How the loop over the instances ends.
use perses_operator.Prelude.{
  ◌≡◌, refl, ap, ◌∙◌, ◌⊎◌, inl, inr, Bool, true, false, some, List, [], ◌∷◌, ◌++◌, if◌then◌else◌,
  Bool-cases,
}
use perses_operator.Errors.{Error, new_reason_error, is_not_found}
use perses_operator.Subreconciler.{
  StepResult, empty_result, continue_reconciling, should_halt_or_requeue, should_requeue,
}
use perses_operator.Act.{Outcome, ok, fail, Outcome-cases}
use perses_operator.Api.{Resource}
use perses_operator.Api.Instance.{Perses}
use perses_operator.World.{Env, World}
use perses_operator.Sync.{Failure}
use perses_operator.Controller.{
  Kind, Request, sync_instances, set_status_to_degraded, update_status, update_fresh,
  degraded_update,
}

-- What is returned for the failure of an instance, by the outcome of the status update: the failure
-- with its reason, or the error of the update unless the resource is gone.
abbrev pub reported : Failure → Outcome Error Unit → StepResult
reported f (ok _) = (some empty_result, some (new_reason_error f.err f.reason))
reported f (fail e) =
    (some empty_result, some (if is_not_found e then new_reason_error f.err f.reason else e))

module _ {E C : Type 0} (v : Env E C) (k : Kind E) (req : Request) (d : Resource) where
  abbrev Available : Perses → Bool → Type 0
  Available p b = v.is_status_condition_true p.conditions "Available" ≡ b

  -- The instances are passed from one world to the other: one that is not available is left out,
  -- each other one is synchronised with success, in the order of the list.
  pub data Passes : List Perses → World E → World E → Type 0 where
    no_more : (w : World E) → Passes [] w w
    left_out :
        (p : Perses) (ps : List Perses) (w w' : World E)
        → Available p false
        → Passes ps w w'
        → Passes (p ∷ ps) w w'
    synced :
        (p : Perses) (ps : List Perses) (w w' w'' : World E)
        → Available p true
        → k.sync p d w ≡ (ok tt, w')
        → Passes ps w' w''
        → Passes (p ∷ ps) w w''

  -- Those before `p` are passed, `p` is available and fails, and with the status marked as degraded
  -- the loop is over.
  pub record FailsAt (is : List Perses) (w : World E) : Type 0 where
    pub before : List Perses
    pub p : Perses
    pub after : List Perses
    pub reached : World E
    pub left : World E
    pub f : Failure
    pub split : is ≡ before ++ (p ∷ after)
    pub passed : Passes before w reached
    pub available : Available p true
    pub failed : k.sync p d reached ≡ (fail f, left)
    pub ended :
        let marked =
          v.retry_on_conflict
            (update_fresh v k req (degraded_update v k req f.reason (v.error_text f.err)))
            left in
        sync_instances v k req d is w ≡ (reported f marked.0, marked.1)

  abbrev pub PassesAll : List Perses → World E → Type 0
  PassesAll is w =
      (w' : World E) × Passes is w w' × (sync_instances v k req d is w ≡ (continue_reconciling, w'))

  marked-reported :
      (p : Perses) (ps : List Perses) (w w' : World E) (f : Failure)
      → Available p true
      → k.sync p d w ≡ (fail f, w')
      → let marked =
          v.retry_on_conflict
            (update_fresh v k req (degraded_update v k req f.reason (v.error_text f.err)))
            w' in
        sync_instances v k req d (p ∷ ps) w ≡ (reported f marked.0, marked.1)
  unfolding sync_instances set_status_to_degraded update_status should_halt_or_requeue
  marked-reported p ps w w' f a failed =
      let m =
        v.retry_on_conflict
          (update_fresh v k req (degraded_update v k req f.reason (v.error_text f.err))) w' in
      elim (Outcome-cases m.0) [
        | inl (u, e) ↦ rw (a, failed, e)
        | inr (err, e) ↦ elim (Bool-cases (is_not_found err)) [
          | inl gone ↦ rw (a, failed, e, gone)
          | inr other ↦ rw (a, failed, e, other)
        ]
      ]

  step-left_out :
      (p : Perses) (ps : List Perses) (w : World E)
      → Available p false
      → sync_instances v k req d (p ∷ ps) w ≡ sync_instances v k req d ps w
  unfolding sync_instances
  step-left_out p ps w a = rw a

  step-synced :
      (p : Perses) (ps : List Perses) (w w' : World E)
      → Available p true
      → k.sync p d w ≡ (ok tt, w')
      → sync_instances v k req d (p ∷ ps) w ≡ sync_instances v k req d ps w'
  unfolding sync_instances should_halt_or_requeue should_requeue
  step-synced p ps w w' a good = rw (a, good)

  abbrev pub Ends : List Perses → World E → Type 0
  Ends is w = PassesAll is w ⊎ FailsAt is w

  Ends-left_out :
      (p : Perses) (ps : List Perses) (w : World E)
      → Available p false
      → Ends ps w
      → Ends (p ∷ ps) w
  Ends-left_out p ps w a (inl (w', passed, e)) =
      inl (w', left_out p ps w w' a passed, step-left_out p ps w a ∙ e)
  Ends-left_out p ps w a (inr h) = inr (record {
    before = p ∷ h.before;
    p = h.p;
    after = h.after;
    reached = h.reached;
    left = h.left;
    f = h.f;
    split = ap (λ (l : List Perses). p ∷ l) h.split;
    passed = left_out p h.before w h.reached a h.passed;
    available = h.available;
    failed = h.failed;
    ended = step-left_out p ps w a ∙ h.ended;
  })

  Ends-synced :
      (p : Perses) (ps : List Perses) (w w' : World E)
      → Available p true
      → k.sync p d w ≡ (ok tt, w')
      → Ends ps w'
      → Ends (p ∷ ps) w
  Ends-synced p ps w w' a good (inl (w'', passed, e)) =
      inl (w'', synced p ps w w' w'' a good passed, step-synced p ps w w' a good ∙ e)
  Ends-synced p ps w w' a good (inr h) = inr (record {
    before = p ∷ h.before;
    p = h.p;
    after = h.after;
    reached = h.reached;
    left = h.left;
    f = h.f;
    split = ap (λ (l : List Perses). p ∷ l) h.split;
    passed = synced p h.before w w' h.reached a good h.passed;
    available = h.available;
    failed = h.failed;
    ended = step-synced p ps w w' a good ∙ h.ended;
  })

  FailsAt-head :
      (p : Perses) (ps : List Perses) (w w' : World E) (f : Failure)
      → Available p true
      → k.sync p d w ≡ (fail f, w')
      → FailsAt (p ∷ ps) w
  FailsAt-head p ps w w' f a failed = record {
    before = [];
    p = p;
    after = ps;
    reached = w;
    left = w';
    f = f;
    split = refl;
    passed = no_more w;
    available = a;
    failed = failed;
    ended = marked-reported p ps w w' f a failed;
  }

  -- The loop either passes all instances, leaving out those that are not available, and continues;
  -- or there is a first available instance that fails: those before it are passed, none after it is
  -- touched, the status is marked as degraded with the reason and the message of the failure, and
  -- that failure is returned with its reason, or the error of the status update where that update
  -- fails on a resource that still exists.
  pub sync_instances-Ends : (is : List Perses) (w : World E) → Ends is w
  unfolding sync_instances
  sync_instances-Ends [] w = inl (w, no_more w, refl)
  sync_instances-Ends (p ∷ ps) w =
      elim (Bool-cases (v.is_status_condition_true p.conditions "Available")) [
        | inr away ↦ Ends-left_out p ps w away (sync_instances-Ends ps w)
        | inl a ↦
            let w' = (k.sync p d w).1 in
            let rest = sync_instances-Ends ps w' in
            elim (Outcome-cases (k.sync p d w).0) [
              | inl (u, good) ↦ Ends-synced p ps w w' a (λ i. (good i, w')) rest
              | inr (f, failed) ↦ inr (FailsAt-head p ps w w' f a (λ i. (failed i, w')))
            ]
      ]
