-- ===== src/Controller/Recorded.antt =====
-- What the tracker and the counts hold after a reconciliation of a resource that was found.
use perses_operator.Prelude.{◌≡◌, refl, true, Option, none, some, lookup, lookup-same}
use mathlib.Core.Path.{subst}
use perses_operator.Errors.{Error}
use perses_operator.Subreconciler.{empty_result, evaluate}
use perses_operator.Api.{Resource}
use perses_operator.Metrics.{Metrics, synced, failed, objects_of, ResourceState}
use perses_operator.Metrics.Tracker.{Tracker, get_status, set_status, set_reason_and_message}
use perses_operator.Metrics.Forget.{key_of, set_failed-recorded, set_synced-recorded}
use perses_operator.World.{Env, World}
use perses_operator.Controller.{Kind, Request, object_key}
use perses_operator.Controller.Reconcile.{
  track_status, track_metrics, reconcile_found, final_result, run_steps, found_steps, when_some,
}

abbrev pub state_of : Option Error → ResourceState
state_of none = synced
state_of (some e) = failed

when_some-through :
    {A : Type 0} (P : A → Type 0) (f : A → A)
    → ((a : A) → P (f a))
    → (o : Option A) (x : A) → when_some f o ≡ some x
    → P x
when_some-through P f h none x e = absurd (cc e)
when_some-through P f h (some a) x e = subst P (some_eq e) (h a)
  where
    some_eq : {B : Type 0} → {b c : B} → Option.some b ≡ some c → b ≡ c
    some_eq e = cc e

module _ {E C : Type 0} (v : Env E C) (k : Kind E) (req : Request) where
  -- The tracker knows the object and holds `err` for it; the object counts once in the state that
  -- `err` stands for.
  abbrev pub IsTracked : Option Error → Tracker → Type 0
  IsTracked err rt =
      ((get_status (object_key req) rt).0.err ≡ err) × ((get_status (object_key req) rt).1 ≡ true)

  abbrev pub IsCounted : Option Error → Metrics → Type 0
  IsCounted err m =
      lookup (object_key req)
        (objects_of (key_of k.resource (k.metrics_namespace req) (state_of err)) m.resources)
      ≡ some 1

  track_status-IsTracked :
      (err : Option Error) (rt : Tracker) → IsTracked err (track_status v k req err rt)
  unfolding track_status get_status set_status set_reason_and_message
  track_status-IsTracked none rt = rw (lookup-same, get_status, lookup-same) (refl, refl)
  track_status-IsTracked (some e) rt =
      rw (track_status, set_status, get_status, lookup-same) (refl, refl)

  track_metrics-IsCounted :
      (err : Option Error) (m : Metrics) → IsCounted err (track_metrics v k req err m)
  unfolding track_metrics
  track_metrics-IsCounted none m =
      set_synced-recorded (object_key req) k.resource (k.metrics_namespace req) 1 m
  track_metrics-IsCounted (some e) m =
      set_failed-recorded (object_key req) k.resource (k.metrics_namespace req) 1 _

  returns : (err : Option Error) → evaluate (final_result v k req err) ≡ some (empty_result, err)
  unfolding evaluate
  returns none = refl
  returns (some e) = refl

  -- However the reconciliation of a resource that was found ends, Reconcile returns the empty result
  -- with an error or none, and this same outcome is what the tracker, where there is one, holds for
  -- the object, and the state in which the metrics, where there are any, count it.
  pub reconcile_found_recorded :
      (d : Resource) (w : World E)
      → let (r, w') = reconcile_found v k req d w in
        (err : Option Error) × (r ≡ some (empty_result, err))
        × ((rt : Tracker) → w'.tracker ≡ some rt → IsTracked err rt)
        × ((m : Metrics) → w'.metrics ≡ some m → IsCounted err m)
  unfolding reconcile_found
  reconcile_found_recorded d w =
      let (err, w') = run_steps (found_steps v k req d) w in
      (
        err,
        returns err,
        when_some-through (IsTracked err) (track_status v k req err) (track_status-IsTracked err)
            w'.tracker,
        when_some-through (IsCounted err) (track_metrics v k req err) (track_metrics-IsCounted err)
            w'.metrics,
      )
