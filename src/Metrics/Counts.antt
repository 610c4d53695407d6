-- ===== src/Metrics/Counts.antt =====
-- What the tracker reports about the objects that it has seen.
use perses_operator.Prelude.{
  ◌+◌, ◌≡◌, ◌≢◌, String, true, false, Option, [], ◌∷◌, Dict, length, lookup, lookup-insert,
  lookup-remove, default, eq_iff, eq_refl, arith,
}
use perses_operator.Errors.{Error}
use perses_operator.Metrics.Tracker.{
  ReconciliationStatus, zero_status, Tracker, status_by_object, set_status, get_status,
  forget_object, count_ok, count_failed, collect,
}

module _ (key other : String) (rt : Tracker) where
  -- SetStatus records the error for its object with the reason and the message that stood there,
  -- from then on the object is known, and no other object's status changes.
  pub get_status-set_status :
      (err : Option Error)
      → key ≢ other
      → (get_status key (set_status key err rt)
          ≡ (record (get_status key rt).0 { err = err }, true))
        × (get_status other (set_status key err rt) ≡ get_status other rt)
  unfolding get_status set_status
  get_status-set_status err ne =
      let m = status_by_object rt in
      let st : ReconciliationStatus = record (default zero_status (lookup key m)) { err = err } in
      (
        ground (arith, lookup-insert key key st m, eq_refl key),
        ground (arith, lookup-insert key other st m, eq_iff key other),
      )

  -- After ForgetObject the object is unknown, and no other object's status changes.
  pub get_status-forget_object :
      (key ≢ other)
      → (get_status key (forget_object key rt) ≡ (zero_status, false))
        × (get_status other (forget_object key rt) ≡ get_status other rt)
  unfolding get_status forget_object lookup
  get_status-forget_object ne =
      let m = status_by_object rt in
      (
        ground (arith, lookup-remove key key m, eq_refl key),
        ground (arith, lookup-remove key other m, eq_iff key other),
      )

counts_add : (m : Dict ReconciliationStatus) → count_ok m + count_failed m ≡ length m
unfolding count_ok count_failed
counts_add [] = omega arith
counts_add ((k, st) ∷ m) = ground (arith, counts_add m)

-- The two counts that Collect emits add up to the number of objects that are tracked.
pub collect_total : (rt : Tracker) → (collect rt).0 + (collect rt).1 ≡ length (status_by_object rt)
unfolding collect
collect_total rt = counts_add (status_by_object rt)
