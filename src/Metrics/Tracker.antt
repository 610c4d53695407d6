-- ===== src/Metrics/Tracker.antt =====
-- internal/metrics/reconciliation_tracker.go: the last outcome of each object. The mutex makes each
-- method atomic, so a method is a function of the map.
use perses_operator.Prelude.{
  ℕ, ◌+◌, String, Bool, Option, none, some, [], ◌∷◌, Dict, lookup, insert, remove, default, is_some,
  not, if◌then◌else◌,
}
use perses_operator.Errors.{Error}

pub record ReconciliationStatus : Type 0 where
  pub err : Option Error
  pub reason : String
  pub message : String

abbrev pub zero_status : ReconciliationStatus
zero_status = record { err = none; reason = ""; message = "" }

-- `statusByObject`; `none` is the nil map, before `init` ran.
abbrev pub Tracker : Type 0
Tracker = Option (Dict ReconciliationStatus)

abbrev pub new_reconciliation_tracker : Tracker
new_reconciliation_tracker = none

-- `init`, run once
abbrev pub status_by_object : Tracker → Dict ReconciliationStatus
status_by_object rt = default [] rt

unfoldable pub is_ok : ReconciliationStatus → Bool
is_ok rs = not (is_some rs.err)

unfoldable pub reason_of : ReconciliationStatus → String
unfolding is_ok
reason_of rs = if is_ok rs then rs.reason else "ReconciliationFailed"

-- `error_text` is the method `Error()` of an error.
unfoldable pub message_of : (Error → String) → ReconciliationStatus → String
message_of error_text rs = elim rs.err [ none ↦ rs.message | some e ↦ error_text e ]

-- `rt.statusByObject[key]`, whose zero value stands for a missing key.
abbrev status_at : String → Tracker → ReconciliationStatus
status_at key rt = default zero_status (lookup key (status_by_object rt))

unfoldable pub set_status : String → Option Error → Tracker → Tracker
set_status key err rt =
    some (insert key (record (status_at key rt) { err = err }) (status_by_object rt))

unfoldable pub set_reason_and_message : String → String → String → Tracker → Tracker
set_reason_and_message key reason message rt = some (
    insert key (record (status_at key rt) { reason = reason; message = message })
      (status_by_object rt))

unfoldable pub get_status : String → Tracker → ReconciliationStatus × Bool
get_status key rt = elim (lookup key (status_by_object rt)) [
  | none ↦ (zero_status, Bool.false)
  | some s ↦ (s, Bool.true)
]

unfoldable pub forget_object : String → Tracker → Tracker
forget_object key none = none
forget_object key (some m) = some (remove key m)

-- The counts of Collect: objects whose last reconciliation was ok, and those that failed.
unfoldable pub count_ok : Dict ReconciliationStatus → ℕ
unfolding is_ok
count_ok [] = 0
count_ok ((k, st) ∷ m) = (if is_ok st then 1 else 0) + count_ok m

unfoldable pub count_failed : Dict ReconciliationStatus → ℕ
unfolding is_ok
count_failed [] = 0
count_failed ((k, st) ∷ m) = (if is_ok st then 0 else 1) + count_failed m

unfoldable pub collect : Tracker → ℕ × ℕ
unfolding count_ok count_failed
collect rt = (count_ok (status_by_object rt), count_failed (status_by_object rt))
