-- ===== src/Sync.antt =====
-- How one resource is brought to one Perses server: the parts that syncPersesDashboard,
-- syncPersesDatasource and syncPersesGlobalDatasource write out alike. Each of these functions is
-- put together from them in Dashboards and Datasources.
pub mod InSync
pub mod Guarded
pub mod Quiet
use perses_operator.Prelude.{
  ℕ, suc, String, Bool, true, false, not, ◌&&◌, Option, none, some, List, [], ◌∷◌, length, default,
  nat_eq, if◌then◌else◌, ◌<>◌,
}
use perses_operator.Errors.{
  Error, plain, wrapped, ConditionStatusReason, reason_connection_failed, reason_backend_error,
  reason_validation_failed, is_request_not_found, is_client_error,
}
use perses_operator.Act.{Act, Outcome, ok, fail, pure, halt, or_halt, attempt, ◌>>=◌, ◌>>◌}
use perses_operator.Tags.{Text, mem_text}
use perses_operator.Api.Instance.{Perses}
use perses_operator.World.{
  ObjectKind, Object, Project, Env, World, get_project, create_project, get_object, validate_object,
  create_object, update_object, delete_object, lift, invoke,
}

-- `RequeueWithErrorAndReason(err, reason)`, the only way in which these functions end early; they
-- end otherwise with `ContinueReconciling()` and no reason.
pub record Failure : Type 0 where
  pub reason : ConditionStatusReason
  pub err : Error

abbrev pub because : ConditionStatusReason → Error → Failure
because reason err = record { reason = reason; err = err }

abbrev pub Sync : Type 0 → Type 0 → Type 0
Sync E A = Act (World E) Failure A

-- `maps.Equal` on sets: as many members, and each of one is in the other. A nil map is empty.
abbrev pub all_mem : List Text → List Text → Bool
all_mem [] us = true
all_mem (t ∷ ts) us = mem_text t us && all_mem ts us

unfoldable pub tags_equal : Option (List Text) → Option (List Text) → Bool
tags_equal a b =
    nat_eq (length (default [] a)) (length (default [] b)) && all_mem (default [] a) (default [] b)

module _ {E C : Type 0} (v : Env E C) where
  -- internal/perses/common/sync.go: DashboardInSync, DatasourceInSync, GlobalDatasourceInSync
  unfoldable pub in_sync : Object → Object → Bool
  unfolding tags_equal
  in_sync existing desired =
      tags_equal existing.tags desired.tags && v.deep_equal existing.spec desired.spec

  -- `r.ClientFactory.CreateClient`
  unfoldable pub connect : Perses → Sync E C
  connect perses = or_halt (because reason_connection_failed) (lift (v.create_client perses))

  -- The project of the resource's namespace is created where it is missing.
  unfoldable pub ensure_project : C → String → Sync E Unit
  ensure_project c ns = do
    got ← attempt (invoke (get_project ns) (v.project_get c ns))
    elim got [
      | ok _ ↦ pure tt
      | fail err ↦
          if is_request_not_found err
          then or_halt (because reason_backend_error)
              (invoke (create_project ns) (v.project_create c ns))
          else halt (because reason_backend_error err)
    ]

  -- `existing`, and `none` for `notFound`
  unfoldable pub get_existing : C → ObjectKind → Project → String → Sync E (Option Object)
  get_existing c k p name = do
    got ← attempt (invoke (get_object k p name) (v.object_get c k p name))
    elim got [
      | ok existing ↦ pure (some existing)
      | fail err ↦
          if is_request_not_found err then pure none else halt (because reason_backend_error err)
    ]

  -- The server's validation. `what` is the word for the kind in the messages.
  unfoldable pub validate : C → ObjectKind → String → Object → Sync E Unit
  validate c k what desired = do
    got ← attempt (invoke (validate_object k desired) (v.object_validate c k desired))
    elim got [
      | ok _ ↦ pure tt
      | fail err ↦
          if is_client_error err
          then halt (
              because reason_validation_failed (
                wrapped (what <> " \"" <> desired.name <> "\" failed server-side validation: ")
                  err))
          else halt (
              because reason_backend_error
                (wrapped (what <> " \"" <> desired.name <> "\" validation request failed: ") err))
    ]

  -- `Create` where the object was not found, else `Update`.
  unfoldable pub put : C → ObjectKind → Project → Option Object → Object → Sync E Unit
  put c k p none desired =
      or_halt (because reason_backend_error)
        (invoke (create_object k p desired) (v.object_create c k p desired))
  put c k p (some _) desired =
      or_halt (because reason_backend_error)
        (invoke (update_object k p desired) (v.object_update c k p desired))

  -- `!notFound && InSync(existing, desired)`
  unfoldable pub already_in_sync : Option Object → Object → Bool
  already_in_sync none desired = false
  already_in_sync (some existing) desired = in_sync existing desired

  -- The parts of deleteDashboard, deleteDatasource and deleteGlobalDatasource. Each early return is
  -- `RequeueWithError(err)`; a project that is missing is an error here too.
  unfoldable pub get_project_for_delete : C → String → Act (World E) Error Unit
  get_project_for_delete c ns = invoke (get_project ns) (v.project_get c ns)

  -- What is not found is taken as deleted.
  abbrev pub found_or_gone : Outcome Error Unit → Act (World E) Error Unit
  found_or_gone (ok _) = pure tt
  found_or_gone (fail err) = if is_request_not_found err then pure tt else halt err

  unfoldable pub delete_object_if_found :
      C → ObjectKind → Project → String → Act (World E) Error Unit
  delete_object_if_found c k p name = do
    got ← attempt (invoke (delete_object k p name) (v.object_delete c k p name))
    found_or_gone got
