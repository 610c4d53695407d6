-- ===== src/Datasources.antt =====
-- controllers/datasources/datasource_controller.go and
-- controllers/globaldatasources/globaldatasource_controller.go: a PersesDatasource or a
-- PersesGlobalDatasource on one Perses server.
pub mod Guarded
use perses_operator.Prelude.{String, Option, none, some, default, if◌then◌else◌, ◌<>◌}
use perses_operator.Errors.{Error}
use perses_operator.Act.{Act, Outcome, ok, fail, pure, halt, attempt, ◌>>=◌, ◌>>◌}
use perses_operator.Api.{Resource, Client}
use perses_operator.Api.Instance.{Perses}
use perses_operator.Secret.{has_secret_config, secret_name_suffix}
use perses_operator.World.{
  Env, World, Project, datasource, global_datasource, delete_secret, lift, invoke,
}
use perses_operator.Sync.{
  Sync, connect, ensure_project, get_existing, already_in_sync, validate, put,
  get_project_for_delete, delete_object_if_found, found_or_gone,
}
use perses_operator.Dashboards.{desired_object}
use perses_operator.DatasourceSecret.{sync_secret}

module _ {E C : Type 0} (v : Env E C) where
  -- `if HasSecretConfig(datasource.Spec.Client) { ... }`
  abbrev pub sync_client_secret : (Client → Sync E Unit) → Option Client → Sync E Unit
  sync_client_secret f none = pure tt
  sync_client_secret f (some client) = if has_secret_config (some client) then f client else pure tt

  unfoldable pub sync_perses_secret : C → Resource → Client → Sync E Unit
  sync_perses_secret c d = sync_secret v "datasource" d.name (λ _. d.namespace) c (some d.namespace)

  unfoldable pub sync_perses_global_secret : C → Resource → Client → Sync E Unit
  sync_perses_global_secret c d =
      sync_secret v "globaldatasource" d.name (λ s. default "" s.namespace) c none

  unfoldable pub sync_perses_datasource : Perses → Resource → Sync E Unit
  unfolding sync_perses_secret
  sync_perses_datasource perses d = do
    c ← connect v perses
    ensure_project v c d.namespace
    existing ← get_existing v c datasource (some d.namespace) d.name
    if already_in_sync v existing (desired_object v d) then pure tt else do
      validate v c datasource "datasource" (desired_object v d)
      sync_client_secret (sync_perses_secret c d) d.client
      put v c datasource (some d.namespace) existing (desired_object v d)

  unfoldable pub sync_perses_global_datasource : Perses → Resource → Sync E Unit
  unfolding sync_perses_global_secret
  sync_perses_global_datasource perses d = do
    c ← connect v perses
    existing ← get_existing v c global_datasource none d.name
    if already_in_sync v existing (desired_object v d) then pure tt else do
      validate v c global_datasource "global datasource" (desired_object v d)
      sync_client_secret (sync_perses_global_secret c d) d.client
      put v c global_datasource none existing (desired_object v d)

  -- The secret is deleted whether or not the datasource was found.
  unfoldable pub delete_secret_if_found : C → Project → String → Act (World E) Error Unit
  delete_secret_if_found c p name = do
    got ← attempt (invoke (delete_secret p name) (v.secret_delete c p name))
    found_or_gone v got

  unfoldable pub delete_datasource : Perses → String → String → Act (World E) Error Unit
  delete_datasource perses namespace name = do
    c ← lift (v.create_client perses)
    get_project_for_delete v c namespace
    delete_object_if_found v c datasource (some namespace) name
    delete_secret_if_found c (some namespace) (name <> secret_name_suffix)

  unfoldable pub delete_global_datasource : Perses → String → Act (World E) Error Unit
  delete_global_datasource perses name = do
    c ← lift (v.create_client perses)
    delete_object_if_found v c global_datasource none name
    delete_secret_if_found c none (name <> secret_name_suffix)
