-- ===== src/Dashboards.antt =====
-- controllers/dashboards/dashboard_controller.go: a PersesDashboard on one Perses server.
pub mod Guarded
use perses_operator.Prelude.{String, Option, none, some, if◌then◌else◌}
use perses_operator.Act.{Act, Outcome, ok, fail, pure, halt, attempt, ◌>>=◌, ◌>>◌}
use perses_operator.Errors.{Error}
use perses_operator.Api.{Resource}
use perses_operator.Api.Instance.{Perses}
use perses_operator.Tags.{parse_tags}
use perses_operator.World.{Object, Env, World, dashboard, lift}
use perses_operator.Sync.{
  Sync, connect, ensure_project, get_existing, already_in_sync, validate, put,
  get_project_for_delete, delete_object_if_found,
}

module _ {E C : Type 0} (v : Env E C) where
  -- `persesDashboard`
  abbrev pub desired_object : Resource → Object
  desired_object r = record {
    name = r.name;
    tags = parse_tags v.lower_rune r.annotations;
    spec = r.config_spec;
  }

  unfoldable pub sync_perses_dashboard : Perses → Resource → Sync E Unit
  sync_perses_dashboard perses d = do
    c ← connect v perses
    ensure_project v c d.namespace
    existing ← get_existing v c dashboard (some d.namespace) d.name
    if already_in_sync v existing (desired_object d) then pure tt else do
      validate v c dashboard "dashboard" (desired_object d)
      put v c dashboard (some d.namespace) existing (desired_object d)

  unfoldable pub delete_dashboard : Perses → String → String → Act (World E) Error Unit
  delete_dashboard perses namespace name = do
    c ← lift (v.create_client perses)
    get_project_for_delete v c namespace
    delete_object_if_found v c dashboard (some namespace) name
