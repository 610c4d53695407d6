-- ===== src/Dashboards/Guarded.antt =====
-- A dashboard is written only after the server accepted it.
use perses_operator.Prelude.{some}
use perses_operator.Act.Triple.{triple-bind, triple-pure}
use perses_operator.Api.{Resource}
use perses_operator.Api.Instance.{Perses}
use perses_operator.World.{Env, World, PersesSecret, dashboard}
use perses_operator.Sync.{already_in_sync}
use perses_operator.Sync.Guarded.{
  IsGuarded, Keeps, kept, triple-if, Keeps-connect, Keeps-ensure_project, Keeps-get_existing,
  clears-validate, keeps-put,
}
use perses_operator.Dashboards.{desired_object, sync_perses_dashboard}

-- A dashboard has no secret.
abbrev pub NoSecret : PersesSecret → Type 0
NoSecret s = ⊥

module _ {E C : Type 0} (v : Env E C) (perses : Perses) (d : Resource) where
  Keeps-sync :
      Keeps dashboard
        (some d.namespace)
        NoSecret
        (desired_object v d)
        (sync_perses_dashboard v perses d)
  unfolding sync_perses_dashboard
  Keeps-sync =
      let o = desired_object v d in
      triple-bind (Keeps-connect v dashboard (some d.namespace) NoSecret o perses) λ c.
        triple-bind (Keeps-ensure_project v dashboard (some d.namespace) NoSecret o c d.namespace)
          λ _.
            triple-bind
              (Keeps-get_existing v dashboard (some d.namespace) NoSecret o c dashboard _ d.name)
              λ existing. triple-if (already_in_sync v existing o) (triple-pure tt) (
                triple-bind
                  (clears-validate v dashboard (some d.namespace) NoSecret o c "dashboard")
                  λ _. keeps-put v dashboard (some d.namespace) NoSecret o c existing)

  -- If every write in the log of calls so far, the creation of a project apart, was of the desired
  -- dashboard, in the project of its namespace, and came after a validation of it that the server
  -- accepted, so it is after syncPersesDashboard, however it ends: it creates or updates no other
  -- object and no secret, deletes nothing, and writes nothing unvalidated.
  pub sync_perses_dashboard-IsGuarded :
      (w : World E)
      → IsGuarded dashboard (some d.namespace) NoSecret (desired_object v d) w.calls
      → IsGuarded dashboard
          (some d.namespace)
          NoSecret
          (desired_object v d)
          (sync_perses_dashboard v perses d w).1.calls
  sync_perses_dashboard-IsGuarded w h = kept Keeps-sync w h
