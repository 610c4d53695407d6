-- ===== src/Datasources/Guarded.antt =====
-- A datasource and its secret are written only after the server accepted the datasource.
use perses_operator.Prelude.{String, Option, none, some, arith}
use perses_operator.Act.Triple.{triple-bind, triple-pure}
use perses_operator.Api.{Resource, Client, SecretSource}
use perses_operator.Api.Instance.{Perses}
use perses_operator.Secret.{has_secret_config}
use perses_operator.World.{
  ObjectKind, Object, Project, PersesSecret, Env, World, datasource, global_datasource,
}
use perses_operator.Sync.{already_in_sync, Sync}
use perses_operator.Sync.Guarded.{
  IsGuarded, Keeps, KeepsCleared, kept, triple-if, quiet-cleared, Keeps-connect,
  Keeps-ensure_project, Keeps-get_existing, clears-validate, keeps-put,
}
use perses_operator.Dashboards.{desired_object}
use perses_operator.DatasourceSecret.{sync_secret, put_secret}
use perses_operator.DatasourceSecret.Build.{build_secret-IsQuiet}
use perses_operator.Datasources.{
  sync_client_secret, sync_perses_datasource, sync_perses_global_datasource,
}

-- Which secret is written is no part of the condition.
abbrev pub AnySecret : PersesSecret → Type 0
AnySecret s = Unit

module _ {E C : Type 0} (v : Env E C) (k : ObjectKind) (p : Project) (o : Object) where
  keeps-sync_secret :
      (what name : String) (ns : SecretSource → String) (c : C) (client : Client)
      → KeepsCleared k p AnySecret o (sync_secret v what name ns c p client)
  unfolding sync_secret
  keeps-sync_secret what name ns c client =
      triple-bind (quiet-cleared k p AnySecret o (build_secret-IsQuiet v what name ns client))
        λ s. (unfold put_secret in record { at = λ w h. ground arith })

  keeps-sync_client_secret :
      (f : Client → Sync E Unit) (client : Option Client)
      → ((c : Client) → KeepsCleared k p AnySecret o (f c))
      → KeepsCleared k p AnySecret o (sync_client_secret v f client)
  keeps-sync_client_secret f none t = triple-pure tt
  keeps-sync_client_secret f (some c) t =
      triple-if (has_secret_config (some c)) (t c) (triple-pure tt)

module _ {E C : Type 0} (v : Env E C) (perses : Perses) (d : Resource) where
  Keeps-sync :
      Keeps datasource
        (some d.namespace)
        AnySecret
        (desired_object v d)
        (sync_perses_datasource v perses d)
  unfolding sync_perses_datasource
  Keeps-sync =
      let o = desired_object v d in
      triple-bind (Keeps-connect v datasource (some d.namespace) AnySecret o perses) λ c.
        triple-bind (Keeps-ensure_project v datasource (some d.namespace) AnySecret o c d.namespace)
          λ _.
            triple-bind
              (Keeps-get_existing v datasource (some d.namespace) AnySecret o c datasource _ d.name)
              λ existing. triple-if (already_in_sync v existing o) (triple-pure tt) (
                triple-bind
                  (clears-validate v datasource (some d.namespace) AnySecret o c "datasource")
                  λ _.
                    triple-bind
                      (keeps-sync_client_secret v datasource (some d.namespace) o _ d.client
                        (λ client.
                          keeps-sync_secret v datasource (some d.namespace) o _ _ _ c client))
                      λ _. keeps-put v datasource (some d.namespace) AnySecret o c existing)

  Keeps-sync_global :
      Keeps global_datasource none AnySecret
        (desired_object v d)
        (sync_perses_global_datasource v perses d)
  unfolding sync_perses_global_datasource
  Keeps-sync_global =
      let o = desired_object v d in
      triple-bind (Keeps-connect v global_datasource none AnySecret o perses) λ c.
        triple-bind
          (Keeps-get_existing v global_datasource none AnySecret o c global_datasource _ d.name)
          λ existing. triple-if (already_in_sync v existing o) (triple-pure tt) (
            triple-bind (clears-validate v global_datasource none AnySecret o c "global datasource")
              λ _.
                triple-bind
                  (keeps-sync_client_secret v global_datasource none o _ d.client
                    (λ client. keeps-sync_secret v global_datasource none o _ _ _ c client))
                  λ _. keeps-put v global_datasource none AnySecret o c existing)

  -- If every write in the log of calls so far, of the desired datasource or of a secret, was in the
  -- project of its namespace and came after
  -- a validation of that datasource which the server accepted, so it is after syncPersesDatasource,
  -- however it ends: no secret is left behind by a datasource that the server refuses.
  pub sync_perses_datasource-IsGuarded :
      (w : World E)
      → IsGuarded datasource (some d.namespace) AnySecret (desired_object v d) w.calls
      → IsGuarded datasource
          (some d.namespace)
          AnySecret
          (desired_object v d)
          (sync_perses_datasource v perses d w).1.calls
  sync_perses_datasource-IsGuarded w h = kept Keeps-sync w h

  -- If every write in the log of calls so far, of the desired global datasource or of a secret, was
  -- in no project and came after a validation of it which the server accepted, so it is after syncPersesGlobalDatasource,
  -- however it ends.
  pub sync_perses_global_datasource-IsGuarded :
      (w : World E)
      → IsGuarded global_datasource none AnySecret (desired_object v d) w.calls
      → IsGuarded global_datasource none AnySecret
          (desired_object v d)
          (sync_perses_global_datasource v perses d w).1.calls
  sync_perses_global_datasource-IsGuarded w h = kept Keeps-sync_global w h
