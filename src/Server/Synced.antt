-- ===== src/Server/Synced.antt =====
-- After a synchronisation that succeeds, the server of the instance holds the desired object.
use perses_operator.Prelude.{String, none, some}
use perses_operator.Act.Triple.{Triple, triple-bind, triple-pure}
use perses_operator.Api.{Resource}
use perses_operator.Api.Instance.{Perses}
use perses_operator.World.{Project, Env, dashboard, datasource, global_datasource}
use perses_operator.Sync.{ensure_project, validate, already_in_sync}
use perses_operator.Sync.Guarded.{triple-if}
use perses_operator.Dashboards.{desired_object, sync_perses_dashboard}
use perses_operator.Datasources.{
  sync_client_secret, sync_perses_datasource, sync_perses_global_datasource, sync_perses_secret,
  sync_perses_global_secret,
}
use perses_operator.Server.{IsServer}
use perses_operator.Server.Converge.{
  Any, triple-Any, connect-at, HeldAt, get_existing-Found, put-HeldAt, unless_in_sync, at_address,
}
use perses_operator.Server.Steps.{Keeping}
use perses_operator.Server.Secrets.{Keeping-sync_secret}
use perses_operator.Server.Kept.{
  Held, Held-SecretStays, Keeping-put, Held-connect, Held-ensure_project, Held-get_existing,
  Held-validate, Held-secret,
}

module _ {E C : Type 0} {v : Env E C} (server : IsServer v) (perses : Perses) (d : Resource) where
  -- What a successful synchronisation establishes, as a triple.
  pub converges-dashboard :
      Triple Any
        (sync_perses_dashboard v perses d)
        (λ _.
          HeldAt server dashboard (some d.namespace) (desired_object v d) (server.address perses))
        Any
  unfolding sync_perses_dashboard
  converges-dashboard =
      let o = desired_object v d in
      let p : Project = some d.namespace in
      triple-bind (connect-at server perses) λ c. at_address server dashboard p o perses c _ (
        triple-bind (triple-Any (ensure_project v c d.namespace)) λ _.
          triple-bind (get_existing-Found server dashboard p o c) λ existing.
            unless_in_sync server dashboard p o c existing _ (
              triple-bind (triple-Any (validate v c dashboard "dashboard" o))
                λ _. put-HeldAt server dashboard p o c existing))

  pub converges-datasource :
      Triple Any
        (sync_perses_datasource v perses d)
        (λ _.
          HeldAt server datasource (some d.namespace) (desired_object v d) (server.address perses))
        Any
  unfolding sync_perses_datasource
  converges-datasource =
      let o = desired_object v d in
      let p : Project = some d.namespace in
      triple-bind (connect-at server perses) λ c. at_address server datasource p o perses c _ (
        triple-bind (triple-Any (ensure_project v c d.namespace)) λ _.
          triple-bind (get_existing-Found server datasource p o c) λ existing.
            unless_in_sync server datasource p o c existing _ (
              triple-bind (triple-Any (validate v c datasource "datasource" o)) λ _.
                triple-bind (triple-Any (sync_client_secret v (sync_perses_secret v c d) d.client))
                  λ _. put-HeldAt server datasource p o c existing))

  pub converges-global_datasource :
      Triple Any
        (sync_perses_global_datasource v perses d)
        (λ _. HeldAt server global_datasource none (desired_object v d) (server.address perses))
        Any
  unfolding sync_perses_global_datasource
  converges-global_datasource =
      let o = desired_object v d in
      triple-bind (connect-at server perses) λ c.
        at_address server global_datasource none o perses c _ (
          triple-bind (get_existing-Found server global_datasource none o c) λ existing.
            unless_in_sync server global_datasource none o c existing _ (
              triple-bind (triple-Any (validate v c global_datasource "global datasource" o)) λ _.
                triple-bind
                  (triple-Any (sync_client_secret v (sync_perses_global_secret v c d) d.client))
                  λ _. put-HeldAt server global_datasource none o c existing))

module _ {E C : Type 0} {v : Env E C} (server : IsServer v) (perses : Perses) (d : Resource)
    (a : String) where
  -- A synchronisation of the same resource with any instance keeps what the server at `a` holds.
  pub keeps-dashboard :
      Keeping v
        (Held server dashboard (some d.namespace) (desired_object v d) a)
        (sync_perses_dashboard v perses d)
  unfolding sync_perses_dashboard
  keeps-dashboard =
      let o = desired_object v d in
      let p : Project = some d.namespace in
      triple-bind (Held-connect server dashboard p o a perses) λ c.
        triple-bind (Held-ensure_project server dashboard p o a c d.namespace) λ _.
          triple-bind (Held-get_existing server dashboard p o a c dashboard p d.name) λ existing.
            triple-if (already_in_sync v existing o) (triple-pure tt) (
              triple-bind (Held-validate server dashboard p o a c "dashboard")
                λ _. Keeping-put server dashboard p o a c existing)

  pub keeps-datasource :
      Keeping v
        (Held server datasource (some d.namespace) (desired_object v d) a)
        (sync_perses_datasource v perses d)
  unfolding sync_perses_datasource sync_perses_secret
  keeps-datasource =
      let o = desired_object v d in
      let p : Project = some d.namespace in
      triple-bind (Held-connect server datasource p o a perses) λ c.
        triple-bind (Held-ensure_project server datasource p o a c d.namespace) λ _.
          triple-bind (Held-get_existing server datasource p o a c datasource p d.name) λ existing.
            triple-if (already_in_sync v existing o) (triple-pure tt) (
              triple-bind (Held-validate server datasource p o a c "datasource") λ _.
                triple-bind
                  (Held-secret server datasource p o a (sync_perses_secret v c d) d.client
                    (Keeping-sync_secret v _ (Held-SecretStays server datasource p o a) _ _ _ c p))
                  λ _. Keeping-put server datasource p o a c existing)

  pub keeps-global_datasource :
      Keeping v
        (Held server global_datasource none (desired_object v d) a)
        (sync_perses_global_datasource v perses d)
  unfolding sync_perses_global_datasource sync_perses_global_secret
  keeps-global_datasource =
      let o = desired_object v d in
      let k = global_datasource in
      triple-bind (Held-connect server k none o a perses) λ c.
        triple-bind (Held-get_existing server k none o a c k none d.name) λ existing.
          triple-if (already_in_sync v existing o) (triple-pure tt) (
            triple-bind (Held-validate server k none o a c "global datasource") λ _.
              triple-bind
                (Held-secret server k none o a (sync_perses_global_secret v c d) d.client
                  (Keeping-sync_secret v _ (Held-SecretStays server k none o a) _ _ _ c none))
                λ _. Keeping-put server k none o a c existing)
