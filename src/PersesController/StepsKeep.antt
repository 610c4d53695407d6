-- ===== src/PersesController/StepsKeep.antt =====
-- Each sub-reconciler that writes no workload keeps the log of the workloads, and those that do not
-- read the resource again keep what the object of the context is like.
use perses_operator.Prelude.{
  String, Bool, true, false, not, Option, none, some, List, [], ◌∷◌, is_some, default, lookup, Dict,
  insert, if◌then◌else◌, is_empty,
}
use perses_operator.Errors.{Error, plain}
use perses_operator.Subreconciler.{continue_reconciling, do_not_requeue}
use perses_operator.Act.{Act, Outcome, ok, fail, pure, ◌>>=◌}
use perses_operator.Api.Instance.{Perses, ProvisioningSecret, VolumeMount}
use perses_operator.Controller.{Request}
use perses_operator.Pod.Volumes.Mounted.{names}
use perses_operator.Workload.{Cluster, State, from_cluster, sent, status_write, set_perses}
use perses_operator.Workload.Mounts.{LogMounted, if-keeps}
use perses_operator.PersesController.{
  Update, update_fresh, update_perses_status, handle_delete, strip_on_delete, delete_result,
  set_status_to_unknown, unknown_update, remove_finalizer, strip_finalizer, retry_result,
  validate_volumes, undefined_mount, set_status_to_complete, plainly, complete_update,
  invalid_update, has_finalizer, write_stripped, strip_fetched, report_undefined, require_requeue,
}
use perses_operator.PersesController.Provisioning.{
  reconcile_provisioning, collect_versions, new_secret_versions, record_versions, set_provisioning,
}
use perses_operator.PersesController.Keeps.{KeepsWhatRunsKeep, Keeps, bind-Keeps}

module _ {E : Type 0} (v : Cluster E) (retries : KeepsWhatRunsKeep v) (req : Request) where
  -- What is kept: the log, and a property of the object of the context.
  module _ (R : Perses → Type 0) where
    abbrev pub Inv : State E → Type 0
    Inv s = LogMounted s × R s.env.perses

    pub update_fresh-Keeps :
        (u : Update E) → ((p : Perses) → Keeps Inv (u p)) → Keeps Inv (update_fresh v req u)
    unfolding update_fresh
    update_fresh-Keeps u h =
        bind-Keeps Inv (from_cluster (v.perses_get req.namespace req.name))
          (λ fresh. u fresh >>= written fresh) (λ s k. k)
          (λ fresh. bind-Keeps Inv (u fresh) (written fresh) (h fresh) (written-keeps fresh))
      where
        written : Perses → Perses → Act (State E) Error Unit
        written fresh updated =
            if v.status_equal fresh updated
            then pure tt
            else sent (status_write updated) (v.perses_status_update updated)

        written-keeps : (fresh updated : Perses) → Keeps Inv (written fresh updated)
        written-keeps fresh updated = go (v.status_equal fresh updated)
          where
            go :
                (b : Bool)
                → Keeps Inv (
                    if b
                    then pure tt
                    else sent (status_write updated) (v.perses_status_update updated))
            go true s k = k
            go false s k = ((tt, k.0), k.1)

    pub update-Keeps :
        (u : Update E) → ((p : Perses) → Keeps Inv (u p)) → Keeps Inv (update_perses_status v req u)
    unfolding update_perses_status
    update-Keeps u h = retries Inv (update_fresh v req u) (update_fresh-Keeps u h)

    pub complete-Keeps : Keeps Inv (set_status_to_complete v req)
    unfolding set_status_to_complete
    complete-Keeps = update-Keeps (plainly (complete_update v req)) (λ p s k. k)

    pub unknown-Keeps : Keeps Inv (set_status_to_unknown v req)
    unfolding set_status_to_unknown unknown_update
    unknown-Keeps s k =
        update-Keeps (unknown_update v req)
          (λ p s' k'. if-keeps Inv (is_empty p.conditions) _ _ k' k') (require_requeue false s) k

    pub report-Keeps : (m : Option VolumeMount) → Keeps Inv (report_undefined v req m)
    report-Keeps none s k = k
    report-Keeps (some m) s k =
        update-Keeps (plainly (invalid_update v req (v.undefined_volume m))) (λ p s' k'. k') s k

    pub validate-Keeps : Keeps Inv (validate_volumes v req)
    unfolding validate_volumes
    validate-Keeps s k =
        let spec = s.env.perses.spec in
        report-Keeps (undefined_mount (names spec.volumes) spec.volume_mounts) s k

    pub collect-Keeps :
        (namespace : String) (refs : List ProvisioningSecret) (seen : Dict String)
        → Keeps Inv (collect_versions v namespace refs seen)
    unfolding collect_versions
    collect-Keeps namespace [] seen s k = k
    collect-Keeps namespace (r ∷ refs) seen s k =
        if-keeps Inv (is_some (lookup r.name seen)) (collect_versions v namespace refs seen s)
          ((from_cluster (v.secret_version namespace r.name) >>= λ version.
              collect_versions v namespace refs (insert r.name version seen))
            s)
          (collect-Keeps namespace refs seen s k)
          (bind-Keeps Inv (from_cluster (v.secret_version namespace r.name))
            (λ version. collect_versions v namespace refs (insert r.name version seen))
            (λ s' k'. k') (λ version. collect-Keeps namespace refs (insert r.name version seen)) s
            k)

    pub recorded-Keeps : (r : Outcome Error (Dict String)) → Keeps Inv (record_versions v req r)
    recorded-Keeps (fail err) s k = k
    recorded-Keeps (ok seen) s k =
        let versions = new_secret_versions v seen in
        if-keeps Inv (v.versions_equal versions s.env.perses.provisioning_status)
          (continue_reconciling, s)
          (update_perses_status v req (plainly (set_provisioning v versions)) s) k
          (update-Keeps (plainly (set_provisioning v versions)) (λ q t l. l) s k)

    pub provisioning-Keeps : Keeps Inv (reconcile_provisioning v req)
    unfolding reconcile_provisioning
    provisioning-Keeps s k =
        let p = s.env.perses in
        let refs = default [] p.spec.provisioning in
        let (r, s') = collect_versions v p.namespace refs [] s in
        if-keeps Inv (is_empty refs)
          (update_perses_status v req (plainly (set_provisioning v [])) s)
          (record_versions v req r s')
          (update-Keeps (plainly (set_provisioning v [])) (λ q t l. l) s k)
          (recorded-Keeps r s' (collect-Keeps p.namespace refs [] s k))

  pub strip-Keeps : Keeps LogMounted (strip_finalizer v req)
  unfolding strip_finalizer
  strip-Keeps =
      bind-Keeps LogMounted (from_cluster (v.perses_get req.namespace req.name))
        (strip_fetched v req) (λ s k. k)
        (λ fresh s k.
          if-keeps LogMounted (has_finalizer fresh) (write_stripped v req fresh s)
            (fail (plain "failed to remove finalizer from the custom resource"), set_perses fresh s)
            (tt, k) k)

  pub strip_on_delete-Keeps : Keeps LogMounted (strip_on_delete v req)
  unfolding strip_on_delete
  strip_on_delete-Keeps =
      bind-Keeps LogMounted (from_cluster (v.perses_get req.namespace req.name))
        (write_stripped v req) (λ s k. k) (λ fresh s k. (tt, k))

  pub delete-Keeps : Keeps LogMounted (handle_delete v req)
  unfolding handle_delete
  delete-Keeps s k =
      let (r, s') = v.retry_on_conflict (strip_on_delete v req) s in
      if-keeps LogMounted (not s.env.perses.deleting) (continue_reconciling, s)
        (if has_finalizer s.env.perses then (delete_result v req r, s') else (do_not_requeue, s)) k
        (if-keeps LogMounted (has_finalizer s.env.perses) (delete_result v req r, s')
          (do_not_requeue, s) (retries LogMounted (strip_on_delete v req) strip_on_delete-Keeps s k)
          k)

  pub remove-Keeps : Keeps LogMounted (remove_finalizer v req)
  unfolding remove_finalizer
  remove-Keeps s k =
      let (r, s') = v.retry_on_conflict (strip_finalizer v req) s in
      if-keeps LogMounted (has_finalizer s.env.perses) (retry_result v req r, s')
        (continue_reconciling, s) (retries LogMounted (strip_finalizer v req) strip-Keeps s k) k
