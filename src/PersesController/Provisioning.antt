-- ===== src/PersesController/Provisioning.antt =====
-- reconcileProvisioning and findPersesForSecret of controllers/perses/perses_controller.go.
pub mod Order
pub mod Collected
pub mod Watch
use perses_operator.Prelude.{
  String, Bool, true, false, ◌||◌, Option, none, some, List, [], ◌∷◌, Dict, lookup, insert, is_some,
  default, is_empty, ◌==◌, if◌then◌else◌,
}
use perses_operator.Errors.{Error}
use perses_operator.Subreconciler.{StepResult, continue_reconciling, requeue_with_error}
use perses_operator.Act.{Act, Outcome, ok, fail, pure, ◌>>=◌}
use perses_operator.Api.Instance.{Perses, ProvisioningSecret, SecretVersion}
use perses_operator.World.{World}
use perses_operator.Controller.{Step, Request}
use perses_operator.Workload.{Cluster, Memory, State, from_cluster}
use perses_operator.PersesController.{update_perses_status, plainly}

abbrev pub versions_of : Dict String → List SecretVersion
versions_of [] = []
versions_of ((name, version) ∷ m) = record { name = name; version = version } ∷ versions_of m

abbrev pub references : String → List ProvisioningSecret → Bool
references secret_name [] = false
references secret_name (r ∷ refs) = r.name == secret_name || references secret_name refs

abbrev pub request_of : Perses → Request
request_of perses = record { namespace = perses.namespace; name = perses.name }

-- The loop of findPersesForSecret over the instances.
unfoldable pub requests_for : String → List Perses → List Request
requests_for secret_name [] = []
requests_for secret_name (p ∷ ps) =
    let rest = requests_for secret_name ps in
    if references secret_name (default [] p.spec.provisioning) then request_of p ∷ rest else rest

module _ {E : Type 0} (v : Cluster E) where
  -- The loop over the references: a secret that was read before is not read again.
  unfoldable pub collect_versions :
      String → List ProvisioningSecret → Dict String → Act (State E) Error (Dict String)
  collect_versions namespace [] seen s = (ok seen, s)
  collect_versions namespace (r ∷ refs) seen s =
      let skipped = collect_versions namespace refs seen s in
      let read =
        (from_cluster (v.secret_version namespace r.name) >>= λ version.
        collect_versions namespace refs (insert r.name version seen))
          s in
      if is_some (lookup r.name seen) then skipped else read

  -- `newSecretVersions`
  unfoldable pub new_secret_versions : Dict String → List SecretVersion
  new_secret_versions seen = v.sort_by_name (versions_of (v.range seen))

  abbrev pub set_provisioning : List SecretVersion → Perses → Perses
  set_provisioning versions p = record p { provisioning_status = some versions }

  module _ (req : Request) where
    abbrev pub record_versions : Outcome Error (Dict String) → Step (Memory E)
    record_versions (fail err) s = (requeue_with_error err, s)
    record_versions (ok seen) s =
        let versions = new_secret_versions seen in
        let updated = update_perses_status v req (plainly (set_provisioning versions)) s in
        if v.versions_equal versions s.env.perses.provisioning_status
        then (continue_reconciling, s)
        else updated

    unfoldable pub reconcile_provisioning : Step (Memory E)
    reconcile_provisioning s =
        let p = s.env.perses in
        let refs = default [] p.spec.provisioning in
        let (r, s') = collect_versions p.namespace refs [] s in
        let cleared = update_perses_status v req (plainly (set_provisioning [])) s in
        let recorded = record_versions r s' in if is_empty refs then cleared else recorded

  abbrev requests_listed : String → Outcome Error (List Perses) → Outcome Error (List Request)
  requests_listed name (ok ps) = ok (requests_for name ps)
  requests_listed name (fail _) = ok []

  -- An error of the list is logged, and no request is made.
  unfoldable pub find_perses_for_secret : String → String → Act E Error (List Request)
  find_perses_for_secret namespace name e =
      let (r, e') = v.list_perses namespace e in (requests_listed name r, e')
