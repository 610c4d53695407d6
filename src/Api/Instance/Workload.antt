-- ===== src/Api/Instance/Workload.antt =====
-- Which workloads RequiresDeployment and RequiresStatefulSet ask for.
use perses_operator.Prelude.{◌≡◌, ◌↔◌, true, false, ◌&&◌, ◌||◌, is_some, arith}
use perses_operator.Api.Instance.{
  Perses, storage_empty_dir, requires_deployment, requires_stateful_set,
}

-- An instance with a database gets a Deployment or a StatefulSet, and one without a database neither.
-- It gets both exactly when both databases are configured and the storage is no emptyDir.
pub workload_iff :
    (p : Perses)
    → (((requires_deployment p || requires_stateful_set p) ≡ true)
        ↔ ((is_some p.spec.config.database_sql || is_some p.spec.config.database_file) ≡ true))
      × (((requires_deployment p && requires_stateful_set p) ≡ true) ↔ (
          (is_some p.spec.config.database_sql ≡ true)
          × (is_some p.spec.config.database_file ≡ true)
          × (is_some (storage_empty_dir p.spec.storage) ≡ false)))
unfolding requires_deployment requires_stateful_set
workload_iff p = ((λ h. ground arith, λ h. ground arith), (λ h. ground arith, λ h. ground arith))
