-- ===== src/Workload.antt =====
-- The Kubernetes objects that the operator owns for a Perses instance, and the API server as the
-- controller of Perses instances uses it: controllers/perses.
pub mod Child
pub mod Services
pub mod ConfigMaps
pub mod Template
pub mod Deployments
pub mod StatefulSets
pub mod Mounts
pub mod Settled
use perses_operator.Prelude.{
  ℕ, String, Bool, true, false, Option, none, some, List, [], ◌∷◌, Dict, is_some, is_empty,
}
use perses_operator.Errors.{Error}
use perses_operator.Act.{Act, Outcome, ok, fail}
use perses_operator.Tags.{Text}
use perses_operator.Api.{Opaque, Condition}
use perses_operator.Api.Instance.{
  PersistentVolumeClaimSpec, Perses, PersesConfig, Volume, VolumeMount, SecretVersion,
}
use perses_operator.Pod.Args.{Config, HttpProbe, SecurityContext}
use perses_operator.World.{World, lift}

-- `metav1.ObjectMeta`, with the references that SetControllerReference adds.
pub record ObjectMeta : Type 0 where
  pub name : String
  pub namespace : String
  pub annotations : Dict String
  pub labels : Dict Text
  pub owner_references : List Opaque

-- `corev1.ServicePort`: the target port is an integer.
pub record ServicePort : Type 0 where
  pub name : String
  pub port : ℕ
  pub protocol : String
  pub target_port : ℕ

pub record Service : Type 0 where
  pub meta : ObjectMeta
  pub service_type : String
  pub ports : List ServicePort
  pub selector : Dict Text

pub record ConfigMap : Type 0 where
  pub meta : ObjectMeta
  pub contents : Dict String

pub record Container : Type 0 where
  pub image : String
  pub name : String
  pub image_pull_policy : String
  pub security_context : SecurityContext
  -- `Ports`, each with its name
  pub ports : List (ℕ × String)
  pub volume_mounts : List VolumeMount
  pub args : List String
  pub env : List Opaque
  pub env_from : List Opaque
  pub liveness_probe : Option HttpProbe
  pub readiness_probe : Option HttpProbe
  pub resources : Option Opaque

-- `corev1.PodTemplateSpec`
pub record PodTemplate : Type 0 where
  pub annotations : Dict String
  pub labels : Dict Text
  pub node_selector : Dict String
  pub tolerations : List Opaque
  pub affinity : Option Opaque
  pub security_context : SecurityContext
  pub containers : List Container
  pub volumes : List Volume
  pub restart_policy : String
  pub dns_policy : String
  pub service_account_name : String
  pub priority_class_name : String

-- `Strategy` is the type with `MaxUnavailable` and `MaxSurge`.
pub record DeploymentSpec : Type 0 where
  pub selector : Dict Text
  pub replicas : Option ℕ
  pub template : PodTemplate
  pub strategy : String × (String × String)

pub record Deployment : Type 0 where
  pub meta : ObjectMeta
  pub spec : DeploymentSpec

-- A template of a `corev1.PersistentVolumeClaim`.
pub record ClaimTemplate : Type 0 where
  pub name : Text
  pub spec : PersistentVolumeClaimSpec

pub record StatefulSetSpec : Type 0 where
  pub selector : Dict Text
  pub replicas : Option ℕ
  pub template : PodTemplate
  pub volume_claim_templates : List ClaimTemplate

pub record StatefulSet : Type 0 where
  pub meta : ObjectMeta
  pub spec : StatefulSetSpec

-- `Create`, `Update` with `client.DryRunAll`, `Update`.
pub data Mode : Type 0 where
  creation dry_run full_update : Mode

-- A call that writes to the API server. No code reads the log of these.
pub data Write : Type 0 where
  service_write : Mode → Service → Write
  config_map_write : Mode → ConfigMap → Write
  deployment_write : Mode → Deployment → Write
  stateful_set_write : Mode → StatefulSet → Write
  deployment_delete stateful_set_delete : String → Write
  finalizer_write status_write : Perses → Write

-- What the process holds while it reconciles one instance: the object of the context, which the
-- sub-reconcilers share and change, the variable `needsRequeue` that an update of the status sets, the
-- API server's state and the writes sent to it.
pub record Memory (E : Type 0) : Type 0 where
  pub perses : Perses
  pub needs_requeue : Bool
  pub cluster : E
  pub writes : List Write

abbrev pub State : Type 0 → Type 0
State E = World (Memory E)

-- `client.Client` at one type of object. `update_dry_run` and `create` send the object; the first
-- gives it back with the fields that the server fills in.
pub record Objects (E O : Type 0) : Type 0 where
  pub get : String → String → Act E Error O
  pub create : O → Act E Error Unit
  pub update_dry_run : O → Act E Error O
  pub update : O → Act E Error Unit
  pub delete : O → Act E Error Unit

-- The operations of other code that the controller calls.
pub record Cluster (E : Type 0) : Type 0 where
  pub services : Objects E Service
  pub config_maps : Objects E ConfigMap
  pub deployments : Objects E Deployment
  pub stateful_sets : Objects E StatefulSet
  pub perses_get : String → String → Act E Error Perses
  pub perses_update : Perses → Act E Error Unit
  pub perses_status_update : Perses → Act E Error Unit
  pub list_perses : String → Act E Error (List Perses)
  -- `APIReader.Get` of a secret, of which only the resource version is read
  pub secret_version : String → String → Act E Error String
  pub retry_on_conflict : Act (State E) Error Unit → Act (State E) Error Unit
  -- `ctrl.SetControllerReference`
  pub set_controller_reference : Perses → ObjectMeta → Outcome Error ObjectMeta
  -- `equality.Semantic.DeepEqual`
  pub status_equal : Perses → Perses → Bool
  pub versions_equal : List SecretVersion → Option (List SecretVersion) → Bool
  pub service_type_equal : String → String → Bool
  pub ports_equal : List ServicePort → List ServicePort → Bool
  pub dict_equal : Dict String → Dict String → Bool
  pub deployment_equal : DeploymentSpec → DeploymentSpec → Bool
  pub stateful_set_equal : StatefulSetSpec → StatefulSetSpec → Bool
  pub set_status_condition : List Condition → Condition → List Condition
  -- the order in which `range` visits a map, and `sort.Slice` by name
  pub range : Dict String → Dict String
  pub sort_by_name : List SecretVersion → List SecretVersion
  -- `yaml.Marshal`, and the JSON's SHA-256 sum
  pub marshal_config : PersesConfig → Outcome Error String
  pub encode_versions : List SecretVersion → Outcome Error String
  -- `filepath.Join`, `unicode.ToLower` beyond ASCII, a number in decimal, `Error()`
  pub join : String → String → String
  pub lower_rune : ℕ → ℕ
  pub show : ℕ → String
  pub error_text : Error → String
  -- the message about a mount of an undefined volume, which quotes the names with `%q`
  pub undefined_volume : VolumeMount → String
  -- `ForgetInstance` of `common.PersesClientCacheInvalidator`, which may be nil
  pub cache_invalidator : Option (String → E → E)

module _ {E A : Type 0} where
  -- A call that reads.
  abbrev pub from_cluster : Act E Error A → Act (State E) Error A
  from_cluster m s =
      let (r, e) = m s.env.cluster in (r, record s { env = record s.env { cluster = e } })

  -- A call that writes, kept in the log whether it succeeds or not.
  abbrev pub sent : Write → Act E Error A → Act (State E) Error A
  sent x m s =
      let (r, e) = m s.env.cluster in
      (r, record s { env = record s.env { cluster = e; writes = x ∷ s.env.writes } })

module _ {E : Type 0} where
  abbrev pub set_perses : Perses → State E → State E
  set_perses p s = record s { env = record s.env { perses = p } }
