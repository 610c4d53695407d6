-- ===== src/Pod/Args.antt =====
-- internal/perses/common in perses_args.go, probes.go and security.go.
use perses_operator.Prelude.{
  ℕ, String, Bool, false, Option, none, some, List, [], ◌∷◌, ◌++◌, default, lookup, Dict,
  if◌then◌else◌, ◌<>◌, ◌==◌,
}
use perses_operator.Api.{Opaque, Certificate}
use perses_operator.Api.Instance.{Perses, Probe, has_tls_configuration, user_cert_of, is_true}
use perses_operator.Pod.{default_config_path, tls_cert_mount_path, default_container_port}

-- `k8sToPersesVersion`
abbrev k8s_to_perses_version : Dict String
k8s_to_perses_version =
    ("VersionTLS10", "1.0")
    ∷ ("VersionTLS11", "1.1")
    ∷ ("VersionTLS12", "1.2")
    ∷ ("VersionTLS13", "1.3")
    ∷ []

unfoldable pub k8s_to_perses_tls_version : String → String
unfolding lookup
k8s_to_perses_tls_version version = default version (lookup version k8s_to_perses_version)

-- The flags of the operator's own command line that concern its operands: `Config`.
pub record Config : Type 0 where
  pub perses_image : String
  pub tls_min_version : String
  pub tls_cipher_suites : String
  pub tls_configure_operands : Bool

abbrev cert_args : Option Certificate → List String
cert_args none = []
cert_args (some cert) =
    ("--web.tls-cert-file=" <> tls_cert_mount_path <> "/" <> cert.cert_path)
    ∷ ("--web.tls-key-file=" <> tls_cert_mount_path <> "/" <> default "" cert.private_key_path)
    ∷ []

abbrev unless_empty : String → String → List String
unless_empty text arg = if text == "" then [] else arg ∷ []

abbrev operand_args : Config → List String
operand_args config =
    if config.tls_configure_operands
    then unless_empty config.tls_min_version
        ("--web.tls-min-version=" <> k8s_to_perses_tls_version config.tls_min_version)
      ++ unless_empty config.tls_cipher_suites
          ("--web.tls-cipher-suites=" <> config.tls_cipher_suites)
    else []

abbrev level_args : Option String → List String
level_args none = []
level_args (some level) = ("--log.level=" <> level) ∷ []

-- `show` prints a number in decimal.
module _ (show : ℕ → String) where
  abbrev port_args : Option ℕ → List String
  port_args none = []
  port_args (some port) = ("--web.listen-address=:" <> show port) ∷ []

  unfoldable pub get_perses_args : Perses → Config → List String
  get_perses_args perses config =
      ("--config=" <> default_config_path) ∷ port_args perses.spec.container_port
      ++ ((if has_tls_configuration perses then cert_args (user_cert_of perses.spec.tls) else [])
          ++ (operand_args config
              ++ (level_args perses.spec.log_level
                  ++ ((if is_true perses.spec.log_method_trace
                        then "--log.method-trace" ∷ []
                        else [])
                      ++ perses.spec.args))))

-- `corev1.Probe` with an `HTTPGetAction` of the scheme HTTP.
pub record HttpProbe : Type 0 where
  pub path : String
  pub port : ℕ
  pub initial_delay_seconds : ℕ
  pub timeout_seconds : ℕ
  pub period_seconds : ℕ
  pub success_threshold : ℕ
  pub failure_threshold : ℕ

abbrev pub port_of : Perses → ℕ
port_of perses = default default_container_port perses.spec.container_port

-- The numbers of the resource's probe, with the operator's own handler.
abbrev http_probe : Perses → Option Probe → Option HttpProbe
http_probe perses none = none
http_probe perses (some probe) = some record {
  path = perses.spec.config.api_prefix <> "/metrics";
  port = port_of perses;
  initial_delay_seconds = probe.initial_delay_seconds;
  timeout_seconds = probe.timeout_seconds;
  period_seconds = probe.period_seconds;
  success_threshold = probe.success_threshold;
  failure_threshold = probe.failure_threshold;
}

unfoldable pub get_probes : Perses → Option HttpProbe × Option HttpProbe
get_probes perses =
    (http_probe perses perses.spec.liveness_probe, http_probe perses perses.spec.readiness_probe)

-- `PodSecurityContext` and `SecurityContext`: that of the resource, or else the operator's own.
pub data SecurityContext : Type 0 where
  custom : Opaque → SecurityContext
  -- `FSGroup` with the runtime's default seccomp profile
  default_pod : ℕ → SecurityContext
  -- `AllowPrivilegeEscalation` and the capabilities dropped
  default_container : Bool → List String → SecurityContext

abbrev custom_or : SecurityContext → Option Opaque → SecurityContext
custom_or d none = d
custom_or d (some c) = custom c

unfoldable pub get_pod_security_context : Perses → SecurityContext
get_pod_security_context perses = custom_or (default_pod 65534) perses.spec.pod_security_context

unfoldable pub get_container_security_context : Perses → SecurityContext
get_container_security_context perses =
    custom_or (default_container false ("ALL" ∷ [])) perses.spec.container_security_context
