-- ===== src/Pod/Volumes.antt =====
-- internal/perses/common/volumes.go, and GetSecretVolumeName of api/v1alpha2/common_types.go.
pub mod Mounted
use perses_operator.Prelude.{
  ℕ, String, Bool, true, false, not, ◌&&◌, ◌||◌, Option, none, some, List, [], ◌∷◌, ◌++◌, default,
  is_some, is_empty, leb, nat_eq, if◌then◌else◌, ◌<>◌, map,
}
use perses_operator.Errors.{Error}
use perses_operator.Act.{Outcome, ok, fail}
use perses_operator.Tags.{Text, codes, to_lower}
use perses_operator.Api.{
  Opaque, secret_type, config_map_type, file_type, other_type, Certificate, Tls,
}
use perses_operator.Api.Instance.{
  Perses, Volume, VolumeMount, VolumeSource, config_map_source, secret_source, secret_item_source,
  empty_dir_source, claim_source, no_source, ProvisioningSecret, SecretVersion, is_tls_enabled,
  storage_empty_dir,
}
use perses_operator.Pod.{
  config_mount_path, tls_cert_mount_path, default_file_mode, get_config_name, get_storage_name,
}

abbrev config_volume_name : Text
config_volume_name = codes "config"

abbrev plugins_volume_name : Text
plugins_volume_name = codes "plugins"

abbrev pub storage_volume_name : Text
storage_volume_name = codes "storage"

abbrev ca_volume_name : Text
ca_volume_name = codes "ca"

abbrev tls_volume_name : Text
tls_volume_name = codes "tls"

-- `(*ProvisioningSecret).String`
abbrev pub secret_text : ProvisioningSecret → String
secret_text p = p.name <> "-" <> p.key

-- `[a-z0-9]`
abbrev pub is_lower_alnum : ℕ → Bool
is_lower_alnum c = (leb b'a' c && leb c b'z') || (leb b'0' c && leb c b'9')

-- `volumeNameRegex.ReplaceAllString(name, "-")`: each longest run of other characters becomes one
-- dash. `in_run` tells that the character before belongs to such a run.
unfoldable pub replace_runs : Bool → Text → Text
replace_runs in_run [] = []
replace_runs in_run (c ∷ s) =
    let rest = replace_runs (not (is_lower_alnum c)) s in
    if is_lower_alnum c then c ∷ rest else if in_run then rest else b'-' ∷ rest

-- `strings.Trim(name, "-")`
abbrev drop_dashes : Text → Text
drop_dashes [] = []
drop_dashes (c ∷ s) = let rest = drop_dashes s in if nat_eq c b'-' then rest else c ∷ s

abbrev drop_trailing_dashes : Text → Text
drop_trailing_dashes [] = []
drop_trailing_dashes (c ∷ s) =
    let rest = drop_trailing_dashes s in if is_empty rest && nat_eq c b'-' then [] else c ∷ rest

-- A volume by its name and source.
abbrev volume : Text → VolumeSource → Volume
volume name source = record { name = name; source = source }

abbrev mount : Text → Bool → String → VolumeMount
mount name read_only path = record {
  name = name;
  read_only = read_only;
  mount_path = path;
  sub_path = "";
}

-- `if x != nil { append }`
abbrev for_some : {A B : Type 0} → (A → B) → Option A → List B
for_some f none = []
for_some f (some a) = f a ∷ []

unfoldable pub create_cert_volume : Text → Certificate → Volume
create_cert_volume name cert = elim cert.source.kind [
  | secret_type ↦ volume name (secret_source (default "" cert.source.name) default_file_mode)
  | config_map_type ↦
      volume name (config_map_source (default "" cert.source.name) default_file_mode)
  | file_type ↦ volume name no_source
  | other_type _ ↦ volume name no_source
]

abbrev tls_volumes : Option Tls → List Volume
tls_volumes none = []
tls_volumes (some tls) =
    for_some (create_cert_volume ca_volume_name) tls.ca_cert
    ++ for_some (create_cert_volume tls_volume_name) tls.user_cert

abbrev tls_mounts : Option Tls → List VolumeMount
tls_mounts none = []
tls_mounts (some tls) =
    for_some (λ (c : Certificate). mount ca_volume_name true "/ca") tls.ca_cert
    ++ for_some (λ (c : Certificate). mount tls_volume_name true tls_cert_mount_path) tls.user_cert

-- `lower` is `unicode.ToLower` beyond ASCII, `join` is `filepath.Join`.
module _ (lower : ℕ → ℕ) (join : String → String → String) where
  unfoldable pub get_secret_volume_name : ProvisioningSecret → Text
  unfolding replace_runs
  get_secret_volume_name p =
      codes "provisioning-"
      ++ drop_trailing_dashes
          (drop_dashes (replace_runs false (to_lower lower (codes (secret_text p)))))

  unfoldable pub secret_volumes : List ProvisioningSecret → List Volume
  secret_volumes [] = []
  secret_volumes (p ∷ ps) =
      volume (get_secret_volume_name p) (secret_item_source p.name p.key (secret_text p))
      ∷ secret_volumes ps

  unfoldable pub secret_mounts : List ProvisioningSecret → List VolumeMount
  secret_mounts [] = []
  secret_mounts (p ∷ ps) =
      record {
        name = get_secret_volume_name p;
        read_only = true;
        mount_path = join "/etc/perses/provisioning/secrets" (secret_text p);
        sub_path = secret_text p;
      }
      ∷ secret_mounts ps

  -- The storage of a file database: the emptyDir of the resource, or else the claim.
  abbrev storage_source : Perses → VolumeSource
  storage_source perses = elim (storage_empty_dir perses.spec.storage) [
    | some dir ↦ empty_dir_source (some dir)
    | none ↦ claim_source (get_storage_name perses.name)
  ]

  abbrev fixed_volumes : Perses → List Volume
  fixed_volumes perses =
      volume config_volume_name (config_map_source (get_config_name perses.name) default_file_mode)
      ∷ volume plugins_volume_name (empty_dir_source none)
      ∷ []

  abbrev storage_volumes : Perses → List Volume
  storage_volumes perses =
      if is_some perses.spec.config.database_file
      then volume storage_volume_name (storage_source perses) ∷ []
      else []

  abbrev cert_volumes : Perses → List Volume
  cert_volumes perses = if is_tls_enabled perses then tls_volumes perses.spec.tls else []

  unfoldable pub get_volumes : Perses → List Volume
  get_volumes perses =
      fixed_volumes perses
      ++ (storage_volumes perses
          ++ (cert_volumes perses
              ++ (secret_volumes (default [] perses.spec.provisioning) ++ perses.spec.volumes)))

  abbrev fixed_mounts : List VolumeMount
  fixed_mounts =
      mount config_volume_name true config_mount_path
      ∷ mount plugins_volume_name false "/etc/perses/plugins"
      ∷ []

  abbrev storage_mounts : Perses → List VolumeMount
  storage_mounts perses =
      if is_some perses.spec.config.database_file
      then mount storage_volume_name false "/perses" ∷ []
      else []

  abbrev cert_mounts : Perses → List VolumeMount
  cert_mounts perses = if is_tls_enabled perses then tls_mounts perses.spec.tls else []

  unfoldable pub get_volume_mounts : Perses → List VolumeMount
  get_volume_mounts perses =
      fixed_mounts
      ++ (storage_mounts perses
          ++ (cert_mounts perses
              ++ (secret_mounts (default [] perses.spec.provisioning)
                  ++ perses.spec.volume_mounts)))

-- `encode` stands for the library calls: the text of the JSON's SHA-256 sum, or an error.
unfoldable pub get_provisioning_hash :
    (List SecretVersion → Outcome Error String) → Perses → Outcome Error String
get_provisioning_hash encode perses = elim perses.provisioning_status [
  | none ↦ ok ""
  | some versions ↦ encode versions
]
