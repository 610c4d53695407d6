-- ===== src/Pod/Volumes/Mounted.antt =====
-- Every mount of the container names a volume of its pod.
use perses_operator.Prelude.{
  ℕ, String, Bool, true, false, ◌≡◌, refl, Option, none, some, List, [], ◌∷◌, ◌++◌, default,
  is_some, All, All-append, arith, if◌then◌else◌, ap, ◌∙◌,
}
use perses_operator.Tags.{Text, mem_text, text_eq}
use perses_operator.Api.{Tls, Certificate}
use perses_operator.Pod.{tls_cert_mount_path}
use perses_operator.Api.Instance.{
  Perses, Volume, VolumeMount, ProvisioningSecret, secret_item_source, is_tls_enabled,
}
use perses_operator.Pod.Volumes.{
  get_volumes, get_volume_mounts, secret_volumes, secret_mounts, tls_volumes, tls_mounts, for_some,
  create_cert_volume, get_secret_volume_name, volume, mount, ca_volume_name, tls_volume_name,
  storage_volume_name, storage_source, fixed_volumes, fixed_mounts, storage_volumes, storage_mounts,
  cert_volumes, cert_mounts, secret_text,
}

-- The names of volumes; `volumeNames` of validateVolumes for those of the resource.
abbrev pub names : List Volume → List Text
names [] = []
names (v ∷ vs) = v.name ∷ names vs

abbrev pub Mounted : List Volume → List VolumeMount → Type 0
Mounted vs ms = All (λ m. mem_text m.name (names vs) ≡ true) ms

mem_left :
    (t : Text) (a b : List Volume)
    → mem_text t (names a) ≡ true
    → mem_text t (names (a ++ b)) ≡ true
mem_left t [] b h = cc
mem_left t (v ∷ a) b h = ground (arith, mem_left t a b)

mem_right :
    (t : Text) (a b : List Volume)
    → mem_text t (names b) ≡ true
    → mem_text t (names (a ++ b)) ≡ true
mem_right t [] b h = h
mem_right t (v ∷ a) b h = ground (arith, mem_right t a b)

Mounted-left : (a b : List Volume) (ms : List VolumeMount) → Mounted a ms → Mounted (a ++ b) ms
Mounted-left a b [] h = tt
Mounted-left a b (m ∷ ms) h = (mem_left m.name a b h.0, Mounted-left a b ms h.1)

Mounted-right : (a b : List Volume) (ms : List VolumeMount) → Mounted b ms → Mounted (a ++ b) ms
Mounted-right a b [] h = tt
Mounted-right a b (m ∷ ms) h = (mem_right m.name a b h.0, Mounted-right a b ms h.1)

Mounted-append :
    (a b : List Volume) (ms ns : List VolumeMount)
    → Mounted a ms
    → Mounted b ns
    → Mounted (a ++ b) (ms ++ ns)
Mounted-append a b ms ns h k =
    All-append (λ m. mem_text m.name (names (a ++ b)) ≡ true) ms ns (Mounted-left a b ms h)
      (Mounted-right a b ns k)

pub text_eq_refl : (t : Text) → text_eq t t ≡ true
text_eq_refl [] = refl
text_eq_refl (c ∷ t) = ground (arith, text_eq_refl t)

Mounted-if :
    (b : Bool) (vs : List Volume) (ms : List VolumeMount)
    → Mounted vs ms
    → Mounted (if b then vs else []) (if b then ms else [])
Mounted-if true vs ms h = h
Mounted-if false vs ms h = tt

mem_head : (t : Text) (vs : List Text) → mem_text t (t ∷ vs) ≡ true
mem_head t vs = ground (arith, text_eq_refl t)

cert_name : (t : Text) (c : Certificate) → (create_cert_volume t c).name ≡ t
unfolding create_cert_volume
cert_name t c = ground arith

Mounted-cert :
    (t : Text) (path : String) (cert : Option Certificate)
    → Mounted
        (for_some (create_cert_volume t) cert)
        (for_some (λ (c : Certificate). mount t true path) cert)
Mounted-cert t path none = tt
Mounted-cert t path (some cert) =
    (ap (λ n. mem_text t (n ∷ [])) (cert_name t cert) ∙ mem_head t [], tt)

Mounted-tls : (tls : Option Tls) → Mounted (tls_volumes tls) (tls_mounts tls)
Mounted-tls none = tt
Mounted-tls (some tls) =
    Mounted-append (for_some (create_cert_volume ca_volume_name) tls.ca_cert)
      (for_some (create_cert_volume tls_volume_name) tls.user_cert)
      (for_some (λ (c : Certificate). mount ca_volume_name true "/ca") tls.ca_cert)
      (for_some (λ (c : Certificate). mount tls_volume_name true tls_cert_mount_path) tls.user_cert)
      (Mounted-cert ca_volume_name "/ca" tls.ca_cert)
      (Mounted-cert tls_volume_name tls_cert_mount_path tls.user_cert)

module _ (lower : ℕ → ℕ) (join : String → String → String) where
  Mounted-secret :
      (ps : List ProvisioningSecret)
      → Mounted (secret_volumes lower join ps) (secret_mounts lower join ps)
  unfolding secret_volumes secret_mounts
  Mounted-secret [] = tt
  Mounted-secret (p ∷ ps) = (
    mem_head (get_secret_volume_name lower join p) (names (secret_volumes lower join ps)),
    Mounted-right
        (volume (get_secret_volume_name lower join p)
            (secret_item_source p.name p.key (secret_text p))
          ∷ [])
        (secret_volumes lower join ps) (secret_mounts lower join ps) (Mounted-secret ps),
  )

  Mounted-storage :
      (perses : Perses)
      → Mounted (storage_volumes lower join perses) (storage_mounts lower join perses)
  Mounted-storage perses =
      Mounted-if (is_some perses.spec.config.database_file)
        (volume storage_volume_name (storage_source lower join perses) ∷ [])
        (mount storage_volume_name false "/perses" ∷ []) (refl, tt)

  Mounted-certs :
      (perses : Perses) → Mounted (cert_volumes lower join perses) (cert_mounts lower join perses)
  Mounted-certs perses =
      Mounted-if (is_tls_enabled perses) (tls_volumes perses.spec.tls) (tls_mounts perses.spec.tls)
        (Mounted-tls perses.spec.tls)

  -- Where each volume mount of the resource names a volume of the resource, as validateVolumes
  -- requires, every volume mount of the container names a volume of its pod.
  pub get_volume_mounts-Mounted :
      (perses : Perses)
      → Mounted perses.spec.volumes perses.spec.volume_mounts
      → Mounted (get_volumes lower join perses) (get_volume_mounts lower join perses)
  unfolding get_volumes get_volume_mounts
  get_volume_mounts-Mounted perses h =
      let secrets = default [] perses.spec.provisioning in
      let vs = secret_volumes lower join secrets ++ perses.spec.volumes in
      let ms = secret_mounts lower join secrets ++ perses.spec.volume_mounts in
      Mounted-append (fixed_volumes lower join perses)
        (storage_volumes lower join perses ++ (cert_volumes lower join perses ++ vs))
        (fixed_mounts lower join)
        (storage_mounts lower join perses ++ (cert_mounts lower join perses ++ ms))
        (refl, (refl, tt))
        (Mounted-append (storage_volumes lower join perses) (cert_volumes lower join perses ++ vs)
          (storage_mounts lower join perses) (cert_mounts lower join perses ++ ms)
          (Mounted-storage perses)
          (Mounted-append (cert_volumes lower join perses) vs (cert_mounts lower join perses) ms
            (Mounted-certs perses)
            (Mounted-append (secret_volumes lower join secrets) perses.spec.volumes
              (secret_mounts lower join secrets) perses.spec.volume_mounts (Mounted-secret secrets)
              h)))
