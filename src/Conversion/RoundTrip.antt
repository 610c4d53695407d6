-- ===== src/Conversion/RoundTrip.antt =====
-- A resource of the old version is the same after it was stored in the new one.
use perses_operator.Prelude.{
  ℕ, ◌<◌, String, Bool, true, false, not, ◌&&◌, ◌≡◌, ◌↔◌, refl, sym, ap, Option, none, some,
  is_some, arith, if◌then◌else◌,
}
use perses_operator.Conversion.{
  Pointers, SecretSource, BasicAuth, OAuth, Certificate, Tls, Client, convert_some,
  secret_source_to, secret_source_from, basic_auth_to, basic_auth_from, oauth_to, oauth_from,
  auth_style_to, auth_style_from, certificate_to, certificate_from, tls_to, tls_from, client_to,
  client_from, kubernetes_auth_to, kubernetes_auth_from,
}
use perses_operator.Conversion.Spec.{
  PersesService, StorageConfiguration, PersesSpec, DatasourceSpec, service_to, service_from,
  empty_storage, storage_to, storage_from, perses_spec_to, perses_spec_from, datasource_spec_to,
  datasource_spec_from,
}

-- A pointer to a value is read as the value.
pub record IsRead (c : Pointers) : Type 0 where
  pub string_law : (s : String) → c.pointer_to_string (c.string_to_pointer s) ≡ s
  pub bool_law : (b : Bool) → c.pointer_to_bool (c.bool_to_pointer b) ≡ b
  pub int32_law : (n : ℕ) → c.pointer_to_int32 (c.int32_to_pointer n) ≡ n

-- What the values of an optional field fulfil.
abbrev pub AllSome : {A : Type 0} → (A → Type 0) → Option A → Type 0
AllSome P none = Unit
AllSome P (some a) = P a

convert_some-again :
    {A B : Type 0} (P : A → Type 0) (f : A → B) (g : B → A)
    → ((a : A) → P a → g (f a) ≡ a)
    → (o : Option A) → AllSome P o
    → convert_some g (convert_some f o) ≡ o
convert_some-again P f g h none k = refl
convert_some-again P f g h (some a) k = ap some (h a k)

all_unit : {A : Type 0} (o : Option A) → AllSome (λ a. Unit {0}) o
all_unit none = tt
all_unit (some a) = tt

module _ (c : Pointers) (l : IsRead c) where
  secret_source-again : (i : SecretSource) → secret_source_from c (secret_source_to c i) ≡ i
  unfolding secret_source_to secret_source_from
  secret_source-again i = λ j. record {
    kind = i.kind;
    name = l.string_law i.name j;
    namespace = l.string_law i.namespace j;
  }

  basic_auth-again : (i : BasicAuth) → basic_auth_from c (basic_auth_to c i) ≡ i
  unfolding basic_auth_to basic_auth_from
  basic_auth-again i = λ j. record {
    source = secret_source-again i.source j;
    username = i.username;
    password_path = i.password_path;
  }

  -- A style that an `int32` holds.
  abbrev pub FitsInt32 : OAuth → Type 0
  FitsInt32 i = i.auth_style < 2147483648

  auth_style-again : (n : ℕ) → n < 2147483648 → auth_style_from c (auth_style_to c n) ≡ n
  auth_style-again n h = ground arith

  oauth-again : (i : OAuth) → FitsInt32 i → oauth_from c (oauth_to c i) ≡ i
  unfolding oauth_to oauth_from
  oauth-again i h = λ j. record {
    source = secret_source-again i.source j;
    client_id_path = l.string_law i.client_id_path j;
    client_secret_path = l.string_law i.client_secret_path j;
    token_url = i.token_url;
    scopes = i.scopes;
    endpoint_params = i.endpoint_params;
    auth_style = auth_style-again i.auth_style h j;
  }

  certificate-again : (i : Certificate) → Unit {0} → certificate_from c (certificate_to c i) ≡ i
  unfolding certificate_to certificate_from
  certificate-again i u = λ j. record {
    source = secret_source-again i.source j;
    cert_path = i.cert_path;
    private_key_path = l.string_law i.private_key_path j;
  }

  certificates-again :
      (o : Option Certificate)
      → convert_some (certificate_from c) (convert_some (certificate_to c) o) ≡ o
  certificates-again o =
      convert_some-again (λ a. Unit {0}) (certificate_to c) (certificate_from c) certificate-again o
        (all_unit o)

  tls-again : (i : Tls) → Unit {0} → tls_from c (tls_to c i) ≡ i
  unfolding tls_to tls_from
  tls-again i u = λ j. record {
    enable = l.bool_law i.enable j;
    ca_cert = certificates-again i.ca_cert j;
    user_cert = certificates-again i.user_cert j;
    insecure_skip_verify = l.bool_law i.insecure_skip_verify j;
  }

  -- A client whose style of OAuth an `int32` holds.
  abbrev pub ClientFits : Client → Type 0
  ClientFits i = AllSome FitsInt32 i.oauth

  client-again : (i : Client) → ClientFits i → client_from c (client_to c i) ≡ i
  unfolding client_to client_from kubernetes_auth_to kubernetes_auth_from
  client-again i h = λ j. record {
    basic_auth =
        convert_some-again (λ a. Unit {0}) (basic_auth_to c) (basic_auth_from c)
          (λ a u. basic_auth-again a) i.basic_auth (all_unit i.basic_auth) j;
    oauth = convert_some-again FitsInt32 (oauth_to c) (oauth_from c) oauth-again i.oauth h j;
    tls =
        convert_some-again (λ a. Unit {0}) (tls_to c) (tls_from c) tls-again i.tls (all_unit i.tls)
          j;
    kubernetes_auth =
        convert_some-again (λ a. Unit {0}) (kubernetes_auth_to c) (kubernetes_auth_from c)
          (λ a u. l.bool_law a) i.kubernetes_auth (all_unit i.kubernetes_auth) j;
  }

  service-again : (i : PersesService) → Unit {0} → service_from c (service_to c i) ≡ i
  unfolding service_to service_from
  service-again i u = λ j. record { name = l.string_law i.name j; annotations = i.annotations }

  -- A size that is zero is the zero quantity.
  abbrev pub IsPlain : StorageConfiguration → Type 0
  IsPlain i = c.is_zero i.size ≡ true → i.size ≡ c.zero_quantity

  storage-cases :
      (cls : Option String) (size : String) (zero : Bool)
      → (zero ≡ true → size ≡ c.zero_quantity)
      → storage_from c (
          if not (is_some cls) && zero then empty_storage c else record {
            empty_dir = none;
            persistent_volume_claim_template = some (record {
              access_modes = none;
              storage_class_name = cls;
              storage_request = if zero then none else some size;
              other = none;
            });
          })
        ≡ record { storage_class = cls; size = size }
  unfolding storage_from
  storage-cases none size true h =
      ap (λ (z : String). record { storage_class = none; size = z }) (sym (h refl))
  storage-cases none size false h = refl
  storage-cases (some t) size true h =
      ap (λ (z : String). record { storage_class = some t; size = z }) (sym (h refl))
  storage-cases (some t) size false h = refl

  storage-again : (i : StorageConfiguration) → IsPlain i → storage_from c (storage_to c i) ≡ i
  unfolding storage_to
  storage-again i h = storage-cases i.storage_class i.size (c.is_zero i.size) h

  -- Where a pointer to a value is read as the value: a specification of the version v1alpha1 that is
  -- converted to v1alpha2 and back is the same, if the style of its OAuth configuration is at most
  -- what an int32 holds and the size of its storage, where it is zero, is written as the zero
  -- quantity.
  pub perses_spec_from-perses_spec_to :
      (i : PersesSpec)
      → AllSome ClientFits i.client
      → AllSome IsPlain i.storage
      → perses_spec_from c (perses_spec_to c i) ≡ i
  unfolding perses_spec_to perses_spec_from
  perses_spec_from-perses_spec_to i h k = λ j. record {
    metadata = i.metadata;
    client = convert_some-again ClientFits (client_to c) (client_from c) client-again i.client h j;
    config = i.config;
    args = i.args;
    container_port = l.int32_law i.container_port j;
    replicas = i.replicas;
    node_selector = i.node_selector;
    tolerations = i.tolerations;
    affinity = i.affinity;
    image = l.string_law i.image j;
    service =
        convert_some-again (λ a. Unit {0}) (service_to c) (service_from c) service-again i.service
          (all_unit i.service) j;
    liveness_probe = i.liveness_probe;
    readiness_probe = i.readiness_probe;
    tls =
        convert_some-again (λ a. Unit {0}) (tls_to c) (tls_from c) tls-again i.tls (all_unit i.tls)
          j;
    storage =
        convert_some-again IsPlain (storage_to c) (storage_from c) storage-again i.storage k j;
    service_account_name = l.string_law i.service_account_name j;
  }

-- A datasource's specification of the version v1alpha1 that is converted to v1alpha2 and back is the
-- same just where it has no client.
pub datasource_spec_from-datasource_spec_to_iff :
    (c : Pointers) (i : DatasourceSpec)
    → (datasource_spec_from c (datasource_spec_to c i) ≡ i) ↔ (i.client ≡ none)
unfolding datasource_spec_to datasource_spec_from
datasource_spec_from-datasource_spec_to_iff c i = (
  λ e. sym (ap (λ (d : DatasourceSpec). d.client) e),
  λ e j. record { config = i.config; client = sym e j },
)
