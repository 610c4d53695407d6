-- ===== src/Conversion.antt =====
-- The conversion between the API versions, api/v1alpha1/perses_conversion.go,
-- persesdatasource_conversion.go and zz_generated.conversion.go: the types of a client's
-- configuration. The names here are those of the version v1alpha1, and `Api` has those of v1alpha2.
-- A conversion never fails: every function returns the error of the functions that it calls, and
-- those of the library return none.
pub mod Spec
pub mod RoundTrip
use perses_operator.Prelude.{
  ℕ, ◌+◌, ◌%◌, String, Bool, true, false, Option, none, some, List, nat_eq, ltb, if◌then◌else◌,
}
use perses_operator.Api
use perses_operator.Api.{Opaque, SecretSourceType}

pub record SecretSource : Type 0 where
  pub kind : SecretSourceType
  pub name : String
  pub namespace : String

pub record BasicAuth : Type 0 where
  pub source : SecretSource
  pub username : String
  pub password_path : String

-- `AuthStyle` is an `int`: its 64 bits, read as a natural number.
pub record OAuth : Type 0 where
  pub source : SecretSource
  pub client_id_path : String
  pub client_secret_path : String
  pub token_url : String
  pub scopes : List String
  pub endpoint_params : Opaque
  pub auth_style : ℕ

pub record Certificate : Type 0 where
  pub source : SecretSource
  pub cert_path : String
  pub private_key_path : String

pub record Tls : Type 0 where
  pub enable : Bool
  pub ca_cert : Option Certificate
  pub user_cert : Option Certificate
  pub insecure_skip_verify : Bool

-- `KubernetesAuth` has the one field `Enable`.
pub record Client : Type 0 where
  pub basic_auth : Option BasicAuth
  pub oauth : Option OAuth
  pub tls : Option Tls
  pub kubernetes_auth : Option Bool

-- The conversions of k8s.io/apimachinery between a value and a pointer to one, and its test on a
-- quantity.
pub record Pointers : Type 0 where
  pub string_to_pointer : String → Option String
  pub pointer_to_string : Option String → String
  pub bool_to_pointer : Bool → Option Bool
  pub pointer_to_bool : Option Bool → Bool
  pub int32_to_pointer : ℕ → Option ℕ
  pub pointer_to_int32 : Option ℕ → ℕ
  pub is_zero : String → Bool
  pub zero_quantity : String

-- `if in.X != nil { out.X = new(…); Convert(…) } else { out.X = nil }`
abbrev pub convert_some : {A B : Type 0} → (A → B) → Option A → Option B
convert_some f none = none
convert_some f (some a) = some (f a)

-- `int32(n)` keeps the lower 32 bits, and `int(n)` repeats the sign bit in the upper ones.
abbrev pub to_int32 : ℕ → ℕ
to_int32 n = n % 4294967296

abbrev pub from_int32 : ℕ → ℕ
from_int32 n = if ltb n 2147483648 then n else n + 18446744069414584320

module _ (c : Pointers) where
  unfoldable pub secret_source_to : SecretSource → Api.SecretSource
  secret_source_to i = record {
    kind = i.kind;
    name = c.string_to_pointer i.name;
    namespace = c.string_to_pointer i.namespace;
  }

  unfoldable pub secret_source_from : Api.SecretSource → SecretSource
  secret_source_from i = record {
    kind = i.kind;
    name = c.pointer_to_string i.name;
    namespace = c.pointer_to_string i.namespace;
  }

  unfoldable pub basic_auth_to : BasicAuth → Api.BasicAuth
  basic_auth_to i = record {
    source = secret_source_to i.source;
    username = i.username;
    password_path = i.password_path;
  }

  unfoldable pub basic_auth_from : Api.BasicAuth → BasicAuth
  basic_auth_from i = record {
    source = secret_source_from i.source;
    username = i.username;
    password_path = i.password_path;
  }

  -- A style of 0 is left out.
  abbrev pub auth_style_to : ℕ → Option ℕ
  auth_style_to n = if nat_eq n 0 then none else some (to_int32 n)

  abbrev pub auth_style_from : Option ℕ → ℕ
  auth_style_from none = 0
  auth_style_from (some n) = from_int32 n

  unfoldable pub oauth_to : OAuth → Api.OAuth
  oauth_to i = record {
    source = secret_source_to i.source;
    client_id_path = c.string_to_pointer i.client_id_path;
    client_secret_path = c.string_to_pointer i.client_secret_path;
    token_url = i.token_url;
    scopes = i.scopes;
    endpoint_params = i.endpoint_params;
    auth_style = auth_style_to i.auth_style;
  }

  unfoldable pub oauth_from : Api.OAuth → OAuth
  oauth_from i = record {
    source = secret_source_from i.source;
    client_id_path = c.pointer_to_string i.client_id_path;
    client_secret_path = c.pointer_to_string i.client_secret_path;
    token_url = i.token_url;
    scopes = i.scopes;
    endpoint_params = i.endpoint_params;
    auth_style = auth_style_from i.auth_style;
  }

  unfoldable pub certificate_to : Certificate → Api.Certificate
  certificate_to i = record {
    source = secret_source_to i.source;
    cert_path = i.cert_path;
    private_key_path = c.string_to_pointer i.private_key_path;
  }

  unfoldable pub certificate_from : Api.Certificate → Certificate
  certificate_from i = record {
    source = secret_source_from i.source;
    cert_path = i.cert_path;
    private_key_path = c.pointer_to_string i.private_key_path;
  }

  unfoldable pub tls_to : Tls → Api.Tls
  tls_to i = record {
    enable = c.bool_to_pointer i.enable;
    ca_cert = convert_some certificate_to i.ca_cert;
    user_cert = convert_some certificate_to i.user_cert;
    insecure_skip_verify = c.bool_to_pointer i.insecure_skip_verify;
  }

  unfoldable pub tls_from : Api.Tls → Tls
  tls_from i = record {
    enable = c.pointer_to_bool i.enable;
    ca_cert = convert_some certificate_from i.ca_cert;
    user_cert = convert_some certificate_from i.user_cert;
    insecure_skip_verify = c.pointer_to_bool i.insecure_skip_verify;
  }

  -- KubernetesAuth, by its one field
  unfoldable pub kubernetes_auth_to : Bool → Option Bool
  kubernetes_auth_to enable = c.bool_to_pointer enable

  unfoldable pub kubernetes_auth_from : Option Bool → Bool
  kubernetes_auth_from enable = c.pointer_to_bool enable

  unfoldable pub client_to : Client → Api.Client
  client_to i = record {
    basic_auth = convert_some basic_auth_to i.basic_auth;
    oauth = convert_some oauth_to i.oauth;
    tls = convert_some tls_to i.tls;
    kubernetes_auth = convert_some kubernetes_auth_to i.kubernetes_auth;
  }

  unfoldable pub client_from : Api.Client → Client
  client_from i = record {
    basic_auth = convert_some basic_auth_from i.basic_auth;
    oauth = convert_some oauth_from i.oauth;
    tls = convert_some tls_from i.tls;
    kubernetes_auth = convert_some kubernetes_auth_from i.kubernetes_auth;
  }
