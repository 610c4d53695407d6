-- ===== src/Examples/Readings.antt =====
-- Tags, secrets and conditions that are read from the resources of the examples.
use perses_operator.Prelude.{
  ◌≡◌, ◌≢◌, ◌↔◌, refl, String, Bool, true, false, none, some, List, [], ◌∷◌, Dict, lookup, arith,
  is_empty, eq_iff, eq_refl, ◌==◌, if◌then◌else◌,
}
use perses_operator.Act.{ok}
use perses_operator.Api.{Condition, BasicAuth, OAuth, Certificate, secret_type, SecretSource, raw}
use perses_operator.World.{Env}
use perses_operator.Tags.{
  Text, mem_text, codes, tags_annotation, parse_tags, add_tags, split_commas, trim_space, is_space,
  to_lower, to_lower_rune,
}
use perses_operator.Tags.Laws.{IsTagSet, IsTagOf, parse_tags-IsTagSet}
use perses_operator.Tags.Tidy.{LowersRunes}
use perses_operator.Secret.{
  get_basic_auth_data, get_oauth_data, get_tls_cert_data, data_at, data_at_path, cluster_read,
}
use perses_operator.Secret.Access.{
  IsRead, get_basic_auth_data_iff, get_oauth_data_iff, get_tls_cert_data_iff,
}
use perses_operator.Controller.{complete_update, degraded_update, unknown_update}
use perses_operator.Controller.Status.{
  HasConditions, is_available, is_degraded, is_true_status, status_updates,
}
use perses_operator.Kinds.{dashboards}
use perses_operator.Examples.{Objects, test_env, test_resource, test_request}

-- A list of tags with a repetition, a space and two cases: only "node" and "cpu" are left.
test_tags :
    parse_tags (λ c. c) test_resource.annotations
    ≡ some ((b'c' ∷ b'p' ∷ b'u' ∷ []) ∷ (b'n' ∷ b'o' ∷ b'd' ∷ b'e' ∷ []) ∷ [])
unfolding parse_tags add_tags split_commas trim_space is_space to_lower to_lower_rune lookup
test_tags = refl

runes : LowersRunes (λ c. c)
runes = record { keeps_nonspace = λ c h. h; no_capital = λ c h. ground (arith, h) }

test_annotation : lookup tags_annotation test_resource.annotations ≡ some "Node, ,node,CPU"
unfolding lookup
test_annotation = refl

parse_tags-IsTagSet_example :
    let tags : List Text = (b'c' ∷ b'p' ∷ b'u' ∷ []) ∷ (b'n' ∷ b'o' ∷ b'd' ∷ b'e' ∷ []) ∷ [] in
    IsTagSet tags
    × ((t : Text)
        → (mem_text t tags ≡ true) ↔ (
            (is_empty t ≡ false)
            × IsTagOf (λ c. c) runes (split_commas (codes "Node, ,node,CPU")) t))
parse_tags-IsTagSet_example =
    parse_tags-IsTagSet (λ c. c) runes test_resource.annotations "Node, ,node,CPU" _ test_annotation
      test_tags

abbrev test_source : SecretSource
test_source = record { kind = secret_type; name = some "credentials"; namespace = none }

abbrev test_password : String
test_password = "hunter2"

abbrev no_text : String
no_text = ""

abbrev test_data : Dict String
test_data = ("password", "hunter2") ∷ []

named : (λ (s : String). s ≢ "") "credentials"
named h = ground (arith, eq_iff "credentials" "", h)

test-IsRead :
    IsRead test_env.reader "team" "cpu"
      (λ k p n. none)
      (λ k p n. none)
      test_env.reader.get_secret
      test_data
      test_source
unfolding cluster_read
test-IsRead = (refl, named, refl)

abbrev test_basic_auth : BasicAuth
test_basic_auth = record { source = test_source; username = "admin"; password_path = "password" }

get_basic_auth_data_iff_example :
    (get_basic_auth_data test_env.reader "team" "cpu" test_basic_auth (λ k p n. none)
      ≡ (ok "hunter2", λ k p n. none))
    ↔ (("hunter2" ≡ data_at "password" test_data) × (test_password ≢ no_text))
get_basic_auth_data_iff_example =
    get_basic_auth_data_iff test_env.reader "team" "cpu" (λ k p n. none) (λ k p n. none)
      test_env.reader.get_secret test_data test_basic_auth "hunter2" test-IsRead

abbrev test_oauth : OAuth
test_oauth = record {
  source = test_source;
  client_id_path = some "password";
  client_secret_path = none;
  token_url = "http://token";
  scopes = [];
  endpoint_params = raw "";
  auth_style = none;
}

get_oauth_data_iff_example :
    (get_oauth_data test_env.reader "team" "cpu" test_oauth (λ k p n. none)
      ≡ (ok ("hunter2", ""), λ k p n. none))
    ↔ (("hunter2" ≡ data_at_path (some "password") test_data)
        × ("" ≡ data_at_path none test_data)
        × (test_password ≢ no_text)
        × (no_text ≢ no_text))
get_oauth_data_iff_example =
    get_oauth_data_iff test_env.reader "team" "cpu" (λ k p n. none) (λ k p n. none)
      test_env.reader.get_secret test_data test_oauth "hunter2" "" test-IsRead

abbrev test_certificate : Certificate
test_certificate = record { source = test_source; cert_path = "password"; private_key_path = none }

get_tls_cert_data_iff_example :
    (get_tls_cert_data test_env.reader "team" "cpu" test_certificate (λ k p n. none)
      ≡ (ok ("hunter2", ""), λ k p n. none))
    ↔ (("hunter2" ≡ data_at "password" test_data)
        × ("" ≡ data_at_path none test_data)
        × (test_password ≢ no_text))
get_tls_cert_data_iff_example =
    get_tls_cert_data_iff test_env.reader "team" "cpu" (λ k p n. none) (λ k p n. none)
      test_env.reader.get_secret test_data test_certificate "hunter2" "" test-IsRead

-- Conditions of which the newest of each type counts.
abbrev newest : List Condition → String → Bool
newest [] kind = false
newest (c ∷ cs) kind = if c.kind == kind then is_true_status c.status else newest cs kind

abbrev condition_env : Env Objects Unit
condition_env = record test_env {
  set_status_condition = λ cs c. c ∷ cs;
  is_status_condition_true = newest;
}

condition_laws : HasConditions condition_env
condition_laws = record {
  set_here = λ cs c. rw (eq_refl c.kind) refl;
  set_elsewhere = λ cs c kind h. rw h;
  none_true = λ kind. refl;
}

status_updates_example :
    ((is_available condition_laws
          (dashboards condition_env)
          test_request
          (complete_update condition_env (dashboards condition_env) test_request test_resource)
        ≡ true)
      × (is_degraded condition_laws
            (dashboards condition_env)
            test_request
            (complete_update condition_env (dashboards condition_env) test_request test_resource)
          ≡ false))
    × ((is_available condition_laws (dashboards condition_env) test_request (
            degraded_update condition_env
              (dashboards condition_env)
              test_request
              "PersesMissing"
              "none"
              test_resource)
          ≡ false)
        × (is_degraded condition_laws (dashboards condition_env) test_request (
              degraded_update condition_env
                (dashboards condition_env)
                test_request
                "PersesMissing"
                "none"
                test_resource)
            ≡ true))
    × (is_available condition_laws
          (dashboards condition_env)
          test_request
          (unknown_update condition_env (dashboards condition_env) test_request test_resource)
        ≡ is_available condition_laws (dashboards condition_env) test_request test_resource)
status_updates_example =
    status_updates condition_laws (dashboards condition_env) test_request test_resource
      "PersesMissing" "none"
