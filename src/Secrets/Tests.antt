-- ===== src/Secrets/Tests.antt =====
-- Runs of the secret references and of the retrieval, and their theorems at concrete inputs.
use vibewarden.Prelude.{◌≡◌, ◌↔◌, refl, arith, true, List, [], ◌∷◌, some, ok, err}
use vibewarden.Prelude.Text.{text_of, text_eq, has_prefix, drop_prefix}
use vibewarden.Prelude.Split.{split, cut, cut_last, contains_code}
use vibewarden.Prelude.Dict.{lookup, insert}
use vibewarden.Secrets.{
  Uri, percent, empty_segment, traversal, no_slash, check_segments, parse_uri, uri_string, is_uri,
}
use vibewarden.Secrets.RoundTrip.{IsSafe, parse_uri_iff}
use vibewarden.Secrets.Placeholders.{
  find_placeholders, contains_placeholder, contains_escaped_placeholder, find_from, match_at,
  escaped_at,
}
use vibewarden.Secrets.Scan.{
  plain, placeholder, escaped, render, placeholders, find_placeholders-render, Chunk,
}
use vibewarden.Secrets.Aliases.{
  SecretStore, secret_not_found, store_failure, Service, RetrievedSecret, credentials_file,
  open_bao_retrieval, get_secret, resolve_alias, try_credentials_file, WellKnownAlias, try_open_bao,
  SecretSource,
}
use vibewarden.Secrets.Aliases.Sources.{IsSilent, get_secret-file_iff}

abbrev google : Uri
google = record { path = text_of "auth/google"; key = text_of "client_id" }

-- What the runs compute with.
parses : parse_uri (text_of "secret://auth/google/client_id") ≡ ok google
unfolding parse_uri has_prefix drop_prefix text_eq contains_code check_segments split cut_last
parses = refl

encoded_is_refused : parse_uri (text_of "secret://auth/%2e/key") ≡ err percent
unfolding parse_uri has_prefix drop_prefix text_eq contains_code
encoded_is_refused = refl

traversal_is_refused : parse_uri (text_of "secret://../sys/key") ≡ err traversal
unfolding parse_uri has_prefix drop_prefix text_eq contains_code check_segments split
traversal_is_refused = refl

absolute_is_refused : parse_uri (text_of "secret:///sys/key") ≡ err empty_segment
unfolding parse_uri has_prefix drop_prefix text_eq contains_code check_segments split
absolute_is_refused = refl

bare_is_refused : parse_uri (text_of "secret://key") ≡ err no_slash
unfolding parse_uri has_prefix drop_prefix text_eq contains_code check_segments split cut_last
bare_is_refused = refl

prefix_is_enough : is_uri (text_of "secret://") ≡ true
unfolding is_uri has_prefix
prefix_is_enough = refl

parse_uri_iff_example :
    (parse_uri (text_of "secret://auth/google/client_id") ≡ ok google)
    ↔ ((text_of "secret://auth/google/client_id" ≡ uri_string google) × IsSafe google)
parse_uri_iff_example = parse_uri_iff (text_of "secret://auth/google/client_id") google

abbrev mixed : List Chunk
mixed = plain (text_of "id=") ∷ placeholder google ∷ plain (text_of ", ") ∷ escaped google ∷ []

google-IsSafe : IsSafe google
unfolding split
google-IsSafe = grind arith

finds_one : contains_placeholder (render mixed) ≡ true
unfolding contains_placeholder uri_string find_placeholders find_from match_at has_prefix
    drop_prefix cut text_eq parse_uri contains_code check_segments split cut_last
finds_one = refl

sees_escape : contains_escaped_placeholder (render mixed) ≡ true
unfolding contains_escaped_placeholder escaped_at uri_string match_at has_prefix drop_prefix cut
    text_eq
sees_escape = refl

find_placeholders-render_example : find_placeholders (render mixed) ≡ placeholders mixed
find_placeholders-render_example =
    find_placeholders-render mixed (
      omega arith,
      ((google-IsSafe, omega arith), (omega arith, ((google-IsSafe, omega arith), tt))),
    )

abbrev empty_store : SecretStore
empty_store = record { healthy = true; get = λ path. err secret_not_found }

abbrev broken_store : SecretStore
broken_store = record { healthy = true; get = λ path. err (store_failure "permission denied") }

abbrev with_store : SecretStore → Service
with_store store = record {
  secret_store = some store;
  cred_store = ok (record {
    postgres_password = "pw";
    kratos_cookie_secret = "cookie";
    kratos_cipher_secret = "";
    grafana_admin_password = "admin";
    open_bao_prod_token = "root";
  });
}

abbrev from_credentials : RetrievedSecret
from_credentials = record {
  path = "postgres";
  alias = "postgres";
  contents = ("password", "pw") ∷ [];
  source = credentials_file;
}

falls_back : get_secret (with_store empty_store) "postgres" ≡ ok from_credentials
unfolding get_secret resolve_alias try_open_bao try_credentials_file lookup insert
falls_back = refl

failure_is_reported :
    get_secret (with_store broken_store) "postgres" ≡ err (open_bao_retrieval "permission denied")
unfolding get_secret resolve_alias try_open_bao
failure_is_reported = refl

get_secret-file_iff_example :
    ((get_secret (with_store empty_store) "postgres" ≡ ok from_credentials)
      × (◌≡◌ {A = SecretSource} credentials_file credentials_file))
    ↔ ((a : WellKnownAlias) × (resolve_alias "postgres" ≡ some a)
        × IsSilent (some empty_store) a
        × (try_credentials_file ((with_store empty_store).cred_store) a
            ≡ ok (some from_credentials.contents))
        × (from_credentials ≡ record {
          path = "postgres";
          alias = a.name;
          contents = from_credentials.contents;
          source = credentials_file;
        }))
get_secret-file_iff_example =
    get_secret-file_iff (with_store empty_store) "postgres" from_credentials
