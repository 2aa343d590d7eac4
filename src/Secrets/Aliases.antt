-- ===== src/Secrets/Aliases.antt =====
-- internal/domain/secret/alias.go and internal/app/secret/service.go: secrets by a well-known name or
-- by a path, from the secret store first and from the credentials file otherwise. The store and the
-- file are parameters; the store's data may be missing without an error.
pub mod Sources
use vibewarden.Prelude.{
  Bool, true, false, String, str_eq, str_append, List, [], ◌∷◌, Option, none, some, Result, ok, err,
  if◌then◌else◌, not,
}
use vibewarden.Prelude.Dict.{Dict, lookup, insert}

pub record WellKnownAlias : Type 0 where
  pub name : String
  pub open_bao_path : String
  pub dynamic_role : String
  pub credentials_file_keys : List (String × String)
  pub env_prefix : String

abbrev well_known_aliases : List WellKnownAlias
well_known_aliases =
    record {
      name = "postgres";
      open_bao_path = "infra/postgres";
      dynamic_role = "app-readwrite";
      credentials_file_keys = ("POSTGRES_PASSWORD", "password") ∷ [];
      env_prefix = "POSTGRES_";
    }
    ∷ record {
      name = "kratos";
      open_bao_path = "infra/kratos";
      dynamic_role = "";
      credentials_file_keys =
          ("KRATOS_SECRETS_COOKIE", "cookie_secret")
          ∷ ("KRATOS_SECRETS_CIPHER", "cipher_secret")
          ∷ [];
      env_prefix = "KRATOS_";
    }
    ∷ record {
      name = "grafana";
      open_bao_path = "infra/grafana";
      dynamic_role = "";
      credentials_file_keys = ("GRAFANA_ADMIN_PASSWORD", "admin_password") ∷ [];
      env_prefix = "GRAFANA_";
    }
    ∷ record {
      name = "openbao";
      open_bao_path = "";
      dynamic_role = "";
      credentials_file_keys = ("OPENBAO_ROOT_TOKEN", "root_token") ∷ [];
      env_prefix = "OPENBAO_";
    }
    ∷ []

unfoldable find_alias : String → List WellKnownAlias → Option WellKnownAlias
find_alias name [] = none
find_alias name (a ∷ others) =
    let rest = find_alias name others in if str_eq a.name name then some a else rest

unfoldable pub resolve_alias : String → Option WellKnownAlias
unfolding find_alias
resolve_alias name = find_alias name well_known_aliases

pub data StoreError : Type 0 where
  secret_not_found : StoreError
  store_failure : String → StoreError

pub record SecretStore : Type 0 where
  pub healthy : Bool
  pub get : String → Result StoreError (Option (Dict String))

pub record GeneratedCredentials : Type 0 where
  pub postgres_password : String
  pub kratos_cookie_secret : String
  pub kratos_cipher_secret : String
  pub grafana_admin_password : String
  pub open_bao_prod_token : String

pub data ReadError : Type 0 where
  not_exist : ReadError
  read_failure : String → ReadError

pub record Service : Type 0 where
  pub secret_store : Option SecretStore
  pub cred_store : Result ReadError GeneratedCredentials

pub data SecretSource : Type 0 where
  open_bao credentials_file : SecretSource

pub record RetrievedSecret : Type 0 where
  pub path : String
  pub alias : String
  pub contents : Dict String
  pub source : SecretSource

pub data SecretError : Type 0 where
  open_bao_retrieval : String → SecretError
  reading_credentials : String → SecretError
  no_source_available : SecretError

-- A read of the store in which a missing secret is no error.
unfoldable pub get_or_missing : SecretStore → String → Result SecretError (Option (Dict String))
get_or_missing store path = elim (store.get path) [
  | ok found ↦ ok found
  | err e ↦ elim e [ secret_not_found ↦ ok none | store_failure m ↦ err (open_bao_retrieval m) ]
]

unfoldable pub try_dynamic_credentials :
    SecretStore → String → Result SecretError (Option (Dict String))
unfolding get_or_missing
try_dynamic_credentials store role = get_or_missing store (str_append "database/creds/" role)

unfoldable pub dynamic_role_of : Option WellKnownAlias → String
dynamic_role_of none = ""
dynamic_role_of (some a) = a.dynamic_role

unfoldable pub static_unless :
    SecretStore
    → String
    → Result SecretError (Option (Dict String))
    → Result SecretError (Option (Dict String))
static_unless store path (err e) = err e
static_unless store path (ok (some found)) = ok (some found)
static_unless store path (ok none) = get_or_missing store path

unfoldable pub ask_store :
    SecretStore → Option WellKnownAlias → String → Result SecretError (Option (Dict String))
unfolding try_dynamic_credentials dynamic_role_of static_unless get_or_missing
ask_store store alias path =
    if str_eq path ""
    then ok none
    else if not store.healthy
    then ok none
    else if not (str_eq (dynamic_role_of alias) "")
    then static_unless store path (try_dynamic_credentials store (dynamic_role_of alias))
    else get_or_missing store path

unfoldable pub try_open_bao :
    Option SecretStore → Option WellKnownAlias → String → Result SecretError (Option (Dict String))
unfolding ask_store
try_open_bao none alias path = ok none
try_open_bao (some store) alias path = ask_store store alias path

unfoldable cred_map : GeneratedCredentials → Dict String
cred_map c =
    ("POSTGRES_PASSWORD", c.postgres_password)
    ∷ ("KRATOS_SECRETS_COOKIE", c.kratos_cookie_secret)
    ∷ ("KRATOS_SECRETS_CIPHER", c.kratos_cipher_secret)
    ∷ ("GRAFANA_ADMIN_PASSWORD", c.grafana_admin_password)
    ∷ ("OPENBAO_ROOT_TOKEN", c.open_bao_prod_token)
    ∷ []

-- The loop over the keys of an alias: a value that is missing or empty is left out.
take_value : Option String → String → Dict String → Dict String
take_value none output out = out
take_value (some v) output out = if str_eq v "" then out else insert output v out

unfoldable select_keys : Dict String → List (String × String) → Dict String → Dict String
unfolding take_value
select_keys creds [] out = out
select_keys creds ((file_key, output) ∷ keys) out =
    select_keys creds keys (take_value (lookup file_key creds) output out)

nonempty : Dict String → Option (Dict String)
nonempty [] = none
nonempty (entry ∷ out) = some (entry ∷ out)

unfoldable pub try_credentials_file :
    Result ReadError GeneratedCredentials
    → WellKnownAlias
    → Result SecretError (Option (Dict String))
unfolding cred_map select_keys nonempty
try_credentials_file creds a = elim a.credentials_file_keys [
  | [] ↦ ok none
  | key ∷ keys ↦ elim creds [
    | ok c ↦ ok (nonempty (select_keys (cred_map c) a.credentials_file_keys []))
    | err e ↦ elim e [ not_exist ↦ ok none | read_failure m ↦ err (reading_credentials m) ]
  ]
]

unfoldable alias_name : Option WellKnownAlias → String
alias_name none = ""
alias_name (some a) = a.name

unfoldable pub open_bao_path_of : Option WellKnownAlias → String → String
open_bao_path_of none path = path
open_bao_path_of (some a) path = if not (str_eq a.open_bao_path "") then a.open_bao_path else path

unfoldable pub skip_open_bao : Option WellKnownAlias → Bool
skip_open_bao none = false
skip_open_bao (some a) = str_eq a.open_bao_path ""

unfoldable pub from_file :
    Result SecretError (Option (Dict String))
    → WellKnownAlias
    → String
    → Result SecretError RetrievedSecret
from_file (err e) a path = err e
from_file (ok none) a path = err no_source_available
from_file (ok (some found)) a path =
    ok (record { path = path; alias = a.name; contents = found; source = credentials_file })

unfoldable pub fall_back :
    Service → Option WellKnownAlias → String → Result SecretError RetrievedSecret
unfolding from_file
fall_back s none path = err no_source_available
fall_back s (some a) path = from_file (try_credentials_file s.cred_store a) a path

unfoldable pub finish_get :
    Result SecretError (Option (Dict String))
    → Service
    → Option WellKnownAlias
    → String
    → Result SecretError RetrievedSecret
unfolding fall_back alias_name open_bao_path_of
finish_get (err e) s alias path = err e
finish_get (ok none) s alias path = fall_back s alias path
finish_get (ok (some found)) s alias path = ok (record {
  path = open_bao_path_of alias path;
  alias = alias_name alias;
  contents = found;
  source = open_bao;
})

unfoldable pub get_as :
    Service → Option WellKnownAlias → String → Result SecretError RetrievedSecret
unfolding finish_get skip_open_bao open_bao_path_of
get_as s alias path =
    finish_get
      (if skip_open_bao alias
        then ok none
        else try_open_bao s.secret_store alias (open_bao_path_of alias path))
      s alias path

unfoldable pub get_secret : Service → String → Result SecretError RetrievedSecret
unfolding get_as
get_secret s alias_or_path = get_as s (resolve_alias alias_or_path) alias_or_path
