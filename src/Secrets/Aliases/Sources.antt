-- ===== src/Secrets/Aliases/Sources.antt =====
-- Which source a secret comes from.
use vibewarden.Prelude.{
  ◌≡◌, ◌≢◌, ◌↔◌, ◌⊎◌, inl, inr, arith, false, String, str_append, eq_iff, Option, none, some,
  Result, ok, err, Option-cases, if◌then◌else◌,
}
use vibewarden.Prelude.Dict.{Dict}
use vibewarden.Secrets.Aliases.{
  WellKnownAlias, resolve_alias, SecretStore, secret_not_found, Service, RetrievedSecret,
  SecretError, credentials_file, get_or_missing, try_dynamic_credentials, static_unless, ask_store,
  try_open_bao, try_credentials_file, from_file, fall_back, finish_get, get_as, get_secret,
  skip_open_bao, open_bao_path_of, dynamic_role_of,
}

-- The store is asked and has nothing at this path, which is no failure.
abbrev IsMissing : SecretStore → String → Type 0
IsMissing store path = (store.get path ≡ err secret_not_found) ⊎ (store.get path ≡ ok none)

abbrev HasNothing : SecretStore → WellKnownAlias → Type 0
HasNothing store a =
    (store.healthy ≡ false)
    ⊎ (IsMissing store a.open_bao_path
        × ((a.dynamic_role ≡ "") ⊎ IsMissing store (str_append "database/creds/" a.dynamic_role)))

-- Nothing is to be had from the secret store for a well-known name.
abbrev pub IsSilent : Option SecretStore → WellKnownAlias → Type 0
IsSilent none a = Unit
IsSilent (some store) a = (a.open_bao_path ≡ "") ⊎ HasNothing store a

get_or_missing_iff :
    (store : SecretStore) (path : String)
    → (get_or_missing store path ≡ ok none) ↔ IsMissing store path
unfolding get_or_missing
get_or_missing_iff store path = ground arith

static_unless_iff :
    (store : SecretStore) (path : String) (first : Result SecretError (Option (Dict String)))
    → (static_unless store path first ≡ ok none) ↔ ((first ≡ ok none) × IsMissing store path)
unfolding static_unless
static_unless_iff store path (err e) = ground arith
static_unless_iff store path (ok none) = ground (arith, get_or_missing_iff store path)
static_unless_iff store path (ok (some found)) = ground arith

ask_store_iff :
    (store : SecretStore) (a : WellKnownAlias)
    → a.open_bao_path ≢ ""
    → (ask_store store (some a) a.open_bao_path ≡ ok none) ↔ HasNothing store a
unfolding ask_store try_dynamic_credentials dynamic_role_of
ask_store_iff store a h = ground (
  arith,
  eq_iff a.open_bao_path "",
  eq_iff a.dynamic_role "",
  get_or_missing_iff store a.open_bao_path,
  static_unless_iff store a.open_bao_path
      (get_or_missing store (str_append "database/creds/" a.dynamic_role)),
  get_or_missing_iff store (str_append "database/creds/" a.dynamic_role),
)

first_try_iff :
    (store : Option SecretStore) (a : WellKnownAlias) (path : String)
    → ((if skip_open_bao (some a)
          then ok none
          else try_open_bao store (some a) (open_bao_path_of (some a) path))
        ≡ ok none)
      ↔ IsSilent store a
unfolding skip_open_bao try_open_bao open_bao_path_of
first_try_iff none a path = ground (arith, eq_iff a.open_bao_path "")
first_try_iff (some store) a path = ground (arith, eq_iff a.open_bao_path "", ask_store_iff store a)

from_file_iff :
    (found : Result SecretError (Option (Dict String))) (a : WellKnownAlias) (path : String)
    (r : RetrievedSecret)
    → (from_file found a path ≡ ok r) ↔ (
        (found ≡ ok (some r.contents))
        × (r ≡ record {
          path = path;
          alias = a.name;
          contents = r.contents;
          source = credentials_file;
        }))
unfolding from_file
from_file_iff (err e) a path r = ground arith
from_file_iff (ok none) a path r = ground arith
from_file_iff (ok (some found)) a path r = ground arith

finish_get_iff :
    (first : Result SecretError (Option (Dict String))) (s : Service) (a : WellKnownAlias)
    (path : String) (r : RetrievedSecret)
    → ((finish_get first s (some a) path ≡ ok r) × (r.source ≡ credentials_file)) ↔ (
        (first ≡ ok none)
        × (try_credentials_file s.cred_store a ≡ ok (some r.contents))
        × (r ≡ record {
          path = path;
          alias = a.name;
          contents = r.contents;
          source = credentials_file;
        }))
unfolding finish_get fall_back
finish_get_iff (err e) s a path r = ground arith
finish_get_iff (ok none) s a path r =
    ground (arith, from_file_iff (try_credentials_file s.cred_store a) a path r)
finish_get_iff (ok (some found)) s a path r = ground arith

unknown_never_file :
    (first : Result SecretError (Option (Dict String))) (s : Service) (path : String)
    (r : RetrievedSecret)
    → finish_get first s none path ≡ ok r
    → r.source ≢ credentials_file
unfolding finish_get fall_back
unknown_never_file (err e) s path r h = ground arith
unknown_never_file (ok none) s path r h = ground arith
unknown_never_file (ok (some found)) s path r h = ground arith

get_as_iff :
    (s : Service) (a : WellKnownAlias) (path : String) (r : RetrievedSecret)
    → ((get_as s (some a) path ≡ ok r) × (r.source ≡ credentials_file)) ↔ (
        IsSilent s.secret_store a
        × (try_credentials_file s.cred_store a ≡ ok (some r.contents))
        × (r ≡ record {
          path = path;
          alias = a.name;
          contents = r.contents;
          source = credentials_file;
        }))
unfolding get_as
get_as_iff s a path r =
    let first =
      if skip_open_bao (some a)
      then ok none
      else try_open_bao s.secret_store (some a) (open_bao_path_of (some a) path) in
    let finished = finish_get_iff first s a path r in
    let silent = first_try_iff s.secret_store a path in
    (
      λ h. let (nothing, found, same) = finished.0 h in (silent.0 nothing, found, same),
      λ (nothing, found, same). finished.1 (silent.1 nothing, found, same),
    )

unknown_get_as :
    (s : Service) (path : String) (r : RetrievedSecret)
    → get_as s none path ≡ ok r
    → r.source ≢ credentials_file
unfolding get_as
unknown_get_as s path r h = unknown_never_file _ s path r h

-- A secret comes from the credentials file exactly if its name is a well-known one, nothing is to be
-- had for it from the secret store, and the file gives a value for it: the store is not configured or
-- not asked, or it is not healthy, or it has neither a dynamic nor a static secret there.
pub get_secret-file_iff :
    (s : Service) (name : String) (r : RetrievedSecret)
    → ((get_secret s name ≡ ok r) × (r.source ≡ credentials_file)) ↔ (
        (a : WellKnownAlias) × (resolve_alias name ≡ some a)
        × IsSilent s.secret_store a
        × (try_credentials_file s.cred_store a ≡ ok (some r.contents))
        × (r ≡ record {
          path = name;
          alias = a.name;
          contents = r.contents;
          source = credentials_file;
        }))
unfolding get_secret
get_secret-file_iff s name r = (
  λ h. elim (Option-cases (resolve_alias name)) [
    | inl e ↦ absurd (unknown_get_as s name r (rw e at h.0) h.1)
    | inr (a, e) ↦
        let (silent, found, same) = (get_as_iff s a name r).0 (rw e at h.0, h.1) in
        (a, e, silent, found, same)
  ],
  λ (a, e, silent, found, same). rw e ((get_as_iff s a name r).1 (silent, found, same)),
)
