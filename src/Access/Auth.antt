-- ===== src/Access/Auth.antt =====
-- internal/middleware/auth.go: the authentication middleware. The identity provider is a parameter.
-- The header's keys are canonical, as net/http stores them, so that Del removes the key it is given.
-- The flag of an unavailable provider is an atomic number in the code, changed by one compare and
-- swap for each request, so requests that interleave act on it one after another. An event and the
-- audit event beside it are one event here.
pub mod Forward
pub mod Outage
use vibewarden.Prelude.{
  ◌≡◌, ◌≢◌, ◌↔◌, ◌⊎◌, ◌||◌, inl, inr, refl, arith, ℕ, suc, ◌+◌, Bool, true, false, not, ◌&&◌,
  String, str_eq, eq_iff, List, [], ◌∷◌, ◌++◌, All, Option, none, some, Bool-cases, if◌then◌else◌,
}
use vibewarden.Prelude.Text.{Text, text_of, has_prefix, to_lower}
use vibewarden.Access.Paths.{PathMatcher, new_public_path_matcher, vibewarden_prefix, matches}

pub record Identity : Type 0 where
  pub id : String
  pub email : String

pub record AuthResult : Type 0 where
  pub authenticated : Bool
  pub reason : String
  pub message : String
  pub identity : Identity

abbrev pub Header : Type 0
Header = List (Text × Text)

pub record Request : Type 0 where
  pub method : String
  pub path : Text
  pub header : Header

pub data Event : Type 0 where
  auth_success : Identity → Event
  auth_failed : (reason detail : String) → Event
  provider_unavailable : (message : String) → Event
  provider_recovered : Event

pub data Outcome : Type 0 where
  redirect_to_login service_unavailable : Outcome
  forward : Option Identity → Outcome

unfoldable pub is_x_user : Text → Bool
is_x_user key = has_prefix (text_of "x-user-") (to_lower key)

unfoldable pub strip_x_user_headers : Header → Header
unfolding is_x_user
strip_x_user_headers [] = []
strip_x_user_headers ((key, value) ∷ h) =
    let rest = strip_x_user_headers h in if is_x_user key then rest else (key, value) ∷ rest

-- The matcher of the configured public paths; patterns that are malformed are all dropped.
unfoldable public_matcher : List Text → PathMatcher
public_matcher patterns = elim (new_public_path_matcher patterns) [
  | some m ↦ m
  | none ↦ record { patterns = vibewarden_prefix ∷ [] }
]

-- The answer to one request: the flag, the events, what becomes of the request, and its header.
pub record Answer : Type 0 where
  pub unavailable : Bool
  pub events : List Event
  pub outcome : Outcome
  pub header : Header

abbrev on_recovery : Bool → List Event → List Event
on_recovery true es = provider_recovered ∷ es
on_recovery false es = es

abbrev on_outage : Bool → String → List Event → List Event
on_outage false message es = provider_unavailable message ∷ es
on_outage true message es = es

is_session_error : String → Bool
is_session_error reason =
    str_eq reason "no_credentials"
    || str_eq reason "session_not_found"
    || str_eq reason "session_invalid"

unfoldable pub answer : AuthResult → Bool → Header → Answer
unfolding is_session_error
answer result unavailable header =
    if not result.authenticated
    then if is_session_error result.reason
      then record {
        unavailable = false;
        events = on_recovery unavailable (auth_failed result.message "" ∷ []);
        outcome = redirect_to_login;
        header = header;
      }
      else if str_eq result.reason "provider_unavailable"
      then record {
        unavailable = true;
        events =
            on_outage unavailable result.message
              (auth_failed "auth provider unavailable" result.message ∷ []);
        outcome = service_unavailable;
        header = header;
      }
      else record {
        unavailable = unavailable;
        events = auth_failed "unexpected auth error" result.message ∷ [];
        outcome = service_unavailable;
        header = header;
      }
    else record {
      unavailable = false;
      events = on_recovery unavailable (auth_success result.identity ∷ []);
      outcome = forward (some result.identity);
      header = header;
    }

module _ (authenticate : Request → AuthResult) (matcher : PathMatcher) where
  unfoldable pub auth_middleware : Bool → Request → Answer
  auth_middleware unavailable r =
      let header = strip_x_user_headers r.header in
      if matches matcher r.path
      then record {
        unavailable = unavailable;
        events = [];
        outcome = forward none;
        header = header;
      }
      else answer (authenticate (record r { header = header })) unavailable header
