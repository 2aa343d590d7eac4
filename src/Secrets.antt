-- ===== src/Secrets.antt =====
-- internal/domain/secret: references to secrets, of the form secret://path/key.
pub mod RoundTrip
pub mod Placeholders
pub mod Scan
pub mod Unescape
pub mod Aliases
mod Tests
use vibewarden.Prelude.{
  Bool, false, not, List, [], ◌∷◌, ◌++◌, Option, none, some, Result, ok, err, if◌then◌else◌,
}
use vibewarden.Prelude.Text.{Text, text_of, text_eq, has_prefix, drop_prefix}
use vibewarden.Prelude.Split.{split, cut_last, contains_code}

abbrev pub secret_uri_prefix : Text
secret_uri_prefix = text_of "secret://"

pub record Uri : Type 0 where
  pub path : Text
  pub key : Text

pub data UriError : Type 0 where
  bad_scheme empty_uri percent empty_segment traversal no_slash empty_path empty_key : UriError

unfoldable pub check_segments : List Text → Option UriError
check_segments [] = none
check_segments (segment ∷ segments) =
    let rest = check_segments segments in
    if text_eq segment []
    then some empty_segment
    else if text_eq segment (text_of "..")
    then some traversal
    else rest

check_parts : Option (Text × Text) → Result UriError Uri
check_parts none = err no_slash
check_parts (some (path, key)) =
    if text_eq path []
    then err empty_path
    else if text_eq key []
    then err empty_key
    else ok (record { path = path; key = key })

parse_body : Text → Result UriError Uri
unfolding check_parts
parse_body body =
    if text_eq body []
    then err empty_uri
    else if contains_code b'%' body
    then err percent
    else elim (check_segments (split b'/' body)) [
      | some e ↦ err e
      | none ↦ check_parts (cut_last b'/' body)
    ]

unfoldable pub parse_uri : Text → Result UriError Uri
unfolding parse_body
parse_uri raw =
    if not (has_prefix secret_uri_prefix raw)
    then err bad_scheme
    else parse_body (drop_prefix secret_uri_prefix raw)

unfoldable pub is_uri : Text → Bool
is_uri s = has_prefix secret_uri_prefix s

unfoldable pub uri_string : Uri → Text
uri_string u = secret_uri_prefix ++ u.path ++ b'/' ∷ u.key
