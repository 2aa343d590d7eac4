-- ===== src/Secrets/Placeholders.antt =====
-- internal/domain/secret/uri.go: the placeholders ${secret://path/key} in a text. The two regular
-- expressions are written out: a match begins at the first place where one is possible, and the next
-- search begins behind it. A scan counts the codes of a match that are still to be passed.
use vibewarden.Prelude.{
  ℕ, zero, suc, ◌+◌, ◌==◌, ltb, Bool, true, false, List, [], ◌∷◌, ◌++◌, Option, none, some, ok, err,
  length, if◌then◌else◌,
}
use vibewarden.Prelude.Text.{Text, text_eq, has_prefix, drop_prefix}
use vibewarden.Prelude.Split.{cut}
use vibewarden.Secrets.{secret_uri_prefix, Uri, parse_uri}

pub record Placeholder : Type 0 where
  pub raw : Text
  pub uri : Uri

abbrev pub delimited : Text → Text
delimited inner = b'$' ∷ b'{' ∷ inner ++ b'}' ∷ []

-- What the group of the expression matches behind the prefix: `[^}]+` and the brace.
group_of : Option (Text × Text) → Option Text
group_of none = none
group_of (some (inner, after)) =
    if text_eq inner [] then none else some (secret_uri_prefix ++ inner)

-- placeholderRe at the beginning of a text: the reference between the delimiters.
unfoldable pub match_at : Text → Option Text
unfolding group_of
match_at s =
    let prefix = b'$' ∷ b'{' ∷ secret_uri_prefix in
    if has_prefix prefix s then group_of (cut b'}' (drop_prefix prefix s)) else none

-- A match that follows a dollar sign is escaped; one that does not parse is passed over.
unfoldable pub add_match : Bool → Text → List Placeholder → List Placeholder
add_match true inner rest = rest
add_match false inner rest = elim (parse_uri inner) [
  | err e ↦ rest
  | ok u ↦ record { raw = delimited inner; uri = u } ∷ rest
]

unfoldable pub find_from : ℕ → Bool → Text → List Placeholder
unfolding add_match
find_from skip dollar [] = []
find_from (suc skip) dollar (c ∷ s) = find_from skip (c == b'$') s
find_from zero dollar (c ∷ s) = elim (match_at (c ∷ s)) [
  | none ↦ find_from 0 (c == b'$') s
  | some inner ↦ add_match dollar inner (find_from (length inner + 2) (c == b'$') s)
]

unfoldable pub find_placeholders : Text → List Placeholder
find_placeholders s = find_from 0 false s

unfoldable pub contains_placeholder : Text → Bool
contains_placeholder s = ltb 0 (length (find_placeholders s))

-- escapedPlaceholderRe at the beginning of a text.
unfoldable pub escaped_at : Text → Option Text
escaped_at [] = none
escaped_at (c ∷ s) = if c == b'$' then match_at s else none

unfoldable pub contains_escaped_placeholder : Text → Bool
contains_escaped_placeholder [] = false
contains_escaped_placeholder (c ∷ s) =
    let rest = contains_escaped_placeholder s in
    elim (escaped_at (c ∷ s)) [ some inner ↦ true | none ↦ rest ]

unfoldable pub unescape_from : ℕ → Text → Text
unescape_from skip [] = []
unescape_from (suc skip) (c ∷ s) = unescape_from skip s
unescape_from zero (c ∷ s) = elim (escaped_at (c ∷ s)) [
  | none ↦ c ∷ unescape_from 0 s
  | some inner ↦ delimited inner ++ unescape_from (length inner + 3) s
]

unfoldable pub unescape_placeholders : Text → Text
unescape_placeholders s = unescape_from 0 s
