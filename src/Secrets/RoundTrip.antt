-- ===== src/Secrets/RoundTrip.antt =====
-- The parser of secret references and their printer undo one another, and what the parser refuses.
use mathlib.Core.Path.{subst}
use vibewarden.Prelude.{
  ◌≡◌, ◌≢◌, ◌↔◌, inl, inr, refl, sym, ap, ◌∙◌, Option, arith, false, List, [], ◌∷◌, ◌++◌, All, none,
  some, ok, Option-cases, Bool-cases,
}
use vibewarden.Prelude.Text.{
  Text, text_of, text_eq, text_eq_iff, has_prefix, drop_prefix, has_prefix-drop_prefix,
}
use vibewarden.Prelude.Split.{
  NoCode, split, cut_last, contains_code, contains_code_iff, split-NoCode, split-append,
  cut_last-append, cut_last_inv,
}
use vibewarden.Secrets.{
  secret_uri_prefix, Uri, check_segments, check_parts, parse_body, parse_uri, uri_string,
}

-- A path segment that may stand in a reference.
abbrev IsSegment : Text → Type 0
IsSegment segment = (segment ≢ []) × (segment ≢ text_of "..")

-- The references that the parser is for: no percent character anywhere, a key without a slash, and
-- neither an empty segment nor one of two dots.
pub record IsSafe (u : Uri) : Type 0 where
  pub no_percent : NoCode b'%' (u.path ++ b'/' ∷ u.key)
  pub key_slash : NoCode b'/' u.key
  pub key_segment : IsSegment u.key
  pub path_segments : All IsSegment (split b'/' u.path)

check_segments_iff :
    (segments : List Text) → (check_segments segments ≡ none) ↔ All IsSegment segments
unfolding check_segments
check_segments_iff [] = (λ _. tt, λ _. refl)
check_segments_iff (s ∷ segments) =
    ground (arith, check_segments_iff segments, text_eq_iff s [], text_eq_iff s (text_of ".."))

All-append_iff : (P : Text → Type 0) (xs ys : List Text) → All P (xs ++ ys) ↔ (All P xs × All P ys)
All-append_iff P [] ys = (λ h. (tt, h), λ h. h.1)
All-append_iff P (x ∷ xs) ys =
    let rest = All-append_iff P xs ys in
    (λ h. ((h.0, (rest.0 h.1).0), (rest.0 h.1).1), λ h. (h.0.0, rest.1 (h.0.1, h.1)))

parse_uri-prefix : (body : Text) → parse_uri (secret_uri_prefix ++ body) ≡ parse_body body
unfolding parse_uri has_prefix drop_prefix
parse_uri-prefix body = refl

body_of : Uri → Text
body_of u = u.path ++ b'/' ∷ u.key

segments_of :
    (u : Uri) → NoCode b'/' u.key → split b'/' (body_of u) ≡ split b'/' u.path ++ u.key ∷ []
unfolding body_of
segments_of u h = rw (split-append b'/' u.path u.key, split-NoCode b'/' u.key h)

pub body_ne_nil : (path key : Text) → text_eq (path ++ b'/' ∷ key) [] ≡ false
unfolding text_eq
body_ne_nil [] key = refl
body_ne_nil (c ∷ path) key = refl

path_ne_nil : (path : Text) → All IsSegment (split b'/' path) → text_eq path [] ≡ false
unfolding text_eq split
path_ne_nil [] h = absurd (h.0.0 refl)
path_ne_nil (c ∷ path) h = refl

parse_body-of_IsSafe : (u : Uri) → IsSafe u → parse_body (body_of u) ≡ ok u
unfolding parse_body body_of
parse_body-of_IsSafe u h = ground (
  arith,
  body_ne_nil u.path u.key,
  (contains_code_iff b'%' (u.path ++ b'/' ∷ u.key)).1 h.no_percent,
  segments_of u h.key_slash,
  (check_segments_iff (split b'/' u.path ++ u.key ∷ [])).1 (
      (All-append_iff IsSegment (split b'/' u.path) (u.key ∷ [])).1
        (h.path_segments, (h.key_segment, tt))),
  cut_last-append b'/' u.path u.key h.key_slash,
  path_ne_nil u.path h.path_segments,
  text_eq_iff u.key [],
)

check_parts_inv :
    (parts : Option (Text × Text)) (u : Uri)
    → check_parts parts ≡ ok u
    → (parts ≡ some (u.path, u.key)) × (text_eq u.key [] ≡ false)
unfolding check_parts
check_parts_inv none u h = cc
check_parts_inv (some (path, key)) u h = ground arith

parse_body_inv :
    (body : Text) (u : Uri)
    → parse_body body ≡ ok u
    → (contains_code b'%' body ≡ false)
      × (check_segments (split b'/' body) ≡ none)
      × (check_parts (cut_last b'/' body) ≡ ok u)
unfolding parse_body
parse_body_inv body u h = elim (Option-cases (check_segments (split b'/' body))) [
  | inl e ↦ ground arith
  | inr (x, e) ↦ ground arith
]

IsSafe-of_parse : (body : Text) (u : Uri) → parse_body body ≡ ok u → (body ≡ body_of u) × IsSafe u
unfolding body_of
IsSafe-of_parse body u h =
    let (percent, segments, parts) = parse_body_inv body u h in
    let (found, key) = check_parts_inv (cut_last b'/' body) u parts in
    let (same, slash) = cut_last_inv b'/' body u.path u.key found in
    let parted : split b'/' body ≡ split b'/' u.path ++ u.key ∷ [] =
      ap (split b'/') same ∙ segments_of u slash in
    let safe =
      (All-append_iff IsSegment (split b'/' u.path) (u.key ∷ [])).0
        (subst (All IsSegment) parted ((check_segments_iff (split b'/' body)).0 segments)) in
    (
      same,
      record {
        no_percent = subst (NoCode b'%') same ((contains_code_iff b'%' body).0 percent);
        key_slash = slash;
        key_segment = safe.1.0;
        path_segments = safe.0;
      },
    )

printed_parses : (u : Uri) → IsSafe u → parse_uri (uri_string u) ≡ ok u
unfolding uri_string body_of
printed_parses u safe = parse_uri-prefix (u.path ++ b'/' ∷ u.key) ∙ parse_body-of_IsSafe u safe

parsed_is_printed : (raw : Text) (u : Uri) → parse_uri raw ≡ ok u → (raw ≡ uri_string u) × IsSafe u
unfolding parse_uri uri_string body_of
parsed_is_printed raw u h = elim (Bool-cases (has_prefix secret_uri_prefix raw)) [
  | inl e ↦
      let (same, safe) = IsSafe-of_parse (drop_prefix secret_uri_prefix raw) u (ground arith) in
      (
        sym (has_prefix-drop_prefix secret_uri_prefix raw e)
            ∙ ap (λ s. secret_uri_prefix ++ s) same,
        safe,
      )
  | inr e ↦ ground arith
]

-- Parsing a text gives a reference exactly if the text is the printed form of this reference and the
-- reference is safe: no percent character, no slash in the key, and no segment that is empty or "..".
pub parse_uri_iff :
    (raw : Text) (u : Uri) → (parse_uri raw ≡ ok u) ↔ ((raw ≡ uri_string u) × IsSafe u)
parse_uri_iff raw u = (parsed_is_printed raw u, λ p. ap parse_uri p.0 ∙ printed_parses u p.1)
