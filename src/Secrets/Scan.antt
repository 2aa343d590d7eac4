-- ===== src/Secrets/Scan.antt =====
-- A text that is put together from plain parts, placeholders and escaped placeholders is read back:
-- the scans find each part where it was put.
use vibewarden.Prelude.{
  ℕ, suc, ◌+◌, ◌==◌, ◌≡◌, ◌≢◌, refl, ap, ◌∙◌, arith, Bool, true, false, List, [], ◌∷◌, ◌++◌, All,
  none, some, length, append_assoc,
}
use vibewarden.Prelude.Text.{Text, has_prefix, drop_prefix}
use vibewarden.Prelude.Split.{NoCode, cut-append}
use vibewarden.Secrets.{Uri, uri_string}
use vibewarden.Secrets.RoundTrip.{IsSafe, parse_uri_iff, body_ne_nil}
use vibewarden.Secrets.Placeholders.{
  Placeholder, delimited, match_at, add_match, find_from, find_placeholders,
}

pub data Chunk : Type 0 where
  plain : Text → Chunk
  placeholder escaped : Uri → Chunk

abbrev chunk_text : Chunk → Text
chunk_text (plain s) = s
chunk_text (placeholder u) = delimited (uri_string u)
chunk_text (escaped u) = b'$' ∷ delimited (uri_string u)

abbrev pub render : List Chunk → Text
render [] = []
render (c ∷ cs) = chunk_text c ++ render cs

-- Plain text has no dollar sign, and a reference has no closing brace.
abbrev IsReadable : Chunk → Type 0
IsReadable (plain s) = NoCode b'$' s
IsReadable (placeholder u) = IsSafe u × NoCode b'}' (u.path ++ b'/' ∷ u.key)
IsReadable (escaped u) = IsSafe u × NoCode b'}' (u.path ++ b'/' ∷ u.key)

abbrev pub placeholders : List Chunk → List Placeholder
placeholders [] = []
placeholders (plain s ∷ cs) = placeholders cs
placeholders (placeholder u ∷ cs) =
    record { raw = delimited (uri_string u); uri = u } ∷ placeholders cs
placeholders (escaped u ∷ cs) = placeholders cs

pub match_at-delimited :
    (u : Uri) (rest : Text)
    → NoCode b'}' (u.path ++ b'/' ∷ u.key)
    → match_at (b'$' ∷ b'{' ∷ uri_string u ++ b'}' ∷ rest) ≡ some (uri_string u)
unfolding match_at has_prefix drop_prefix uri_string
match_at-delimited u rest h =
    rw (cut-append b'}' (u.path ++ b'/' ∷ u.key) rest h) (rw (body_ne_nil u.path u.key))

match_at-other : (c : ℕ) (s : Text) → c ≢ b'$' → match_at (c ∷ s) ≡ none
unfolding match_at has_prefix
match_at-other c s h = ground arith

match_at-two : (s : Text) → match_at (b'$' ∷ b'$' ∷ s) ≡ none
unfolding match_at has_prefix
match_at-two s = refl

find_from-plain :
    (s rest : Text) → NoCode b'$' s → find_from 0 false (s ++ rest) ≡ find_from 0 false rest
unfolding find_from
find_from-plain [] rest h = refl
find_from-plain (c ∷ s) rest h =
    ground (arith, match_at-other c (s ++ rest) h.0, find_from-plain s rest h.1)

find_from-skip :
    (s rest : Text) (dollar : Bool)
    → find_from (length s + 1) dollar (s ++ b'}' ∷ rest) ≡ find_from 0 false rest
unfolding find_from
find_from-skip [] rest dollar = refl
find_from-skip (c ∷ s) rest dollar = ground (arith, find_from-skip s rest (c == b'$'))

find_from-matched :
    (dollar : Bool) (c : ℕ) (s inner : Text)
    → match_at (c ∷ s) ≡ some inner
    → find_from 0 dollar (c ∷ s)
      ≡ add_match dollar inner (find_from (length inner + 2) (c == b'$') s)
unfolding find_from
find_from-matched dollar c s inner h = rw (h, find_from) refl

-- A reference between its delimiters, at the beginning of what is scanned.
find_from-delimited :
    (u : Uri) (rest : Text) (dollar : Bool)
    → NoCode b'}' (u.path ++ b'/' ∷ u.key)
    → find_from 0 dollar (b'$' ∷ b'{' ∷ uri_string u ++ b'}' ∷ rest)
      ≡ add_match dollar (uri_string u) (find_from 0 false rest)
find_from-delimited u rest dollar h =
    let skipped = find_from-skip (b'{' ∷ uri_string u) rest true in
    let two : length (uri_string u) + 2 ≡ suc (length (uri_string u)) + 1 = omega arith in
    find_from-matched dollar b'$' (b'{' ∷ uri_string u ++ b'}' ∷ rest) (uri_string u)
      (match_at-delimited u rest h)
    ∙ ap (add_match dollar (uri_string u)) (rw two skipped)

find_from-dollar : (s : Text) → find_from 0 false (b'$' ∷ b'$' ∷ s) ≡ find_from 0 true (b'$' ∷ s)
unfolding find_from
find_from-dollar s = rw (match_at-two s, find_from) refl

add_match-IsSafe :
    (u : Uri) (rest : List Placeholder)
    → IsSafe u
    → add_match false (uri_string u) rest
      ≡ record { raw = delimited (uri_string u); uri = u } ∷ rest
unfolding add_match
add_match-IsSafe u rest h = rw ((parse_uri_iff (uri_string u) u).1 (refl, h), add_match) refl

find_from_nil : find_from 0 false [] ≡ []
unfolding find_from
find_from_nil = refl

-- The placeholders that are found in a text of readable parts are the unescaped ones, in their order.
pub find_placeholders-render :
    (cs : List Chunk) → All IsReadable cs → find_placeholders (render cs) ≡ placeholders cs
unfolding find_placeholders add_match
find_placeholders-render [] h = find_from_nil
find_placeholders-render (plain s ∷ cs) h =
    find_from-plain s (render cs) h.0 ∙ find_placeholders-render cs h.1
find_placeholders-render (placeholder u ∷ cs) h =
    rw (append_assoc (uri_string u) (b'}' ∷ []) (render cs)) (
      find_from-delimited u (render cs) false h.0.1
      ∙ add_match-IsSafe u (find_from 0 false (render cs)) h.0.0
      ∙ ap (λ found. record { raw = delimited (uri_string u); uri = u } ∷ found)
          (find_placeholders-render cs h.1))
find_placeholders-render (escaped u ∷ cs) h =
    rw (append_assoc (uri_string u) (b'}' ∷ []) (render cs)) (
      find_from-dollar (b'{' ∷ uri_string u ++ b'}' ∷ render cs)
      ∙ find_from-delimited u (render cs) true h.0.1
      ∙ find_placeholders-render cs h.1)
