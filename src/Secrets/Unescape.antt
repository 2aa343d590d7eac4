-- ===== src/Secrets/Unescape.antt =====
-- Unescaping a text that is put together from plain parts, placeholders and escaped placeholders.
use vibewarden.Prelude.{
  ℕ, ◌+◌, ◌≡◌, ◌≢◌, refl, ap, ◌∙◌, arith, List, [], ◌∷◌, ◌++◌, All, none, some, length,
  append_assoc, map,
}
use vibewarden.Prelude.Text.{Text, has_prefix}
use vibewarden.Prelude.Split.{NoCode}
use vibewarden.Secrets.{Uri, uri_string}
use vibewarden.Secrets.Placeholders.{
  delimited, match_at, escaped_at, unescape_from, unescape_placeholders,
}
use vibewarden.Secrets.Scan.{Chunk, plain, placeholder, escaped, render, match_at-delimited}

-- What unescaping leaves of a part.
abbrev unescape_chunk : Chunk → Chunk
unescape_chunk (plain s) = plain s
unescape_chunk (placeholder u) = placeholder u
unescape_chunk (escaped u) = placeholder u

escaped_at-other : (c : ℕ) (s : Text) → c ≢ b'$' → escaped_at (c ∷ s) ≡ none
unfolding escaped_at
escaped_at-other c s h = ground arith

escaped_at-brace : (s : Text) → escaped_at (b'$' ∷ b'{' ∷ s) ≡ none
unfolding escaped_at match_at has_prefix
escaped_at-brace s = refl

unescape_from-skip :
    (s rest : Text) → unescape_from (length s + 1) (s ++ b'}' ∷ rest) ≡ unescape_from 0 rest
unfolding unescape_from
unescape_from-skip [] rest = refl
unescape_from-skip (c ∷ s) rest = ground (arith, unescape_from-skip s rest)

-- A text without a dollar sign is kept by unescaping.
unescape_from-plain :
    (s rest : Text) → NoCode b'$' s → unescape_from 0 (s ++ rest) ≡ s ++ unescape_from 0 rest
unfolding unescape_from
unescape_from-plain [] rest h = refl
unescape_from-plain (c ∷ s) rest h =
    ground (arith, escaped_at-other c (s ++ rest) h.0, unescape_from-plain s rest h.1)

unescape_from-brace :
    (s : Text) → unescape_from 0 (b'$' ∷ b'{' ∷ s) ≡ b'$' ∷ unescape_from 0 (b'{' ∷ s)
unfolding unescape_from
unescape_from-brace s = rw (escaped_at-brace s, unescape_from) refl

unescape_from_nil : unescape_from 0 [] ≡ []
unfolding unescape_from
unescape_from_nil = refl

unescape_from-matched :
    (c : ℕ) (s inner : Text)
    → escaped_at (c ∷ s) ≡ some inner
    → unescape_from 0 (c ∷ s) ≡ delimited inner ++ unescape_from (length inner + 3) s
unfolding unescape_from
unescape_from-matched c s inner h = rw (h, unescape_from) refl

escaped_at-dollar : (s : Text) → escaped_at (b'$' ∷ s) ≡ match_at s
unfolding escaped_at
escaped_at-dollar s = refl

unescape_from-escaped :
    (u : Uri) (rest : Text)
    → NoCode b'}' (u.path ++ b'/' ∷ u.key)
    → unescape_from 0 (b'$' ∷ b'$' ∷ b'{' ∷ uri_string u ++ b'}' ∷ rest)
      ≡ delimited (uri_string u) ++ unescape_from 0 rest
unescape_from-escaped u rest h =
    let inner = b'$' ∷ b'{' ∷ uri_string u in
    let three : length (uri_string u) + 3 ≡ length inner + 1 = omega arith in
    unescape_from-matched b'$' (inner ++ b'}' ∷ rest) (uri_string u)
      (escaped_at-dollar (inner ++ b'}' ∷ rest) ∙ match_at-delimited u rest h)
    ∙ ap (λ s. delimited (uri_string u) ++ s) (rw three (unescape_from-skip inner rest))

-- The references of placeholders that are kept hold no dollar sign of their own.
abbrev pub IsKept : Chunk → Type 0
IsKept (plain s) = NoCode b'$' s
IsKept (placeholder u) = NoCode b'$' (u.path ++ b'/' ∷ u.key)
IsKept (escaped u) = NoCode b'}' (u.path ++ b'/' ∷ u.key)

NoCode-uri_string :
    (u : Uri) → NoCode b'$' (u.path ++ b'/' ∷ u.key) → NoCode b'$' (b'{' ∷ uri_string u)
unfolding uri_string
NoCode-uri_string u h = ground arith

unescape_from-placeholder :
    (u : Uri) (rest : Text)
    → NoCode b'$' (u.path ++ b'/' ∷ u.key)
    → unescape_from 0 (b'$' ∷ b'{' ∷ uri_string u ++ b'}' ∷ rest)
      ≡ b'$' ∷ b'{' ∷ uri_string u ++ b'}' ∷ unescape_from 0 rest
unescape_from-placeholder u rest h =
    unescape_from-brace (uri_string u ++ b'}' ∷ rest)
    ∙ ap (λ s. b'$' ∷ s)
        (unescape_from-plain (b'{' ∷ uri_string u) (b'}' ∷ rest) (NoCode-uri_string u h)
          ∙ ap (λ s. b'{' ∷ uri_string u ++ s) (unescape_from-plain (b'}' ∷ []) rest (omega arith)))

-- Unescaping drops the dollar sign of each escaped placeholder and keeps all else.
unescape_placeholders-render :
    (cs : List Chunk)
    → All IsKept cs
    → unescape_placeholders (render cs) ≡ render (map unescape_chunk cs)
unfolding unescape_placeholders
unescape_placeholders-render [] h = unescape_from_nil
unescape_placeholders-render (plain s ∷ cs) h =
    unescape_from-plain s (render cs) h.0
    ∙ ap (λ rest. s ++ rest) (unescape_placeholders-render cs h.1)
unescape_placeholders-render (placeholder u ∷ cs) h =
    rw
      (
        append_assoc (uri_string u) (b'}' ∷ []) (render cs),
        append_assoc (uri_string u) (b'}' ∷ []) (render (map unescape_chunk cs)),
      )
      (unescape_from-placeholder u (render cs) h.0
        ∙ ap (λ rest. b'$' ∷ b'{' ∷ uri_string u ++ b'}' ∷ rest)
            (unescape_placeholders-render cs h.1))
unescape_placeholders-render (escaped u ∷ cs) h =
    rw (append_assoc (uri_string u) (b'}' ∷ []) (render cs)) (
      unescape_from-escaped u (render cs) h.0
      ∙ ap (λ rest. delimited (uri_string u) ++ rest) (unescape_placeholders-render cs h.1))
