-- ===== src/Glob/Segment.antt =====
-- What a pattern with a literal prefix and a last segment `*` matches.
use mathlib.Core.List.{tail}
use vibewarden.Prelude.{
  ℕ, ◌≡◌, ◌≢◌, ◌↔◌, ap, refl, arith, Bool, true, [], ◌∷◌, ◌++◌, map, All, Option, none, some,
}
use vibewarden.Prelude.Text.{Text}
use vibewarden.Glob.{lit, star, plain, parse, match_items, match_path, matched}

-- A character that stands for itself in a pattern.
abbrev pub IsLiteral : ℕ → Type 0
IsLiteral c = (c ≢ b'*') × (c ≢ b'?') × (c ≢ b'[') × (c ≢ 0x5c)

abbrev pub NoSlash : Text → Type 0
NoSlash = All (λ c. c ≢ b'/')

parse-prefix :
    (p : Text)
    → All IsLiteral p
    → parse plain (p ++ b'/' ∷ b'*' ∷ []) ≡ some (map lit p ++ lit b'/' ∷ star ∷ [])
unfolding parse
parse-prefix [] h = refl
parse-prefix (c ∷ p) (h, hs) = ground (arith, parse-prefix p hs)

star-match_items : (s : Text) → (match_items (star ∷ []) s ≡ true) ↔ NoSlash s
unfolding match_items
star-match_items [] = (λ _. tt, λ _. refl)
star-match_items (c ∷ s) = ground (arith, star-match_items s)

segment_of_match :
    (p name : Text)
    → match_items (map lit p ++ lit b'/' ∷ star ∷ []) name ≡ true
    → (segment : Text) × (name ≡ p ++ b'/' ∷ segment) × NoSlash segment
unfolding match_items
segment_of_match [] [] h = cc
segment_of_match [] (c ∷ s) h = (s, ground arith, (star-match_items s).0 (ground arith))
segment_of_match (a ∷ p) [] h = cc
segment_of_match (a ∷ p) (c ∷ s) h =
    let (segment, same, free) = segment_of_match p s (ground arith) in (segment, ground arith, free)

match_of_segment :
    (p segment : Text)
    → NoSlash segment
    → match_items (map lit p ++ lit b'/' ∷ star ∷ []) (p ++ b'/' ∷ segment) ≡ true
unfolding match_items
match_of_segment [] segment h = (star-match_items segment).1 h
match_of_segment (a ∷ p) segment h = ground (arith, match_of_segment p segment h)

-- A pattern `<prefix>/*`, whose prefix holds no special character, matches exactly the paths that
-- add one segment to the prefix.
pub match_path-prefix_star :
    (p name : Text)
    → All IsLiteral p
    → (match_path (p ++ b'/' ∷ b'*' ∷ []) name ≡ some true)
      ↔ ((segment : Text) × (name ≡ p ++ b'/' ∷ segment) × NoSlash segment)
unfolding match_path
match_path-prefix_star p name h = (
  λ e. segment_of_match p name (ground (arith, parse-prefix p h)),
  λ found.
      let (segment, same, free) = found in
      ground (arith, parse-prefix p h, match_of_segment p segment free),
)

pub matched_iff : (o : Option Bool) → (matched o ≡ true) ↔ (o ≡ some true)
unfolding matched
matched_iff none = ground arith
matched_iff (some b) = ground arith

append_cancel : (p s t : Text) → p ++ s ≡ p ++ t → s ≡ t
append_cancel [] s t h = h
append_cancel (a ∷ p) s t h = append_cancel p s t (ground arith)

not-NoSlash : (s t : Text) → ¬ NoSlash (s ++ b'/' ∷ t)
not-NoSlash [] t h = h.0 refl
not-NoSlash (c ∷ s) t h = not-NoSlash s t h.1

-- A pattern `<prefix>/*` matches no path that lies two segments or more below the prefix.
pub match_path-deep :
    (p segment deeper : Text)
    → All IsLiteral p
    → match_path (p ++ b'/' ∷ b'*' ∷ []) (p ++ b'/' ∷ (segment ++ b'/' ∷ deeper)) ≢ some true
match_path-deep p segment deeper h e =
    let (last, same, free) = (match_path-prefix_star p _ h).0 e in
    not-NoSlash segment deeper (rw (ap tail (append_cancel p _ _ same)) free)
