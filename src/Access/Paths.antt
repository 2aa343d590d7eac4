-- ===== src/Access/Paths.antt =====
-- internal/middleware/exempt_paths.go and public_paths.go: the paths that bypass rate limiting and
-- authentication.
use vibewarden.Prelude.{
  ◌≡◌, ◌↔◌, ◌⊎◌, inl, inr, arith, Bool, true, false, List, [], ◌∷◌, ◌++◌, Option, none, some, Any,
  some_of,
}
use vibewarden.Prelude.Text.{Text, text_of}
use vibewarden.Glob.{match_path, matched}
use vibewarden.Glob.Segment.{NoSlash, matched_iff, match_path-prefix_star}

-- exemptVibewardenPrefix and vibewardenPrefix.
abbrev pub vibewarden_prefix : Text
vibewarden_prefix = text_of "/_vibewarden/*"

pub record PathMatcher : Type 0 where
  pub patterns : List Text

-- The loop that validates the patterns: whether `path.Match(p, "")` gives no error for any.
unfoldable all_valid : List Text → Bool
all_valid [] = true
all_valid (p ∷ ps) =
    let rest = all_valid ps in elim (match_path p []) [ none ↦ false | some b ↦ rest ]

-- NewExemptPathMatcher and NewPublicPathMatcher, which differ in the text of their error only.
unfoldable pub new_exempt_path_matcher : List Text → Option PathMatcher
unfolding all_valid
new_exempt_path_matcher patterns =
    let all = vibewarden_prefix ∷ patterns in
    elim (all_valid all) [ true ↦ some (record { patterns = all }) | false ↦ none ]

unfoldable pub new_public_path_matcher : List Text → Option PathMatcher
unfolding all_valid
new_public_path_matcher patterns =
    let all = vibewarden_prefix ∷ patterns in
    elim (all_valid all) [ true ↦ some (record { patterns = all }) | false ↦ none ]

unfoldable pub matches : PathMatcher → Text → Bool
unfolding matched
matches m path = some_of (λ p. matched (match_path p path)) m.patterns

-- One segment below /_vibewarden/.
abbrev IsInternal : Text → Type 0
IsInternal path =
    (segment : Text) × (path ≡ text_of "/_vibewarden" ++ b'/' ∷ segment) × NoSlash segment

public_patterns :
    (patterns : List Text) {m : PathMatcher}
    → new_public_path_matcher patterns ≡ some m
    → m.patterns ≡ vibewarden_prefix ∷ patterns
unfolding new_public_path_matcher
public_patterns patterns h = ground arith

matches_loop :
    (path : Text) (ps : List Text)
    → (some_of (λ p. matched (match_path p path)) ps ≡ true)
      ↔ Any (λ p. match_path p path ≡ some true) ps
unfolding some_of
matches_loop path [] = (λ h. cc, λ h. absurd h)
matches_loop path (p ∷ ps) = ground (arith, matched_iff (match_path p path), matches_loop path ps)

IsInternal-iff : (path : Text) → (match_path vibewarden_prefix path ≡ some true) ↔ IsInternal path
IsInternal-iff path = match_path-prefix_star (text_of "/_vibewarden") path (omega arith)

-- The matcher that authentication uses lets a path through exactly if it is one segment below
-- /_vibewarden/ or matches one of the configured patterns. Deeper internal paths are not public.
public-matches_iff :
    (patterns : List Text) (path : Text) {m : PathMatcher}
    → new_public_path_matcher patterns ≡ some m
    → (matches m path ≡ true)
      ↔ (IsInternal path ⊎ Any (λ p. match_path p path ≡ some true) patterns)
unfolding new_public_path_matcher matches
public-matches_iff patterns path {m} h =
    let loop = matches_loop path (vibewarden_prefix ∷ patterns) in
    let internal = IsInternal-iff path in
    rw (public_patterns patterns h, matches)
      (
        λ e. elim (loop.0 e) [ inl i ↦ inl (internal.0 i) | inr a ↦ inr a ],
        λ w. loop.1 (elim w [ inl i ↦ inl (internal.1 i) | inr a ↦ inr a ]),
      )
