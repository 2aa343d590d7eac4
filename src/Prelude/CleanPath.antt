-- ===== src/Prelude/CleanPath.antt =====
-- `path.Clean`, by the parts of a path.
use mathlib.Core.Logic.{◌≢◌}
use mathlib.Core.Bool.{Bool, true, false, ◌||◌}
use mathlib.Core.List.{List, [], ◌∷◌, reverse}
use native.Mathlib.Omega.{arith}
use vibewarden.Prelude.Tests.{◌==◌, if◌then◌else◌}
use vibewarden.Prelude.Results.{All}
use vibewarden.Prelude.Text.{Text, text_of, text_eq, text_eq_iff}
use vibewarden.Prelude.Split.{split, join}

abbrev pub dotdot : Text
dotdot = text_of ".."

-- A part ".." behind the kept ones, the last of them first.
unfoldable pub go_up : Bool → List Text → List Text
go_up rooted [] = if rooted then [] else dotdot ∷ []
go_up rooted (top ∷ kept) = if text_eq top dotdot then dotdot ∷ top ∷ kept else kept

unfoldable pub keep_part : Bool → Text → List Text → List Text
unfolding go_up
keep_part rooted part kept =
    if text_eq part [] || text_eq part (text_of ".")
    then kept
    else if text_eq part dotdot
    then go_up rooted kept
    else part ∷ kept

unfoldable pub keep_parts : Bool → List Text → List Text → List Text
unfolding keep_part
keep_parts rooted kept [] = kept
keep_parts rooted kept (part ∷ parts) = keep_parts rooted (keep_part rooted part kept) parts

unfoldable pub is_rooted : Text → Bool
is_rooted [] = false
is_rooted (c ∷ s) = c == b'/'

or_dot : Text → Text
or_dot [] = text_of "."
or_dot (c ∷ s) = c ∷ s

unfoldable pub clean : Text → Text
unfolding keep_parts is_rooted or_dot
clean path =
    let parts = join (text_of "/") (reverse (keep_parts (is_rooted path) [] (split b'/' path))) in
    if is_rooted path then b'/' ∷ parts else or_dot parts

keep_part-rooted :
    (part : Text) (kept : List Text)
    → All (λ p. p ≢ dotdot) kept
    → All (λ p. p ≢ dotdot) (keep_part true part kept)
unfolding keep_part
keep_part-rooted part [] h = ground (arith, text_eq_iff part dotdot)
keep_part-rooted part (top ∷ kept) h =
    ground (arith, text_eq_iff part dotdot, text_eq_iff top dotdot)

-- A path that begins with a slash keeps no part "..".
pub keep_parts-rooted :
    (kept parts : List Text)
    → All (λ part. part ≢ dotdot) kept
    → All (λ part. part ≢ dotdot) (keep_parts true kept parts)
unfolding keep_parts
keep_parts-rooted kept [] h = h
keep_parts-rooted kept (part ∷ parts) h =
    keep_parts-rooted (keep_part true part kept) parts (keep_part-rooted part kept h)
