-- ===== src/Glob.antt =====
-- path.Match of Go's standard library, which the middleware, the scope rules and the egress routes
-- call: `*` is any row of characters but '/', `?` one of those, `[a-z]` and `[^a-z]` one character
-- of a class, and `\` quotes a special character. A malformed pattern is an error. A character is a
-- byte here, and one of UTF-8 there: beyond ASCII `?` and a class differ.
pub mod Segment
mod Tests
use vibewarden.Prelude.{
  ℕ, ◌==◌, leb, Bool, true, false, not, ◌&&◌, ◌||◌, List, [], ◌∷◌, ◌++◌, Option, none, some,
  if◌then◌else◌,
}
use vibewarden.Prelude.Text.{Text}

pub data Item : Type 0 where
  lit : ℕ → Item
  one star : Item
  class : (negated : Bool) → List (ℕ × ℕ) → Item

-- Where the scan of a pattern stands: in a class the ranges read, and the low end of the next one.
pub data Mode : Type 0 where
  plain quoted class_start : Mode
  low low_quoted : (negated : Bool) → List (ℕ × ℕ) → Mode
  after_low high high_quoted : (negated : Bool) → List (ℕ × ℕ) → ℕ → Mode

pub data Scan : Type 0 where
  bad : Scan
  more : Mode → Scan
  emit : Item → Scan

at_low : Bool → List (ℕ × ℕ) → ℕ → Scan
at_low negated [] c =
    if c == b']' || c == b'-'
    then bad
    else if c == 0x5c
    then more (low_quoted negated [])
    else more (after_low negated [] c)
at_low negated (r ∷ rs) c =
    if c == b']'
    then emit (class negated (r ∷ rs))
    else if c == b'-'
    then bad
    else if c == 0x5c
    then more (low_quoted negated (r ∷ rs))
    else more (after_low negated (r ∷ rs) c)

unfoldable scan : Mode → ℕ → Scan
unfolding at_low
scan plain c =
    if c == b'*'
    then emit star
    else if c == b'?'
    then emit one
    else if c == b'['
    then more class_start
    else if c == 0x5c
    then more quoted
    else emit (lit c)
scan quoted c = emit (lit c)
scan class_start c = if c == b'^' then more (low true []) else at_low false [] c
scan (low negated rs) c = at_low negated rs c
scan (low_quoted negated rs) c = more (after_low negated rs c)
scan (after_low negated rs lo) c =
    if c == b'-' then more (high negated rs lo) else at_low negated (rs ++ (lo, lo) ∷ []) c
scan (high negated rs lo) c =
    if c == b']' || c == b'-'
    then bad
    else if c == 0x5c
    then more (high_quoted negated rs lo)
    else more (low negated (rs ++ (lo, c) ∷ []))
scan (high_quoted negated rs lo) c = more (low negated (rs ++ (lo, c) ∷ []))

unfoldable pub ends_well : Mode → Option (List Item)
ends_well plain = some []
ends_well _ = none

abbrev add_item : Item → Option (List Item) → Option (List Item)
add_item i none = none
add_item i (some is) = some (i ∷ is)

-- The items of a pattern, or `none` for ErrBadPattern.
unfoldable pub parse : Mode → Text → Option (List Item)
unfolding scan ends_well
parse mode [] = ends_well mode
parse mode (c ∷ cs) = elim (scan mode c) [
  | bad ↦ none
  | more next ↦ parse next cs
  | emit i ↦ add_item i (parse plain cs)
]

unfoldable in_ranges : ℕ → List (ℕ × ℕ) → Bool
in_ranges c [] = false
in_ranges c ((lo, hi) ∷ rs) = (leb lo c && leb c hi) || in_ranges c rs

unfoldable pub fits : Item → ℕ → Bool
unfolding in_ranges
fits (lit d) c = d == c
fits one c = not (c == b'/')
fits star c = not (c == b'/')
fits (class negated rs) c = if negated then not (in_ranges c rs) else in_ranges c rs

unfoldable pub match_items : List Item → Text → Bool
unfolding fits
match_items [] [] = true
match_items [] (c ∷ s) = false
match_items (star ∷ is) [] = match_items is []
match_items (star ∷ is) (c ∷ s) = elim (match_items is (c ∷ s)) [
  | true ↦ true
  | false ↦ not (c == b'/') && match_items (star ∷ is) s
]
match_items (i ∷ is) [] = false
match_items (i ∷ is) (c ∷ s) = fits i c && match_items is s

-- `path.Match(pattern, name)`: `none` is ErrBadPattern.
unfoldable pub match_path : Text → Text → Option Bool
unfolding parse match_items
match_path pattern name = elim (parse plain pattern) [
  | none ↦ none
  | some is ↦ some (match_items is name)
]

-- The test that the callers make: matched with no error.
unfoldable pub matched : Option Bool → Bool
matched none = false
matched (some b) = b
