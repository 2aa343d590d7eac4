-- ===== src/Prelude/Split.antt =====
-- `strings.Split`, `strings.Cut` and `strings.LastIndex` at a separator of one code point.
use Prim.Native.Nat.{ℕ}
use mathlib.Core.Path.{◌≡◌, refl}
use mathlib.Core.Logic.{◌≢◌, ◌↔◌, inl, inr}
use mathlib.Core.Bool.{Bool, false, ◌||◌}
use mathlib.Core.Option.{Option, none, some}
use mathlib.Core.List.{List, [], ◌∷◌, ◌++◌}
use native.Mathlib.Omega.{arith}
use vibewarden.Prelude.Tests.{◌==◌, if◌then◌else◌, Option-cases}
use vibewarden.Prelude.Results.{All}
use vibewarden.Prelude.Text.{Text}

abbrev pub NoCode : ℕ → Text → Type 0
NoCode sep = All (λ c. c ≢ sep)

-- `strings.Contains(s, sep)`.
unfoldable pub contains_code : ℕ → Text → Bool
contains_code sep [] = false
contains_code sep (c ∷ s) = c == sep || contains_code sep s

-- A code put before the first of the parts.
unfoldable pub onto_first : ℕ → List Text → List Text
onto_first c [] = (c ∷ []) ∷ []
onto_first c (w ∷ ws) = (c ∷ w) ∷ ws

unfoldable pub split : ℕ → Text → List Text
unfolding onto_first
split sep [] = [] ∷ []
split sep (c ∷ s) = let rest = split sep s in if c == sep then [] ∷ rest else onto_first c rest

-- What stands before the first separator and after it; `none` where there is none.
unfoldable pub cut : ℕ → Text → Option (Text × Text)
cut sep [] = none
cut sep (c ∷ s) =
    let rest = cut sep s in
    if c == sep
    then some ([], s)
    else elim rest [ none ↦ none | some (before, after) ↦ some (c ∷ before, after) ]

-- The same at the last separator: `s[:idx]` and `s[idx+1:]` of `idx := strings.LastIndex(s, sep)`.
unfoldable pub cut_last : ℕ → Text → Option (Text × Text)
cut_last sep [] = none
cut_last sep (c ∷ s) = elim (cut_last sep s) [
  | some (before, after) ↦ some (c ∷ before, after)
  | none ↦ if c == sep then some ([], s) else none
]

-- `strings.Join(parts, sep)` at a separator of any length.
unfoldable pub join : Text → List Text → Text
join sep [] = []
join sep (w ∷ []) = w
join sep (w ∷ v ∷ ws) = w ++ sep ++ join sep (v ∷ ws)

module _ (sep : ℕ) where
  pub contains_code_iff : (s : Text) → (contains_code sep s ≡ false) ↔ NoCode sep s
  unfolding contains_code
  contains_code_iff [] = (λ _. tt, λ _. refl)
  contains_code_iff (c ∷ s) = ground (arith, contains_code_iff s)

  pub split-NoCode : (s : Text) → NoCode sep s → split sep s ≡ s ∷ []
  unfolding split
  split-NoCode [] h = refl
  split-NoCode (c ∷ s) h = ground (arith, split-NoCode s)

  onto_first-append :
      (c : ℕ) (s : Text) (ws : List Text)
      → onto_first c (split sep s ++ ws) ≡ onto_first c (split sep s) ++ ws
  unfolding split onto_first
  onto_first-append c [] ws = refl
  onto_first-append c (d ∷ s) ws = ground (arith)

  pub split-append : (s t : Text) → split sep (s ++ sep ∷ t) ≡ split sep s ++ split sep t
  unfolding split
  split-append [] t = ground arith
  split-append (c ∷ s) t = ground (arith, split-append s t, onto_first-append c s (split sep t))

  pub cut_last-none_iff : (s : Text) → (cut_last sep s ≡ none) ↔ NoCode sep s
  unfolding cut_last
  cut_last-none_iff [] = (λ _. tt, λ _. refl)
  cut_last-none_iff (c ∷ s) = ground (arith, cut_last-none_iff s)

  pub cut_last-append : (s t : Text) → NoCode sep t → cut_last sep (s ++ sep ∷ t) ≡ some (s, t)
  unfolding cut_last
  cut_last-append [] t h = ground (arith, (cut_last-none_iff t).1 h)
  cut_last-append (c ∷ s) t h = ground (arith, cut_last-append s t h)

  pub cut_last_inv :
      (s a t : Text) → cut_last sep s ≡ some (a, t) → (s ≡ a ++ sep ∷ t) × NoCode sep t
  unfolding cut_last
  cut_last_inv [] a t h = ground arith
  cut_last_inv (c ∷ s) a t h = elim (Option-cases (cut_last sep s)) [
    | inl e ↦ ground (arith, cut_last-none_iff s)
    | inr (p, e) ↦ ground (arith, cut_last_inv s p.0 p.1)
  ]

  pub cut-append : (s t : Text) → NoCode sep s → cut sep (s ++ sep ∷ t) ≡ some (s, t)
  unfolding cut
  cut-append [] t h = ground arith
  cut-append (c ∷ s) t h = ground (arith, cut-append s t)

  pub cut_inv : (s a t : Text) → cut sep s ≡ some (a, t) → s ≡ a ++ sep ∷ t
  unfolding cut
  cut_inv [] a t h = ground arith
  cut_inv (c ∷ s) a t h = elim (Option-cases (cut sep s)) [
    | inl e ↦ ground arith
    | inr (p, e) ↦ ground (arith, cut_inv s p.0 p.1)
  ]
