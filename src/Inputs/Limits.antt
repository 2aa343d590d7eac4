-- ===== src/Inputs/Limits.antt =====
-- internal/middleware/input_validation.go: which limits hold for a path, and which requests pass them.
use vibewarden.Prelude.{
  ℕ, ◌≡◌, ◌≢◌, ◌↔◌, ◌⊎◌, ◌∙◌, inl, inr, refl, sym, ap, arith, Bool, true, false, List, [], ◌∷◌,
  length, none, some, some_of, All, Bool-cases, Option-cases,
}
use mathlib.Core.Path.{subst}
use vibewarden.Prelude.Int.{ℤ, pos, negsuc, leb_ℤ}
use vibewarden.Prelude.Text.{Text}
use vibewarden.Glob.{match_path, matched}
use vibewarden.Glob.Segment.{matched_iff}
use vibewarden.Inputs.{
  or_global, InputLimits, PathOverride, InputValidationConfig, Request, forward, override_limits,
  valid_overrides, resolve_from, resolve, exceeds, some_header_exceeds, check_limits, exempt,
  input_validation,
}

-- A limit that is positive bounds the size.
abbrev pub IsWithin : ℤ → ℕ → Type 0
IsWithin limit size = (leb_ℤ limit (pos 0) ≡ true) ⊎ (leb_ℤ (pos size) limit ≡ true)

abbrev pub PassesLimits : InputLimits → Request → Type 0
PassesLimits l r =
    IsWithin l.max_url_length (length r.request_uri)
    × IsWithin l.max_query_string_length (length r.raw_query)
    × IsWithin l.max_header_count (length r.headers)
    × All (λ h. All (λ v. IsWithin l.max_header_size (length v)) h.1) r.headers

-- The pattern of the override is well formed and matches the path.
abbrev Applies : PathOverride → Text → Type 0
Applies o path = (match_path o.path [] ≢ none) × (match_path o.path path ≡ some true)

-- A limit of an override that is not zero, and the global one otherwise.
abbrev Overrides : ℤ → ℤ → ℤ → Type 0
Overrides limit global l = ((limit ≡ pos 0) × (l ≡ global)) ⊎ ((limit ≢ pos 0) × (l ≡ limit))

abbrev AllOverride : InputLimits → InputLimits → InputLimits → Type 0
AllOverride o global l =
    Overrides o.max_url_length global.max_url_length l.max_url_length
    × Overrides o.max_query_string_length global.max_query_string_length l.max_query_string_length
    × Overrides o.max_header_count global.max_header_count l.max_header_count
    × Overrides o.max_header_size global.max_header_size l.max_header_size

-- The limits for a path: those of the first override that applies, with the global ones where it has
-- none, or the global ones if no override applies.
abbrev pub Governs : List PathOverride → Text → InputLimits → InputLimits → Type 0
Governs [] path global l = l ≡ global
Governs (o ∷ overrides) path global l =
    (Applies o path × AllOverride o.limits global l)
    ⊎ ((Applies o path → ⊥) × Governs overrides path global l)

exceeds_iff : (limit : ℤ) (size : ℕ) → (exceeds limit size ≡ false) ↔ IsWithin limit size
unfolding exceeds
exceeds_iff limit size = ground arith

values_iff :
    (limit : ℤ) (values : List Text)
    → (some_of (λ v. exceeds limit (length v)) values ≡ false)
      ↔ All (λ v. IsWithin limit (length v)) values
unfolding some_of
values_iff limit [] = (λ _. tt, λ _. refl)
values_iff limit (v ∷ values) =
    ground (arith, values_iff limit values, exceeds_iff limit (length v))

headers_iff :
    (limit : ℤ) (headers : List (Text × List Text))
    → (some_header_exceeds limit headers ≡ false)
      ↔ All (λ h. All (λ v. IsWithin limit (length v)) h.1) headers
unfolding some_of some_header_exceeds
headers_iff limit [] = (λ _. tt, λ _. refl)
headers_iff limit ((name, values) ∷ headers) =
    ground (arith, headers_iff limit headers, values_iff limit values)

check_limits_iff : (l : InputLimits) (r : Request) → (check_limits l r ≡ forward) ↔ PassesLimits l r
unfolding check_limits
check_limits_iff l r = ground (
  arith,
  exceeds_iff l.max_url_length (length r.request_uri),
  exceeds_iff l.max_query_string_length (length r.raw_query),
  exceeds_iff l.max_header_count (length r.headers),
  headers_iff l.max_header_size r.headers,
)

valid_overrides-bad :
    (o : PathOverride) (overrides : List PathOverride)
    → match_path o.path [] ≡ none
    → valid_overrides (o ∷ overrides) ≡ valid_overrides overrides
unfolding valid_overrides
valid_overrides-bad o overrides e = rw (e, valid_overrides) refl

valid_overrides-good :
    (o : PathOverride) (overrides : List PathOverride) (b : Bool)
    → match_path o.path [] ≡ some b
    → valid_overrides (o ∷ overrides) ≡ o ∷ valid_overrides overrides
unfolding valid_overrides
valid_overrides-good o overrides b e = rw (e, valid_overrides) refl

resolve_from-hit :
    (o : PathOverride) (overrides : List PathOverride) (path : Text) (global : InputLimits)
    → matched (match_path o.path path) ≡ true
    → resolve_from (o ∷ overrides) path global ≡ override_limits o.limits global
unfolding resolve_from
resolve_from-hit o overrides path global m = rw m refl

resolve_from-miss :
    (o : PathOverride) (overrides : List PathOverride) (path : Text) (global : InputLimits)
    → matched (match_path o.path path) ≡ false
    → resolve_from (o ∷ overrides) path global ≡ resolve_from overrides path global
unfolding resolve_from
resolve_from-miss o overrides path global m = rw m refl

resolve_from-cases :
    (o : PathOverride) (overrides : List PathOverride) (path : Text) (global : InputLimits)
    → (Applies o path
        × (resolve_from (valid_overrides (o ∷ overrides)) path global
            ≡ override_limits o.limits global))
      ⊎ ((Applies o path → ⊥)
          × (resolve_from (valid_overrides (o ∷ overrides)) path global
              ≡ resolve_from (valid_overrides overrides) path global))
resolve_from-cases o overrides path global = elim (Option-cases (match_path o.path [])) [
  | inl e ↦
      inr (λ a. a.0 e, ap (λ os. resolve_from os path global) (valid_overrides-bad o overrides e))
  | inr (b, e) ↦ elim (Bool-cases (matched (match_path o.path path))) [
    | inl m ↦ inl (
      (λ n. cc, (matched_iff (match_path o.path path)).0 m),
      ap (λ os. resolve_from os path global) (valid_overrides-good o overrides b e)
          ∙ resolve_from-hit o (valid_overrides overrides) path global m,
    )
    | inr m ↦ inr (
      λ a. cc (m, (matched_iff (match_path o.path path)).1 a.1),
      ap (λ os. resolve_from os path global) (valid_overrides-good o overrides b e)
          ∙ resolve_from-miss o (valid_overrides overrides) path global m,
    )
  ]
]

or_global_iff : (limit global l : ℤ) → (l ≡ or_global limit global) ↔ Overrides limit global l
unfolding or_global
or_global_iff (pos n) global l = ground arith
or_global_iff (negsuc n) global l = ground arith

same-limits :
    (l k : InputLimits)
    → l.max_url_length ≡ k.max_url_length
    → l.max_query_string_length ≡ k.max_query_string_length
    → l.max_header_count ≡ k.max_header_count
    → l.max_header_size ≡ k.max_header_size
    → l ≡ k
same-limits l k a b c d = cc

override_limits_iff :
    (o global l : InputLimits) → (l ≡ override_limits o global) ↔ AllOverride o global l
unfolding override_limits
override_limits_iff o global l =
    let u = or_global_iff o.max_url_length global.max_url_length l.max_url_length in
    let q =
      or_global_iff o.max_query_string_length global.max_query_string_length
        l.max_query_string_length in
    let c = or_global_iff o.max_header_count global.max_header_count l.max_header_count in
    let s = or_global_iff o.max_header_size global.max_header_size l.max_header_size in
    (
      λ e. (
        u.0 (ap (λ k. k.max_url_length) e),
        q.0 (ap (λ k. k.max_query_string_length) e),
        c.0 (ap (λ k. k.max_header_count) e),
        s.0 (ap (λ k. k.max_header_size) e),
      ),
      λ a. same-limits l (override_limits o global) (u.1 a.0) (q.1 a.1) (c.1 a.2) (s.1 a.3),
    )

resolve_from-Governs :
    (overrides : List PathOverride) (path : Text) (global l : InputLimits)
    → (l ≡ resolve_from (valid_overrides overrides) path global) ↔ Governs overrides path global l
unfolding resolve_from valid_overrides
resolve_from-Governs [] path global l = (λ e. e, λ e. e)
resolve_from-Governs (o ∷ overrides) path global l =
    let rest = resolve_from-Governs overrides path global l in
    elim (resolve_from-cases o overrides path global) [
      | inl (applies, e) ↦ (
        λ h. inl (applies, (override_limits_iff o.limits global l).0 (h ∙ e)),
        λ g. elim g [
          | inl a ↦ (override_limits_iff o.limits global l).1 a.1 ∙ sym e
          | inr r ↦ absurd (r.0 applies)
        ],
      )
      | inr (skips, e) ↦ (
        λ h. inr (skips, rest.0 (h ∙ e)),
        λ g. elim g [ inl a ↦ absurd (skips a.0) | inr r ↦ rest.1 r.1 ∙ sym e ],
      )
    ]

-- A request passes exactly if the check is switched off, the path is exempt, or the request is within the
-- limits that hold for its path: of the overrides, the first one counts whose pattern is well formed and
-- matches the path, each of its limits that is not zero takes the place of the global one, and a limit of
-- zero or less bounds nothing.
pub input_validation-forward_iff :
    (cfg : InputValidationConfig) (r : Request)
    → (input_validation cfg r ≡ forward) ↔ (
        (cfg.enabled ≡ false)
        ⊎ (exempt r.path ≡ true)
        ⊎ ((l : InputLimits) × Governs cfg.path_overrides r.path cfg.limits l × PassesLimits l r))
unfolding input_validation resolve
input_validation-forward_iff cfg r =
    let resolved = resolve_from (valid_overrides cfg.path_overrides) r.path cfg.limits in
    let checked = check_limits_iff resolved r in
    elim (Bool-cases cfg.enabled) [
      | inr off ↦ rw off (λ _. inl refl, λ _. refl)
      | inl on ↦ elim (Bool-cases (exempt r.path)) [
        | inl e ↦ rw (on, e) (λ _. inr (inl refl), λ _. refl)
        | inr e ↦
            rw (on, e)
              (
                λ h. inr (
                    inr (
                      resolved,
                      (resolve_from-Governs cfg.path_overrides r.path cfg.limits resolved).0 refl,
                      checked.0 h,
                    )),
                λ s. elim s [
                  | inl a ↦ cc
                  | inr (inl b) ↦ cc
                  | inr (inr (l, g, p)) ↦
                      let q = (resolve_from-Governs cfg.path_overrides r.path cfg.limits l).1 g in
                      checked.1 (subst (λ k. PassesLimits k r) q p)
                ],
              )
      ]
    ]
