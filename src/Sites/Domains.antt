-- ===== src/Sites/Domains.antt =====
-- internal/domain/site/registry.go, ValidateDomains: what its answer is kept by.
pub mod Distinct
pub mod Preserved
use vibewarden.Prelude.{
  ℕ, ◌≡◌, ◌≢◌, ◌∙◌, refl, ap, arith, List, [], ◌∷◌, Bool, true, false, not, ◌&&◌, ◌||◌, Option,
  none, some, String, str_eq, eq_iff, eq_refl, inl, inr, Option-cases, if◌then◌else◌,
}
use vibewarden.Prelude.Dict.{lookup, insert, delete}
use vibewarden.Sites.{Site, Registry, healthy, claim, seen_domain, validate_from, validate_domains}

-- Every domain of the first list is in the second.
abbrev Within : List String → List String → Type 0
Within fewer seen = (d : String) → seen_domain d fewer ≡ true → seen_domain d seen ≡ true

Within-cons :
    (e : String) (fewer seen : List String) → Within fewer seen → Within (e ∷ fewer) (e ∷ seen)
unfolding seen_domain
Within-cons e fewer seen w d h = ground (arith, w d)

Within-skip : (e : String) (seen : List String) → Within seen (e ∷ seen)
unfolding seen_domain
Within-skip e seen d h = ground arith

Within-swap : (d e : String) (seen : List String) → Within (d ∷ e ∷ seen) (e ∷ d ∷ seen)
unfolding seen_domain
Within-swap d e seen c h = ground arith

pub validate_from-unclaimed :
    (seen : List String) (name : String) (s : Site) (r : Registry)
    → claim s ≡ none
    → validate_from seen ((name, s) ∷ r) ≡ validate_from seen r
unfolding validate_from
validate_from-unclaimed seen name s r h = rw (h, validate_from) refl

pub validate_from-claimed :
    (seen : List String) (name : String) (s : Site) (r : Registry) (d : String)
    → claim s ≡ some d
    → validate_from seen ((name, s) ∷ r) ≡ (not (seen_domain d seen) && validate_from (d ∷ seen) r)
unfolding validate_from
validate_from-claimed seen name s r d h = rw (h, validate_from) (ground arith)

validate_from-Within :
    (fewer seen : List String) (r : Registry)
    → Within fewer seen
    → validate_from seen r ≡ true
    → validate_from fewer r ≡ true
unfolding validate_from
validate_from-Within fewer seen [] w h = refl
validate_from-Within fewer seen ((name, s) ∷ r) w h = elim (Option-cases (claim s)) [
  | inl unclaimed ↦
      validate_from-unclaimed fewer name s r unclaimed
      ∙ validate_from-Within fewer seen r w
          (ground (arith, validate_from-unclaimed seen name s r unclaimed))
  | inr (d, claimed) ↦ ground (
    arith,
    validate_from-claimed seen name s r d claimed,
    validate_from-claimed fewer name s r d claimed,
    w d,
    validate_from-Within (d ∷ fewer) (d ∷ seen) r (Within-cons d fewer seen w),
  )
]

-- What is valid with more domains taken is valid with fewer.
pub validate_from-fewer :
    (e : String) (seen : List String) (r : Registry)
    → validate_from (e ∷ seen) r ≡ true
    → validate_from seen r ≡ true
validate_from-fewer e seen r h = validate_from-Within seen (e ∷ seen) r (Within-skip e seen) h

validate_from-swap :
    (d e : String) (seen : List String) (r : Registry)
    → validate_from (d ∷ e ∷ seen) r ≡ true
    → validate_from (e ∷ d ∷ seen) r ≡ true
validate_from-swap d e seen r h =
    validate_from-Within (e ∷ d ∷ seen) (d ∷ e ∷ seen) r (Within-swap e d seen) h

pub validate_from-delete :
    (key : String) (seen : List String) (r : Registry)
    → validate_from seen r ≡ true
    → validate_from seen (delete key r) ≡ true
unfolding delete
validate_from-delete key seen [] h = h
validate_from-delete key seen ((name, s) ∷ r) h = elim (Option-cases (claim s)) [
  | inl unclaimed ↦ ground (
    arith,
    validate_from-unclaimed seen name s r unclaimed,
    validate_from-unclaimed seen name s (delete key r) unclaimed,
    validate_from-delete key seen r,
  )
  | inr (d, claimed) ↦ ground (
    arith,
    validate_from-claimed seen name s r d claimed,
    validate_from-claimed seen name s (delete key r) d claimed,
    validate_from-fewer d seen (delete key r),
    validate_from-delete key (d ∷ seen) r,
  )
]

-- A site that claims no domain can take any place.
pub validate_from-insert_unclaimed :
    (key : String) (new : Site) (seen : List String) (r : Registry)
    → claim new ≡ none
    → validate_from seen r ≡ true
    → validate_from seen (insert key new r) ≡ true
unfolding insert validate_from
validate_from-insert_unclaimed key new seen [] free h = validate_from-unclaimed seen key new [] free
validate_from-insert_unclaimed key new seen ((name, s) ∷ r) free h = elim (Option-cases (claim s)) [
  | inl unclaimed ↦ ground (
    arith,
    validate_from-unclaimed seen key new r free,
    validate_from-unclaimed seen name s r unclaimed,
    validate_from-unclaimed seen name s (insert key new r) unclaimed,
    validate_from-insert_unclaimed key new seen r free,
  )
  | inr (d, claimed) ↦ ground (
    arith,
    validate_from-unclaimed seen key new r free,
    validate_from-claimed seen name s r d claimed,
    validate_from-claimed seen name s (insert key new r) d claimed,
    validate_from-fewer d seen r,
    validate_from-insert_unclaimed key new (d ∷ seen) r free,
  )
]

-- A site can come last if its domain is free and was kept free.
pub validate_from-insert_last :
    (key : String) (new : Site) (d : String) (seen : List String) (r : Registry)
    → claim new ≡ some d
    → lookup key r ≡ none
    → seen_domain d seen ≡ false
    → validate_from (d ∷ seen) r ≡ true
    → validate_from seen (insert key new r) ≡ true
unfolding insert lookup seen_domain validate_from
validate_from-insert_last key new d seen [] claims absent free h =
    ground (arith, validate_from-claimed seen key new [] d claims)
validate_from-insert_last key new d seen ((name, s) ∷ r) claims absent free h =
    elim (Option-cases (claim s)) [
      | inl unclaimed ↦ ground (
        arith,
        validate_from-unclaimed (d ∷ seen) name s r unclaimed,
        validate_from-unclaimed seen name s (insert key new r) unclaimed,
        validate_from-insert_last key new d seen r claims,
      )
      | inr (e, claimed) ↦ ground (
        arith,
        eq_iff d e,
        eq_iff e d,
        validate_from-claimed (d ∷ seen) name s r e claimed,
        validate_from-claimed seen name s (insert key new r) e claimed,
        validate_from-swap e d seen r,
        validate_from-insert_last key new d (e ∷ seen) r claims,
      )
    ]
