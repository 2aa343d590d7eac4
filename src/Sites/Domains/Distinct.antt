-- ===== src/Sites/Domains/Distinct.antt =====
-- internal/domain/site/registry.go, ValidateDomains: a registry that passes has distinct domains.
use vibewarden.Prelude.{
  ◌≡◌, ◌≢◌, arith, List, [], ◌∷◌, true, some, String, eq_iff, eq_refl, inl, inr, Option-cases,
}
use vibewarden.Prelude.Dict.{lookup}
use vibewarden.Sites.{Site, Registry, healthy, claim, seen_domain, validate_from, validate_domains}
use vibewarden.Sites.Domains.{validate_from-unclaimed, validate_from-claimed, validate_from-fewer}

-- A healthy site that has a domain, which is not "".
abbrev Serves : Site → String → Type 0
Serves s d = (s.status ≡ healthy) × (s.domain ≡ some d) × (d ≢ "")

-- No two sites of the registry, which have different keys, serve one domain.
abbrev pub IsDistinct : Registry → Type 0
IsDistinct r =
    (k j : String) (s t : Site) (d : String)
    → k ≢ j
    → lookup k r ≡ some s
    → lookup j r ≡ some t
    → Serves s d
    → ¬ Serves t d

claim-Serves : (s : Site) (d : String) → Serves s d → claim s ≡ some d
unfolding claim
claim-Serves s d (up, named, ne) = rw (up, named, claim) (ground (arith, eq_iff d ""))

-- A domain that is taken before is claimed by no site of a valid registry.
validate_from-taken :
    (seen : List String) (r : Registry) (k : String) (s : Site) (d : String)
    → validate_from seen r ≡ true
    → seen_domain d seen ≡ true
    → lookup k r ≡ some s
    → claim s ≢ some d
unfolding lookup seen_domain validate_from
validate_from-taken seen [] k s d valid taken found claims = ground arith
validate_from-taken seen ((name, t) ∷ r) k s d valid taken found claims =
    elim (Option-cases (claim t)) [
      | inl unclaimed ↦
          ground (
            arith,
            validate_from-unclaimed seen name t r unclaimed,
            validate_from-taken seen r k s d,
          )
      | inr (e, claimed) ↦ ground (
        arith,
        eq_iff e d,
        validate_from-claimed seen name t r e claimed,
        validate_from-taken (e ∷ seen) r k s d,
      )
    ]

-- What the first site claims, no later one of a valid registry does.
validate_from-first :
    (seen : List String) (name : String) (t : Site) (r : Registry) (k : String) (s : Site)
    (d : String)
    → validate_from seen ((name, t) ∷ r) ≡ true
    → lookup k r ≡ some s
    → claim t ≡ some d
    → claim s ≢ some d
unfolding seen_domain
validate_from-first seen name t r k s d valid found claims = ground (
  arith,
  eq_refl d,
  validate_from-claimed seen name t r d claims,
  validate_from-taken (d ∷ seen) r k s d,
)

validate_from-rest :
    (seen : List String) (name : String) (t : Site) (r : Registry)
    → validate_from seen ((name, t) ∷ r) ≡ true
    → validate_from seen r ≡ true
validate_from-rest seen name t r valid = elim (Option-cases (claim t)) [
  | inl unclaimed ↦ ground (arith, validate_from-unclaimed seen name t r unclaimed)
  | inr (e, claimed) ↦
      ground (arith, validate_from-claimed seen name t r e claimed, validate_from-fewer e seen r)
]

validate_from-once :
    (seen : List String) (r : Registry) (k j : String) (s t : Site) (d : String)
    → validate_from seen r ≡ true
    → k ≢ j
    → lookup k r ≡ some s
    → lookup j r ≡ some t
    → claim s ≡ some d
    → claim t ≢ some d
unfolding lookup
validate_from-once seen [] k j s t d valid ne found found' claims claims' = ground arith
validate_from-once seen ((name, x) ∷ r) k j s t d valid ne found found' claims claims' = ground (
  arith,
  eq_iff name k,
  eq_iff name j,
  validate_from-rest seen name x r valid,
  validate_from-first seen name x r k s d valid,
  validate_from-first seen name x r j t d valid,
  validate_from-once seen r k j s t d,
)

pub validate_domains-IsDistinct : (r : Registry) → validate_domains r ≡ true → IsDistinct r
unfolding validate_domains
validate_domains-IsDistinct r valid k j s t d ne found found' serves serves' =
    validate_from-once [] r k j s t d valid ne found found' (claim-Serves s d serves)
      (claim-Serves t d serves')
