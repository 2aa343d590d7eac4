-- ===== src/Access/Scopes.antt =====
-- internal/domain/auth/scope_rule.go: which scopes an API key needs for a request.
use vibewarden.Prelude.{
  ◌≡◌, ◌↔◌, inl, inr, Bool-cases, refl, arith, Bool, true, false, not, String, str_eq, eq_iff, List,
  [], ◌∷◌, ◌++◌, All, Any, Option, none, some, some_of, if◌then◌else◌,
}
use vibewarden.Prelude.Text.{Text}
use vibewarden.Glob.{match_path, matched}
use vibewarden.Glob.Segment.{IsLiteral, matched_iff, match_path-deep}

pub record ScopeRule : Type 0 where
  pub path : Text
  pub methods : List String
  pub required_scopes : List String

abbrev is_empty {ℓ} : {A : Type ℓ} → List A → Bool
is_empty [] = true
is_empty (x ∷ xs) = false

unfoldable pub rule_matches : ScopeRule → String → Text → Bool
unfolding matched
rule_matches r method request_path =
    if not (matched (match_path r.path request_path))
    then false
    else if is_empty r.methods
    then true
    else some_of (λ m. str_eq m method) r.methods

unfoldable satisfied : List String → List String → Bool
satisfied [] held = true
satisfied (r ∷ rs) held =
    let rest = satisfied rs held in if not (some_of (λ h. str_eq h r) held) then false else rest

unfoldable pub satisfied_by : ScopeRule → List String → Bool
unfolding satisfied
satisfied_by r key_scopes = satisfied r.required_scopes key_scopes

unfoldable pub matching_scope_rule : List ScopeRule → String → Text → Option ScopeRule
matching_scope_rule [] method path = none
matching_scope_rule (r ∷ rs) method path =
    let rest = matching_scope_rule rs method path in
    if rule_matches r method path then some r else rest

unfoldable validate_scope_rules : List ScopeRule → Bool
validate_scope_rules [] = true
validate_scope_rules (r ∷ rs) =
    let rest = validate_scope_rules rs in
    elim (match_path r.path []) [ none ↦ false | some b ↦ rest ]

abbrev pub Holds : String → List String → Type 0
Holds scope held = Any (λ h. h ≡ scope) held

Holds-iff :
    (scope : String) (held : List String)
    → (some_of (λ h. str_eq h scope) held ≡ true) ↔ Holds scope held
unfolding some_of
Holds-iff scope [] = (λ h. cc, λ h. absurd h)
Holds-iff scope (h ∷ hs) = ground (arith, eq_iff h scope, Holds-iff scope hs)

-- A key satisfies a rule exactly if it holds every scope that the rule requires.
pub satisfied_by_iff :
    (r : ScopeRule) (held : List String)
    → (satisfied_by r held ≡ true) ↔ All (λ scope. Holds scope held) r.required_scopes
unfolding satisfied_by
satisfied_by_iff r held = each r.required_scopes
  where
    each : (rs : List String) → (satisfied rs held ≡ true) ↔ All (λ scope. Holds scope held) rs
    each [] = (λ _. tt, λ _. refl)
    each (s ∷ rs) = ground (arith, Holds-iff s held, each rs)

-- A rule `<prefix>/*` says nothing of a request that lies two segments or more below the prefix.
pub deep_path-not_ruled :
    (r : ScopeRule) (p segment deeper : Text) (method : String)
    → r.path ≡ p ++ b'/' ∷ b'*' ∷ []
    → All IsLiteral p
    → rule_matches r method (p ++ b'/' ∷ (segment ++ b'/' ∷ deeper)) ≡ false
unfolding rule_matches
deep_path-not_ruled r p segment deeper method same h =
    rw same (elim (Bool-cases (matched (match_path glob path))) [
      | inl applies ↦ absurd (match_path-deep p segment deeper h ((matched_iff _).0 applies))
      | inr other ↦ rw other
    ])
  where
    glob : Text
    glob = p ++ b'/' ∷ b'*' ∷ []

    path : Text
    path = p ++ b'/' ∷ (segment ++ b'/' ∷ deeper)
