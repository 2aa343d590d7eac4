-- ===== src/Tls/Acme.antt =====
-- internal/app/tlsdomain/classify.go: names for which no authority issues a certificate. What
-- net.ParseIP accepts is a parameter, and the texts of the reasons are left out.
use vibewarden.Prelude.{◌==◌, Bool, List, [], ◌∷◌, Option, none, some, some_of, if◌then◌else◌}
use vibewarden.Prelude.Text.{Text, text_of, text_eq, to_lower}
use vibewarden.Prelude.Split.{cut_last}

pub data Reason : Type 0 where
  localhost ip_literal : Reason
  reserved_tld : Text → Reason

abbrev reserved_tlds : List Text
reserved_tlds =
    text_of "local"
    ∷ text_of "localhost"
    ∷ text_of "test"
    ∷ text_of "invalid"
    ∷ text_of "example"
    ∷ []

-- `strings.TrimSuffix(s, ".")`.
unfoldable trim_dot : Text → Text
trim_dot [] = []
trim_dot (c ∷ s) = elim s [ [] ↦ if c == b'.' then [] else c ∷ [] | d ∷ rest ↦ c ∷ trim_dot s ]

reserved_suffix : Option (Text × Text) → Option Reason
reserved_suffix none = none
reserved_suffix (some (before, tld)) =
    if some_of (λ reserved. text_eq tld reserved) reserved_tlds
    then some (reserved_tld tld)
    else none

module _ (is_ip : Text → Bool) where
  unfoldable pub acme_incompatible : Text → Option Reason
  unfolding trim_dot reserved_suffix
  acme_incompatible domain =
      let d = to_lower (trim_dot domain) in
      if text_eq domain []
      then none
      else if text_eq d (text_of "localhost")
      then some localhost
      else if is_ip d
      then some ip_literal
      else reserved_suffix (cut_last b'.' d)
