-- ===== src/Tls/Preflight.antt =====
-- internal/domain/tlspreflight and internal/app/tlspreflight: the check of the issuance budget before
-- a certificate is asked for. The records of a domain, or the failure of the query, are parameters; the
-- texts of the results are left out.
use vibewarden.Prelude.{
  ℕ, ◌+◌, ◌-◌, ltb, leb, Bool, true, not, ◌||◌, ◌&&◌, String, List, [], ◌∷◌, Option, none, some,
  Result, ok, err, if◌then◌else◌,
}
use vibewarden.Prelude.Text.{Text, text_of, has_prefix, to_lower}
use vibewarden.Prelude.Int.{is_zero_time}

abbrev pub budget_window : ℕ
budget_window = 604_800_000_000_000

abbrev pub budget_capacity : ℕ
budget_capacity = 5

abbrev warn_remaining_at : ℕ
warn_remaining_at = 1

abbrev fail_remaining_at : ℕ
fail_remaining_at = 0

pub record CrtShRecord : Type 0 where
  pub not_before : ℕ
  pub issuer_name : Text

-- `strings.Contains(s, sub)`.
unfoldable contains : Text → Text → Bool
contains sub [] = has_prefix sub []
contains sub (c ∷ s) = let rest = contains sub s in if has_prefix sub (c ∷ s) then true else rest

unfoldable pub is_le_issuer : CrtShRecord → Bool
unfolding contains
is_le_issuer rec = contains (text_of "let's encrypt") (to_lower rec.issuer_name)

-- Whether a record counts against the budget.
unfoldable pub counts : ℕ → CrtShRecord → Bool
unfolding is_le_issuer
counts threshold rec =
    not (is_zero_time rec.not_before) && is_le_issuer rec && ltb threshold rec.not_before

unfoldable pub older : ℕ → ℕ → ℕ
older oldest t = if is_zero_time oldest || ltb t oldest then t else oldest

-- The loop of CountIssuedSince, from a count and an oldest instant.
unfoldable pub count_from : ℕ → List CrtShRecord → ℕ → ℕ → ℕ × ℕ
unfolding counts older
count_from threshold [] count oldest = (count, oldest)
count_from threshold (rec ∷ records) count oldest =
    count_from threshold records (if counts threshold rec then count + 1 else count)
      (if counts threshold rec then older oldest rec.not_before else oldest)

unfoldable pub count_issued_since : List CrtShRecord → ℕ → ℕ × ℕ
count_issued_since records threshold = count_from threshold records 0 0

pub data Status : Type 0 where
  status_ok status_warn status_fail : Status

pub record PreflightResult : Type 0 where
  pub domain : String
  pub status : Status
  pub issued_in_window : ℕ
  pub remaining_budget : ℕ
  pub oldest_in_window : ℕ
  pub next_slot_available_at : ℕ
  pub failed : Option String

unfoldable pub new_from_query : String → ℕ → ℕ → PreflightResult
new_from_query domain issued oldest =
    let remaining = budget_capacity - issued in
    record {
      domain = domain;
      status =
          if leb remaining fail_remaining_at
          then status_fail
          else if leb remaining warn_remaining_at
          then status_warn
          else status_ok;
      issued_in_window = issued;
      remaining_budget = remaining;
      oldest_in_window = oldest;
      next_slot_available_at =
          if leb remaining fail_remaining_at && not (is_zero_time oldest)
          then oldest + budget_window
          else 0;
      failed = none;
    }

unfoldable new_from_error : String → String → PreflightResult
new_from_error domain e = record {
  domain = domain;
  status = status_warn;
  issued_in_window = 0;
  remaining_budget = 0;
  oldest_in_window = 0;
  next_slot_available_at = 0;
  failed = some e;
}

unfoldable pub check_domain : ℕ → String → Result String (List CrtShRecord) → PreflightResult
unfolding new_from_query new_from_error count_issued_since
check_domain now domain (err e) = new_from_error domain e
check_domain now domain (ok records) =
    let (count, oldest) = count_issued_since records (now - budget_window) in
    new_from_query domain count oldest

module _ (query : String → Result String (List CrtShRecord)) where
  unfoldable pub check : ℕ → List String → List PreflightResult
  unfolding check_domain
  check now [] = []
  check now (domain ∷ domains) = check_domain now domain (query domain) ∷ check now domains
