-- ===== src/Tls/Recount.antt =====
-- What the preflight finds when it is run again at the instant that it named.
use mathlib.Core.Path.{subst}
use vibewarden.Prelude.{
  sym, ap, ℕ, ◌+◌, ◌-◌, ◌≤◌, ◌<◌, ◌≡◌, ◌≢◌, ◌⊎◌, inl, inr, refl, arith, ◌==◌, ltb, Bool, true,
  false, ◌&&◌, String, List, [], ◌∷◌, All, ok, Bool-cases, if◌then◌else◌,
}
use vibewarden.Tls.Preflight.{
  CrtShRecord, counts, count_from, older, count_issued_since, budget_window, budget_capacity,
  status_fail, new_from_query, check_domain,
}

one_if : Bool → ℕ
one_if true = 1
one_if false = 0

-- The records that count, and those of them at one instant.
unfoldable counted : ℕ → List CrtShRecord → ℕ
unfolding one_if
counted threshold [] = 0
counted threshold (rec ∷ records) = one_if (counts threshold rec) + counted threshold records

unfoldable pub counted_at : ℕ → ℕ → List CrtShRecord → ℕ
unfolding one_if
counted_at instant threshold [] = 0
counted_at instant threshold (rec ∷ records) =
    one_if (counts threshold rec && (rec.not_before == instant))
    + counted_at instant threshold records

counts-after :
    (threshold : ℕ) (rec : CrtShRecord)
    → counts threshold rec ≡ true
    → (threshold < rec.not_before) × (rec.not_before ≢ 0)
unfolding counts
counts-after threshold rec h = ground arith

counts-later :
    (threshold later : ℕ) (rec : CrtShRecord)
    → threshold ≤ later
    → counts later rec ≡ (counts threshold rec && ltb later rec.not_before)
unfolding counts
counts-later threshold later rec h = ground arith

count_from-counted :
    (threshold : ℕ) (records : List CrtShRecord) (count oldest : ℕ)
    → (count_from threshold records count oldest).0 ≡ count + counted threshold records
unfolding count_from counted
count_from-counted threshold [] count oldest = omega arith
count_from-counted threshold (rec ∷ records) count oldest = ground (
  arith,
  count_from-counted threshold records (if counts threshold rec then count + 1 else count)
      (if counts threshold rec then older oldest rec.not_before else oldest),
)

-- The oldest instant so far, if there is one, lies after the threshold.
abbrev IsAfter : ℕ → ℕ → Type 0
IsAfter threshold oldest = (oldest ≡ 0) ⊎ (threshold < oldest)

older_lem :
    (threshold oldest t : ℕ)
    → IsAfter threshold oldest
    → threshold < t
    → (threshold < older oldest t)
      × (older oldest t ≤ t)
      × ((oldest ≡ 0) ⊎ (older oldest t ≤ oldest))
unfolding older
older_lem threshold oldest t h k = ground arith

counting_step :
    (threshold : ℕ) (rec : CrtShRecord) (records : List CrtShRecord) (count oldest : ℕ)
    → counts threshold rec ≡ true
    → count_from threshold (rec ∷ records) count oldest
      ≡ count_from threshold records (count + 1) (older oldest rec.not_before)
unfolding count_from
counting_step threshold rec records count oldest h = rw h refl

passing_step :
    (threshold : ℕ) (rec : CrtShRecord) (records : List CrtShRecord) (count oldest : ℕ)
    → counts threshold rec ≡ false
    → count_from threshold (rec ∷ records) count oldest ≡ count_from threshold records count oldest
unfolding count_from
passing_step threshold rec records count oldest h = rw h refl

count_from_nil :
    (threshold count oldest : ℕ) → count_from threshold [] count oldest ≡ (count, oldest)
unfolding count_from
count_from_nil threshold count oldest = refl

count_from-oldest :
    (threshold : ℕ) (records : List CrtShRecord) (count oldest : ℕ)
    → IsAfter threshold oldest
    → let last = (count_from threshold records count oldest).1 in
      IsAfter threshold last
      × ((oldest ≡ 0) ⊎ ((last ≢ 0) × (last ≤ oldest)))
      × ((last ≡ 0) → counted threshold records ≡ 0)
      × All (λ rec. counts threshold rec ≡ true → last ≤ rec.not_before) records
unfolding counted
count_from-oldest threshold [] count oldest h =
    ground (arith, count_from_nil threshold count oldest)
count_from-oldest threshold (rec ∷ records) count oldest h =
    elim (Bool-cases (counts threshold rec)) [
      | inl e ↦
          let after = counts-after threshold rec e in
          let step = older_lem threshold oldest rec.not_before h after.0 in
          let (low, first, none_left, least) =
            count_from-oldest threshold records (count + 1) (older oldest rec.not_before)
              (inr step.0) in
          let kept =
            subst (λ last. All (λ rec. counts threshold rec ≡ true → last ≤ rec.not_before) records)
              (sym (ap (λ p. p.1) (counting_step threshold rec records count oldest e))) least in
          rw (counting_step threshold rec records count oldest e)
            (low, ground arith, ground arith, (λ c. ground arith, kept))
      | inr e ↦
          let (low, first, none_left, least) = count_from-oldest threshold records count oldest h in
          let kept =
            subst (λ last. All (λ rec. counts threshold rec ≡ true → last ≤ rec.not_before) records)
              (sym (ap (λ p. p.1) (passing_step threshold rec records count oldest e))) least in
          rw (passing_step threshold rec records count oldest e)
            (low, first, ground arith, (λ c. cc, kept))
    ]

recount :
    (threshold instant : ℕ) (records : List CrtShRecord)
    → threshold ≤ instant
    → All (λ rec. counts threshold rec ≡ true → instant ≤ rec.not_before) records
    → counted instant records + counted_at instant threshold records ≡ counted threshold records
unfolding counted counted_at
recount threshold instant [] le h = refl
recount threshold instant (rec ∷ records) le h =
    ground
      (arith, recount threshold instant records le h.1, counts-later threshold instant rec le, h.0)

count_issued_since-counted :
    (threshold : ℕ) (records : List CrtShRecord)
    → (count_issued_since records threshold).0 ≡ counted threshold records
unfolding count_issued_since
count_issued_since-counted threshold records =
    omega (arith, count_from-counted threshold records 0 0)

count_issued_since-oldest :
    (threshold : ℕ) (records : List CrtShRecord)
    → let last = (count_issued_since records threshold).1 in
      IsAfter threshold last
      × ((last ≡ 0) → counted threshold records ≡ 0)
      × All (λ rec. counts threshold rec ≡ true → last ≤ rec.not_before) records
unfolding count_issued_since
count_issued_since-oldest threshold records =
    let (low, _, none_left, least) = count_from-oldest threshold records 0 0 (inl refl) in
    (low, none_left, least)

new_from_query-fail :
    (domain : String) (issued oldest : ℕ)
    → (new_from_query domain issued oldest).status ≡ status_fail
    → (budget_capacity ≤ issued)
      × (oldest ≢ 0
          → (new_from_query domain issued oldest).next_slot_available_at ≡ oldest + budget_window)
unfolding new_from_query
new_from_query-fail domain issued oldest h = ground arith

-- Where the budget is used up, run again at the instant that is named as the next free slot on the same
-- records, the check counts all records but those at the oldest instant of before.
pub check_domain-recount :
    (now : ℕ) (domain : String) (records : List CrtShRecord)
    → let before = check_domain now domain (ok records) in
      let after = check_domain before.next_slot_available_at domain (ok records) in
      before.status ≡ status_fail
      → after.issued_in_window + counted_at before.oldest_in_window (now - budget_window) records
        ≡ before.issued_in_window
unfolding check_domain
check_domain-recount now domain records h =
    let threshold = now - budget_window in
    let oldest = (count_issued_since records threshold).1 in
    let (low, none_left, least) = count_issued_since-oldest threshold records in
    let before = count_issued_since-counted threshold records in
    let (enough, found) =
      new_from_query-fail domain (count_issued_since records threshold).0 oldest h in
    let some_left : oldest ≢ 0 = λ e. ground (arith, none_left e) in
    let slot : oldest + budget_window - budget_window ≡ oldest = omega arith in
    let bound : threshold ≤ oldest = ground arith in
    rw (found some_left, slot)
      (omega (
        arith,
        count_issued_since-counted oldest records,
        before,
        recount threshold oldest records bound least,
      ))
