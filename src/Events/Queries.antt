-- ===== src/Events/Queries.antt =====
-- internal/adapters/log/ringbuffer.go: what a query returns, and how the next page follows it.
use vibewarden.Prelude.{
  ℕ, zero, suc, ◌+◌, ◌-◌, ◌%◌, ◌^◌, ◌≤◌, ◌<◌, ◌≡◌, ◌∙◌, inl, inr, refl, sym, ap, arith, ◌==◌, leb,
  Bool, true, false, List, [], ◌∷◌, ◌++◌, length, get_or, take, drop, Bool-cases, if◌then◌else◌,
}
use vibewarden.Prelude.Int.{ℤ}
use vibewarden.Prelude.Text.{Text}
use vibewarden.Events.RingBuffer.{
  StoredEvent, RingBuffer, next_cursor, zero_stored, start_of, build_type_set, at_least_one, passes,
  query_from, last_cursor, query,
}
use vibewarden.Events.Contents.{read}
use vibewarden.Events.Latest.{contents, numbered}

unfoldable pub keep {ℓ} : {A : Type ℓ} → (A → Bool) → List A → List A
keep p [] = []
keep p (x ∷ xs) = let rest = keep p xs in if p x then x ∷ rest else rest

-- The cursors ascend, and all are above the bound.
abbrev pub Ascending : {E : Type 0} → ℕ → List (StoredEvent E) → Type 0
Ascending b [] = Unit
Ascending b (x ∷ xs) = (b < x.cursor) × Ascending x.cursor xs

module _ {E : Type 0} where
  Ascending-le : (b c : ℕ) (xs : List (StoredEvent E)) → b ≤ c → Ascending c xs → Ascending b xs
  Ascending-le b c [] le h = tt
  Ascending-le b c (x ∷ xs) le h = (omega (arith, h.0), h.1)

  pub Ascending-drop :
      (b n : ℕ) (xs : List (StoredEvent E)) → Ascending b xs → Ascending b (drop n xs)
  Ascending-drop b zero xs h = h
  Ascending-drop b (suc n) [] h = tt
  Ascending-drop b (suc n) (x ∷ xs) h =
      Ascending-drop b n xs (Ascending-le b x.cursor xs (omega (arith, h.0)) h.1)

  pub Ascending-numbered :
      (c : ℕ) (es : List E) → c + length es < 2 ^ 64 → Ascending c (numbered c es)
  unfolding next_cursor
  Ascending-numbered c [] h = tt
  Ascending-numbered c (e ∷ es) h =
      let n : next_cursor c ≡ c + 1 = grind arith in
      (omega arith, Ascending-numbered (next_cursor c) es (omega arith))

at_least_one-pos : (n : ℤ) → 0 < at_least_one n
unfolding at_least_one
at_least_one-pos n = ground arith

module _ {E : Type 0} (z : E) (type_of : E → Text) where
  query_from-read :
      (slots : List (StoredEvent E)) (capacity since : ℕ) (types : List Text) (i rounds free : ℕ)
      → query_from z type_of slots capacity since types i rounds (suc free)
        ≡ take
            (suc free)
            (keep (passes type_of since types) (read (zero_stored z) slots capacity i rounds))
  unfolding query_from read keep
  query_from-read slots capacity since types i zero free = refl
  query_from-read slots capacity since types i (suc n) zero =
      elim (Bool-cases (passes type_of since types (get_or slots (i % capacity) (zero_stored z)))) [
        | inl kept ↦ rw kept refl
        | inr skipped ↦ rw skipped (query_from-read slots capacity since types (i + 1) n zero)
      ]
  query_from-read slots capacity since types i (suc n) (suc f) =
      elim (Bool-cases (passes type_of since types (get_or slots (i % capacity) (zero_stored z)))) [
        | inl kept ↦
            let e : suc (suc f) - 1 ≡ suc f = omega arith in
            let b : (suc (suc f) == 1) ≡ false = ground arith in
            rw (kept, b, e, query_from-read slots capacity since types (i + 1) n f) refl
        | inr skipped ↦ rw skipped (query_from-read slots capacity since types (i + 1) n (suc f))
      ]

  pub take-query_from :
      (since : ℕ) (types : List Text) (limit : ℤ) (r : RingBuffer E)
      → (query z type_of since types limit r).0
        ≡ take
            (at_least_one limit)
            (keep (passes type_of since (build_type_set types)) (contents z r))
  unfolding query
  take-query_from since types limit r =
      let e : at_least_one limit ≡ suc (at_least_one limit - 1) =
        omega (arith, at_least_one-pos limit) in
      rw e (
        query_from-read r.slots r.capacity since (build_type_set types) (start_of r) r.count
          (at_least_one limit - 1))

  pub query-cursor :
      (since : ℕ) (types : List Text) (limit : ℤ) (r : RingBuffer E)
      → (query z type_of since types limit r).1
        ≡ last_cursor since (query z type_of since types limit r).0
  unfolding query
  query-cursor since types limit r = refl

module _ {E : Type 0} (type_of : E → Text) (types : List Text) where
  -- What is past a cursor.
  abbrev past : ℕ → List (StoredEvent E) → List (StoredEvent E)
  past since = keep (passes type_of since types)

  past-nil : (since : ℕ) → past since [] ≡ []
  unfolding keep
  past-nil since = refl

  past-kept :
      (since : ℕ) (x : StoredEvent E) (xs : List (StoredEvent E))
      → passes type_of since types x ≡ true
      → past since (x ∷ xs) ≡ x ∷ past since xs
  unfolding keep
  past-kept since x xs h = rw h refl

  past-skipped :
      (since : ℕ) (x : StoredEvent E) (xs : List (StoredEvent E))
      → passes type_of since types x ≡ false
      → past since (x ∷ xs) ≡ past since xs
  unfolding keep
  past-skipped since x xs h = rw h refl

  passes-gt :
      (since : ℕ) (x : StoredEvent E) → passes type_of since types x ≡ true → since < x.cursor
  unfolding passes
  passes-gt since x h = ground arith

  passes-le :
      (since : ℕ) (x : StoredEvent E) → x.cursor ≤ since → passes type_of since types x ≡ false
  unfolding passes
  passes-le since x h = ground arith

  passes-later :
      (since later : ℕ) (x : StoredEvent E)
      → since ≤ later
      → passes type_of since types x ≡ false
      → passes type_of later types x ≡ false
  unfolding passes
  passes-later since later x le h = ground arith

  past-Ascending :
      (since b : ℕ) (xs : List (StoredEvent E))
      → since ≤ b
      → Ascending b xs
      → past since xs ≡ past b xs
  unfolding passes keep
  past-Ascending since b [] le h = refl
  past-Ascending since b (x ∷ xs) le h =
      let u : leb x.cursor since ≡ false = ground (arith, h.0) in
      let v : leb x.cursor b ≡ false = ground (arith, h.0) in
      let rest : past since xs ≡ past b xs =
        past-Ascending since x.cursor xs (omega (arith, h.0)) h.1
        ∙ sym (past-Ascending b x.cursor xs (omega (arith, h.0)) h.1) in
      rw (u, v, rest) refl

  past-cursor :
      (since : ℕ) (x : StoredEvent E) (xs : List (StoredEvent E))
      → passes type_of since types x ≡ true
      → Ascending x.cursor xs
      → past since xs ≡ past x.cursor xs
  past-cursor since x xs kept h =
      past-Ascending since x.cursor xs (omega (arith, passes-gt since x kept)) h

  last_cursor-ge :
      (n since b : ℕ) (xs : List (StoredEvent E))
      → Ascending b xs
      → since ≤ last_cursor since (take n (past since xs))
  unfolding last_cursor
  last_cursor-ge zero since b xs h = omega arith
  last_cursor-ge (suc n) since b [] h = rw (past-nil since) (omega arith)
  last_cursor-ge (suc n) since b (x ∷ xs) h = elim (Bool-cases (passes type_of since types x)) [
    | inl kept ↦
        rw (past-kept since x xs kept, past-cursor since x xs kept h.1)
          (omega (arith, passes-gt since x kept, last_cursor-ge n x.cursor x.cursor xs h.1))
    | inr skipped ↦
        rw (past-skipped since x xs skipped) (last_cursor-ge (suc n) since x.cursor xs h.1)
  ]

  pub past-resume :
      (n since b : ℕ) (xs : List (StoredEvent E))
      → Ascending b xs
      → take n (past since xs) ++ past (last_cursor since (take n (past since xs))) xs
        ≡ past since xs
  unfolding last_cursor
  past-resume zero since b xs h = refl
  past-resume (suc n) since b [] h = rw (past-nil since) (past-nil since)
  past-resume (suc n) since b (x ∷ xs) h = elim (Bool-cases (passes type_of since types x)) [
    | inl kept ↦
        let ge = last_cursor-ge n x.cursor x.cursor xs h.1 in
        let cursor = last_cursor x.cursor (take n (past x.cursor xs)) in
        rw
          (
            past-kept since x xs kept,
            past-cursor since x xs kept h.1,
            past-skipped cursor x xs (passes-le cursor x ge),
          )
          (ap (λ rest. x ∷ rest) (past-resume n x.cursor x.cursor xs h.1))
    | inr skipped ↦
        let ge = last_cursor-ge (suc n) since x.cursor xs h.1 in
        let cursor = last_cursor since (take (suc n) (past since xs)) in
        rw
          (
            past-skipped since x xs skipped,
            past-skipped cursor x xs (passes-later since cursor x ge skipped),
          )
          (past-resume (suc n) since x.cursor xs h.1)
  ]
