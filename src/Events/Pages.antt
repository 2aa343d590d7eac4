-- ===== src/Events/Pages.antt =====
-- internal/adapters/log/ringbuffer.go: the pages that a client of the admin endpoint reads, one query
-- after another.
use vibewarden.Prelude.{
  ℕ, zero, suc, ◌-◌, ◌^◌, ◌≤◌, ◌<◌, ◌≡◌, ◌∙◌, refl, sym, ap, arith, Bool, List, [], ◌∷◌, ◌++◌,
  length, take,
}
use vibewarden.Prelude.Int.{ℤ, pos}
use vibewarden.Prelude.Text.{Text}
use vibewarden.Events.RingBuffer.{
  StoredEvent, RingBuffer, new_ring_buffer, log, store, log_all, build_type_set, at_least_one,
  passes, last_cursor, query,
}
use vibewarden.Events.Contents.{latest, read}
use vibewarden.Events.Latest.{
  contents, numbered, log_all-latest, log_all-IsRing, new_ring_buffer-IsRing, length-contents,
}
use vibewarden.Events.Queries.{
  keep, Ascending, Ascending-numbered, Ascending-drop, take-query_from, past-resume, query-cursor,
}

at_least_one-le : (k : ℕ) → k ≤ at_least_one (pos k)
unfolding at_least_one
at_least_one-le k = ground arith

module _ {E : Type 0} where
  length-keep :
      (p : StoredEvent E → Bool) (xs : List (StoredEvent E)) → length (keep p xs) ≤ length xs
  unfolding keep
  length-keep p [] = omega arith
  length-keep p (x ∷ xs) = ground (arith, length-keep p xs)

  take-all : (n : ℕ) (xs : List (StoredEvent E)) → length xs ≤ n → take n xs ≡ xs
  take-all zero [] h = refl
  take-all zero (x ∷ xs) h = ground arith
  take-all (suc n) [] h = refl
  take-all (suc n) (x ∷ xs) h = ap (λ rest. x ∷ rest) (take-all n xs (omega arith))

  log_all-capacity : (es : List E) (r : RingBuffer E) → (log_all es r).capacity ≡ r.capacity
  unfolding log_all log store
  log_all-capacity [] r = refl
  log_all-capacity (e ∷ es) r = log_all-capacity es (log e r)

  contents-new : (z : E) (n : ℤ) → contents z (new_ring_buffer z n) ≡ []
  unfolding new_ring_buffer read
  contents-new z n = refl

-- The buffer after some events.
abbrev pub filled : {E : Type 0} → E → ℤ → List E → RingBuffer E
filled z n es = log_all es (new_ring_buffer z n)

module _ {E : Type 0} (z : E) (type_of : E → Text) where
  contents-filled :
      (n : ℤ) (es : List E)
      → contents z (filled z n es) ≡ latest (new_ring_buffer z n).capacity (numbered 0 es)
  unfolding new_ring_buffer
  contents-filled n es =
      log_all-latest z es (new_ring_buffer z n) (new_ring_buffer-IsRing z n)
      ∙ rw (contents-new z n) refl

  -- A query of a buffer that has taken any events returns, of the last events that its capacity holds,
  -- those with a cursor above the given one and a type that is asked for, oldest first, and of them the
  -- first ones up to the limit (at least one); an event's cursor is its number in the order of the calls.
  pub query-latest :
      (n : ℤ) (es : List E) (since : ℕ) (types : List Text) (limit : ℤ)
      → (query z type_of since types limit (filled z n es)).0
        ≡ take (at_least_one limit) (
            keep
              (passes type_of since (build_type_set types))
              (latest (new_ring_buffer z n).capacity (numbered 0 es)))
  query-latest n es since types limit =
      rw (sym (contents-filled n es)) (take-query_from z type_of since types limit (filled z n es))

  query-all :
      (n : ℤ) (es : List E) (since : ℕ) (types : List Text) (k : ℕ)
      → (new_ring_buffer z n).capacity ≤ k
      → (query z type_of since types (pos k) (filled z n es)).0
        ≡ keep (passes type_of since (build_type_set types)) (contents z (filled z n es))
  query-all n es since types k h =
      let held = contents z (filled z n es) in
      let few = log_all-IsRing es (new_ring_buffer z n) (new_ring_buffer-IsRing z n) in
      take-query_from z type_of since types (pos k) (filled z n es)
      ∙ take-all (at_least_one (pos k)) (keep (passes type_of since (build_type_set types)) held) (
          omega (
            arith,
            h,
            few.2,
            at_least_one-le k,
            log_all-capacity es (new_ring_buffer z n),
            length-contents z (filled z n es),
            length-keep (passes type_of since (build_type_set types)) held,
          ))

  Ascending-filled :
      (n : ℤ) (es : List E) → length es < 2 ^ 64 → Ascending 0 (contents z (filled z n es))
  Ascending-filled n es h =
      let numbered_es = numbered 0 es in
      rw (contents-filled n es) (
        Ascending-drop 0 (length numbered_es - (new_ring_buffer z n).capacity) numbered_es
          (Ascending-numbered 0 es (omega arith)))

  -- A client that reads a page, of any limit, and then asks for the rest from the cursor that came with
  -- the page, has read the same events in the same order as one query with no effective limit returns:
  -- none is lost and none comes twice. Fewer than 2 ^ 64 events have been stored, and none comes between.
  pub query-resume :
      (n : ℤ) (es : List E) (since : ℕ) (types : List Text) (limit : ℤ) (k : ℕ)
      → length es < 2 ^ 64
      → (new_ring_buffer z n).capacity ≤ k
      → let buffer = filled z n es in
        let page = query z type_of since types limit buffer in
        page.0 ++ (query z type_of page.1 types (pos k) buffer).0
        ≡ (query z type_of since types (pos k) buffer).0
  query-resume n es since types limit k few h =
      let buffer = filled z n es in
      let held = contents z buffer in
      let page = keep (passes type_of since (build_type_set types)) held in
      rw
        (
          query-cursor z type_of since types limit buffer,
          query-all n es (last_cursor since (query z type_of since types limit buffer).0) types k h,
          query-all n es since types k h,
          take-query_from z type_of since types limit buffer,
        )
        (past-resume type_of (build_type_set types) (at_least_one limit) since 0 held
          (Ascending-filled n es few))
