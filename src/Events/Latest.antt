-- ===== src/Events/Latest.antt =====
-- internal/adapters/log/ringbuffer.go: what the buffer holds after a number of events.
use vibewarden.Prelude.{
  ℕ, suc, ◌+◌, ◌-◌, ◌%◌, ◌≤◌, ◌<◌, ◌≡◌, ◌∙◌, inl, inr, refl, sym, ap, arith, ◌==◌, leb, true, false,
  List, [], ◌∷◌, ◌++◌, length, get_or, set, drop, length-set, length-replicate, length-append,
  append_assoc, append-nil, Bool-cases, ==_iff,
}
use vibewarden.Prelude.Int.{ℤ, pos, pos_part, ltb_ℤ}
use vibewarden.Events.RingBuffer.{
  StoredEvent, RingBuffer, next_cursor, zero_stored, new_ring_buffer, store, log, log_all, start_of,
}
use vibewarden.Events.Contents.{
  latest, latest-append, drop-append, read, read-snoc, read-set, read-wrap, length-read,
  get_or-set_self, Clear-below, Clear-round,
}

-- The slots are as many as the capacity, and until they are full the next one to write is the first
-- that was never written.
abbrev IsRing : {E : Type 0} → RingBuffer E → Type 0
IsRing r =
    (length r.slots ≡ r.capacity)
    × (r.head < r.capacity)
    × (r.count ≤ r.capacity)
    × (r.count < r.capacity → r.head ≡ r.count)

-- What the buffer holds, oldest first.
abbrev pub contents : {E : Type 0} → E → RingBuffer E → List (StoredEvent E)
contents z r = read (zero_stored z) r.slots r.capacity (start_of r) r.count

-- The events with the cursors that they are given.
abbrev pub numbered : {E : Type 0} → ℕ → List E → List (StoredEvent E)
numbered counter [] = []
numbered counter (e ∷ es) =
    record { cursor = next_cursor counter; event = e } ∷ numbered (next_cursor counter) es

module _ {E : Type 0} where
  store-IsRing : (c : ℕ) (e : E) (r : RingBuffer E) → IsRing r → IsRing (store c e r)
  unfolding store
  store-IsRing c e r h = elim (Bool-cases (leb r.capacity r.count)) [
    | inl full ↦ rw full (
      length-set r.slots r.head (record { cursor = c; event = e }) ∙ h.0,
      grind arith,
      h.2,
      λ lt. ground arith,
    )
    | inr free ↦ rw free (
      length-set r.slots r.head (record { cursor = c; event = e }) ∙ h.0,
      grind arith,
      ground arith,
      λ lt. grind arith,
    )
  ]

  log-IsRing : (e : E) (r : RingBuffer E) → IsRing r → IsRing (log e r)
  unfolding log
  log-IsRing e r h =
      store-IsRing (next_cursor r.counter) e (record r { counter = next_cursor r.counter }) h

  pub log_all-IsRing : (es : List E) (r : RingBuffer E) → IsRing r → IsRing (log_all es r)
  unfolding log_all
  log_all-IsRing [] r h = h
  log_all-IsRing (e ∷ es) r h = log_all-IsRing es (log e r) (log-IsRing e r h)

  pub new_ring_buffer-IsRing : (z : E) (n : ℤ) → IsRing (new_ring_buffer z n)
  unfolding new_ring_buffer
  new_ring_buffer-IsRing z n = elim (Bool-cases (ltb_ℤ n (pos 1))) [
    | inl small ↦
        rw small (length-replicate 1000 (zero_stored z), omega arith, omega arith, λ h. refl)
    | inr large ↦
        rw large
          (length-replicate (pos_part n) (zero_stored z), ground arith, omega arith, λ h. refl)
  ]

  read-next :
      (z : StoredEvent E) (slots : List (StoredEvent E)) (capacity h n : ℕ)
      → h < capacity
      → read z slots capacity ((h + 1) % capacity) n ≡ read z slots capacity (h + 1) n
  read-next z slots capacity h n lt = elim (Bool-cases (h + 1 == capacity)) [
    | inl last ↦
        let e : h + 1 ≡ capacity = (==_iff (h + 1) capacity).0 last in
        let m : (h + 1) % capacity ≡ 0 = grind arith in
        let e0 : h + 1 ≡ 0 + capacity = omega arith in
        rw m (
          sym
            (ap (λ i. read z slots capacity i n) e0 ∙ read-wrap z slots capacity 0 n (omega arith)))
    | inr inside ↦
        let m : (h + 1) % capacity ≡ h + 1 = grind arith in ap (λ i. read z slots capacity i n) m
  ]

  start_of-free : (r : RingBuffer E) → r.count < r.capacity → start_of r ≡ 0
  unfolding start_of
  start_of-free r lt = let h : (r.count == r.capacity) ≡ false = ground arith in rw h refl

  count-store_free :
      (c : ℕ) (e : E) (r : RingBuffer E) → r.count < r.capacity → (store c e r).count ≡ suc r.count
  unfolding store
  count-store_free c e r lt = ground arith

  start_of-store_free :
      (c : ℕ) (e : E) (r : RingBuffer E)
      → IsRing r
      → r.count < r.capacity
      → start_of (store c e r) ≡ 0
  unfolding store start_of
  start_of-store_free c e r h lt =
      let free : leb r.capacity r.count ≡ false = ground arith in rw free (grind arith)

  store-not_full :
      (z : E) (c : ℕ) (e : E) (r : RingBuffer E)
      → IsRing r
      → r.count < r.capacity
      → contents z (store c e r) ≡ contents z r ++ record { cursor = c; event = e } ∷ []
  unfolding store
  store-not_full z c e r h lt =
      let v : StoredEvent E = record { cursor = c; event = e } in
      let n = r.count in
      let s0 : start_of r ≡ 0 = start_of-free r lt in
      let s1 : start_of (store c e r) ≡ 0 = start_of-store_free c e r h lt in
      let k : (store c e r).count ≡ suc n = count-store_free c e r lt in
      let i : (0 + n) % r.capacity ≡ r.head = grind (arith, h.3 lt) in
      let slots = set r.slots r.head v in
      let g : get_or slots ((0 + n) % r.capacity) (zero_stored z) ≡ v =
        rw i (get_or-set_self r.slots r.head v (zero_stored z) (omega arith)) in
      let o =
        read-set (zero_stored z) r.slots r.capacity 0 n r.head v
          (Clear-below r.head r.capacity 0 n h.1 (omega arith)) in
      rw (s0, s1, k) (read-snoc (zero_stored z) slots r.capacity 0 n ∙ rw (g, o) refl)

  read-turn :
      (z : StoredEvent E) (slots : List (StoredEvent E)) (capacity h n : ℕ) (v : StoredEvent E)
      → h < capacity
      → length slots ≡ capacity
      → suc n ≡ capacity
      → read z (set slots h v) capacity ((h + 1) % capacity) (suc n)
        ≡ drop 1 (read z slots capacity h (suc n)) ++ v ∷ []
  unfolding read
  read-turn z slots capacity h n v lt len full =
      let at : (h + 1 + n) % capacity ≡ h = grind arith in
      let g : get_or (set slots h v) ((h + 1 + n) % capacity) z ≡ v =
        rw at (get_or-set_self slots h v z (omega arith)) in
      let o =
        read-set z slots capacity (h + 1) n h v
          (Clear-round h capacity (h + 1) n lt (omega arith) (omega arith)) in
      read-next z (set slots h v) capacity h (suc n) lt
      ∙ read-snoc z (set slots h v) capacity (h + 1) n
      ∙ rw (g, o) refl

  store-full :
      (z : E) (c : ℕ) (e : E) (r : RingBuffer E)
      → IsRing r
      → r.count ≡ r.capacity
      → contents z (store c e r) ≡ drop 1 (contents z r) ++ record { cursor = c; event = e } ∷ []
  unfolding store start_of
  store-full z c e r h full =
      let v : StoredEvent E = record { cursor = c; event = e } in
      let b : (r.count == r.capacity) ≡ true = ground arith in
      let t : leb r.capacity r.count ≡ true = ground arith in
      let k : r.count ≡ suc (r.count - 1) = omega (arith, h.1, full) in
      rw (t, b)
        (rw k (
          read-turn (zero_stored z) r.slots r.capacity r.head (r.count - 1) v h.1 h.0
            (omega arith)))

  pub length-contents : (z : E) (r : RingBuffer E) → length (contents z r) ≡ r.count
  length-contents z r = length-read (zero_stored z) r.slots r.capacity (start_of r) r.count

  latest-all : (k : ℕ) (xs : List (StoredEvent E)) → length xs ≤ k → latest k xs ≡ xs
  latest-all k xs h = let e : length xs - k ≡ 0 = omega arith in rw e refl

  store-contents :
      (z : E) (c : ℕ) (e : E) (r : RingBuffer E)
      → IsRing r
      → contents z (store c e r)
        ≡ latest r.capacity (contents z r ++ record { cursor = c; event = e } ∷ [])
  store-contents z c e r h =
      let v : StoredEvent E = record { cursor = c; event = e } in
      let n = length-append (contents z r) (v ∷ []) in
      let o = length-contents z r in
      elim (Bool-cases (r.count == r.capacity)) [
        | inl full ↦
            let d : length (contents z r ++ v ∷ []) - r.capacity ≡ 1 = ground arith in
            store-full z c e r h (ground arith)
            ∙ drop-append 1 (contents z r) (v ∷ []) (ground (arith, h.1))
            ∙ sym (ap (λ j. drop j (contents z r ++ v ∷ [])) d)
        | inr free ↦
            store-not_full z c e r h (ground arith)
            ∙ sym (latest-all r.capacity (contents z r ++ v ∷ []) (ground arith))
      ]

  -- After any events, a buffer that is in order holds the latest of what it held and of the events it
  -- was given, at most as many as its capacity, oldest first and each with the next value of the
  -- counter as its cursor.
  pub log_all-latest :
      (z : E) (es : List E) (r : RingBuffer E)
      → IsRing r
      → contents z (log_all es r) ≡ latest r.capacity (contents z r ++ numbered r.counter es)
  unfolding log_all log store read start_of
  log_all-latest z [] r h =
      rw (append-nil (contents z r))
        (sym (latest-all r.capacity (contents z r) (ground (arith, length-contents z r))))
  log_all-latest z (e ∷ es) r h =
      let c = next_cursor r.counter in
      let v : StoredEvent E = record { cursor = c; event = e } in
      let rest = numbered c es in
      log_all-latest z es (log e r) (log-IsRing e r h)
      ∙ ap (λ held. latest r.capacity (held ++ rest))
          (store-contents z c e (record r { counter = c }) h)
      ∙ latest-append r.capacity (contents z r ++ v ∷ []) rest
      ∙ ap (latest r.capacity) (append_assoc (contents z r) (v ∷ []) rest)
