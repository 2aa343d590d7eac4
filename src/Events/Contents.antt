-- ===== src/Events/Contents.antt =====
-- internal/adapters/log/ringbuffer.go: the slots of the buffer hold the latest events in their order.
use vibewarden.Prelude.{
  ℕ, zero, suc, ◌+◌, ◌-◌, ◌%◌, ◌≤◌, ◌<◌, ◌≡◌, ◌≢◌, ◌∙◌, refl, ap, arith, List, [], ◌∷◌, ◌++◌,
  length, get_or, set, drop, length-append, length-drop, drop-drop,
}

-- The last items of a list, at most so many.
abbrev pub latest {ℓ} : {A : Type ℓ} → ℕ → List A → List A
latest k xs = drop (length xs - k) xs

-- The walk does not come by a place.
abbrev Clear : ℕ → ℕ → ℕ → ℕ → Type 0
Clear h capacity i zero = Unit
Clear h capacity i (suc n) = (i % capacity ≢ h) × Clear h capacity (i + 1) n

module _ {ℓ} {A : Type ℓ} where
  pub drop-append : (n : ℕ) (xs ys : List A) → n ≤ length xs → drop n xs ++ ys ≡ drop n (xs ++ ys)
  drop-append zero xs ys h = refl
  drop-append (suc n) [] ys h = ground arith
  drop-append (suc n) (x ∷ xs) ys h = drop-append n xs ys (omega arith)

  pub latest-append : (k : ℕ) (xs ys : List A) → latest k (latest k xs ++ ys) ≡ latest k (xs ++ ys)
  latest-append k xs ys =
      let d = length xs - k in
      let e : d + (length (drop d (xs ++ ys)) - k) ≡ length (xs ++ ys) - k =
        ground (arith, length-drop d (xs ++ ys), length-append xs ys) in
      rw (drop-append d xs ys (omega arith))
        (drop-drop d (length (drop d (xs ++ ys)) - k) (xs ++ ys) ∙ ap (λ j. drop j (xs ++ ys)) e)

  -- What a walk of so many steps around a buffer reads, from a place.
  unfoldable pub read : A → List A → ℕ → ℕ → ℕ → List A
  read z slots capacity i zero = []
  read z slots capacity i (suc n) = get_or slots (i % capacity) z ∷ read z slots capacity (i + 1) n

  pub get_or-set_self :
      (xs : List A) (i : ℕ) (v z : A) → i < length xs → get_or (set xs i v) i z ≡ v
  get_or-set_self [] i v z h = ground arith
  get_or-set_self (x ∷ xs) zero v z h = refl
  get_or-set_self (x ∷ xs) (suc i) v z h = get_or-set_self xs i v z (omega arith)

  get_or-set_ne :
      (xs : List A) (i j : ℕ) (v z : A) → j ≢ i → get_or (set xs i v) j z ≡ get_or xs j z
  get_or-set_ne [] i j v z h = refl
  get_or-set_ne (x ∷ xs) zero zero v z h = absurd (h refl)
  get_or-set_ne (x ∷ xs) zero (suc j) v z h = refl
  get_or-set_ne (x ∷ xs) (suc i) zero v z h = refl
  get_or-set_ne (x ∷ xs) (suc i) (suc j) v z h = get_or-set_ne xs i j v z (λ e. h (ap suc e))

  pub length-read :
      (z : A) (slots : List A) (capacity i n : ℕ) → length (read z slots capacity i n) ≡ n
  unfolding read
  length-read z slots capacity i zero = refl
  length-read z slots capacity i (suc n) = ap suc (length-read z slots capacity (i + 1) n)

  pub read-snoc :
      (z : A) (slots : List A) (capacity i n : ℕ)
      → read z slots capacity i (suc n)
        ≡ read z slots capacity i n ++ get_or slots ((i + n) % capacity) z ∷ []
  unfolding read
  read-snoc z slots capacity i zero = let e : i + 0 ≡ i = omega arith in rw e refl
  read-snoc z slots capacity i (suc n) =
      let e : i + suc n ≡ i + 1 + n = omega arith in
      rw e
        (ap (λ rest. get_or slots (i % capacity) z ∷ rest) (read-snoc z slots capacity (i + 1) n))

  pub read-set :
      (z : A) (slots : List A) (capacity i n h : ℕ) (v : A)
      → Clear h capacity i n
      → read z (set slots h v) capacity i n ≡ read z slots capacity i n
  unfolding read
  read-set z slots capacity i zero h v c = refl
  read-set z slots capacity i (suc n) h v c =
      rw (get_or-set_ne slots h (i % capacity) v z c.0, read-set z slots capacity (i + 1) n h v c.1)
        refl

  pub read-wrap :
      (z : A) (slots : List A) (capacity i n : ℕ)
      → 0 < capacity
      → read z slots capacity (i + capacity) n ≡ read z slots capacity i n
  unfolding read
  read-wrap z slots capacity i zero h = refl
  read-wrap z slots capacity i (suc n) h =
      let e : i + capacity + 1 ≡ i + 1 + capacity = omega arith in
      let m : (i + capacity) % capacity ≡ i % capacity = grind arith in
      rw (e, m, read-wrap z slots capacity (i + 1) n h) refl

pub Clear-below : (h capacity i n : ℕ) → h < capacity → i + n ≤ h → Clear h capacity i n
Clear-below h capacity i zero lt le = tt
Clear-below h capacity i (suc n) lt le =
    (λ e. grind arith, Clear-below h capacity (i + 1) n lt (omega arith))

pub Clear-round :
    (h capacity i n : ℕ) → h < capacity → h < i → i + n ≤ h + capacity → Clear h capacity i n
Clear-round h capacity i zero lt gt le = tt
Clear-round h capacity i (suc n) lt gt le =
    (λ e. grind arith, Clear-round h capacity (i + 1) n lt (omega arith) (omega arith))
