-- ===== src/Webhook/Payload.antt =====
-- internal/domain/webhook/verify.go: what the signature of Twilio covers does not depend on the order in
-- which a range loop meets the parameters.
use mathlib.Core.List.{Permᴰ}
use vibewarden.Prelude.{
  ◌≡◌, ◌∙◌, inl, inr, refl, sym, ap, arith, true, false, List, [], ◌∷◌, ◌++◌, append-nil,
  Bool-cases,
}
use vibewarden.Prelude.Text.{Text}
use vibewarden.Webhook.{
  FormParams, text_lt, insert_sorted, sort_texts, append_params, build_twilio_payload,
}

lt-asym : (s t : Text) → text_lt s t ≡ true → text_lt t s ≡ false
unfolding text_lt
lt-asym [] [] h = ground arith
lt-asym [] (b ∷ t) h = ground arith
lt-asym (a ∷ s) [] h = ground arith
lt-asym (a ∷ s) (b ∷ t) h = ground (arith, lt-asym s t)

lt-antisym : (s t : Text) → text_lt s t ≡ false → text_lt t s ≡ false → s ≡ t
unfolding text_lt
lt-antisym [] [] h k = refl
lt-antisym [] (b ∷ t) h k = ground arith
lt-antisym (a ∷ s) [] h k = ground arith
lt-antisym (a ∷ s) (b ∷ t) h k = ground (arith, lt-antisym s t)

le-lt : (y j x : Text) → text_lt j y ≡ false → text_lt j x ≡ true → text_lt y x ≡ true
unfolding text_lt
le-lt y j [] h k = ground arith
le-lt [] [] (c ∷ x) h k = ground arith
le-lt (b ∷ y) [] (c ∷ x) h k = ground arith
le-lt [] (a ∷ j) (c ∷ x) h k = ground arith
le-lt (b ∷ y) (a ∷ j) (c ∷ x) h k = ground (arith, le-lt y j x)

insert_sorted-nil : (k : Text) → insert_sorted k [] ≡ k ∷ []
unfolding insert_sorted
insert_sorted-nil k = refl

insert_sorted-before :
    (k j : Text) (keys : List Text)
    → text_lt j k ≡ true
    → insert_sorted k (j ∷ keys) ≡ j ∷ insert_sorted k keys
unfolding insert_sorted
insert_sorted-before k j keys h = rw h refl

insert_sorted-here :
    (k j : Text) (keys : List Text)
    → text_lt j k ≡ false
    → insert_sorted k (j ∷ keys) ≡ k ∷ j ∷ keys
unfolding insert_sorted
insert_sorted-here k j keys h = rw h refl

-- Two keys before a tail that starts above both.
insert_sorted-two :
    (x y : Text) (keys : List Text)
    → insert_sorted x keys ≡ x ∷ keys
    → insert_sorted y keys ≡ y ∷ keys
    → insert_sorted x (y ∷ keys) ≡ insert_sorted y (x ∷ keys)
insert_sorted-two x y keys ex ey = elim (Bool-cases (text_lt y x)) [
  | inl h ↦
      insert_sorted-before x y keys h
      ∙ ap (λ rest. y ∷ rest) ex
      ∙ sym (insert_sorted-here y x keys (lt-asym y x h))
  | inr h ↦ elim (Bool-cases (text_lt x y)) [
    | inl k ↦
        insert_sorted-here x y keys h
        ∙ sym (ap (λ rest. x ∷ rest) ey)
        ∙ sym (insert_sorted-before y x keys k)
    | inr k ↦ rw (lt-antisym y x h k) refl
  ]
]

insert_sorted-swap :
    (x y : Text) (keys : List Text)
    → insert_sorted x (insert_sorted y keys) ≡ insert_sorted y (insert_sorted x keys)
insert_sorted-swap x y [] =
    rw (insert_sorted-nil x, insert_sorted-nil y)
      (insert_sorted-two x y [] (insert_sorted-nil x) (insert_sorted-nil y))
insert_sorted-swap x y (j ∷ keys) = elim (Bool-cases (text_lt j x)) [
  | inl h ↦ elim (Bool-cases (text_lt j y)) [
    | inl k ↦
        rw
          (
            insert_sorted-before x j keys h,
            insert_sorted-before y j keys k,
            insert_sorted-before x j (insert_sorted y keys) h,
            insert_sorted-before y j (insert_sorted x keys) k,
          )
          (ap (λ rest. j ∷ rest) (insert_sorted-swap x y keys))
    | inr k ↦
        rw
          (
            insert_sorted-before x j keys h,
            insert_sorted-here y j keys k,
            insert_sorted-before x y (j ∷ keys) (le-lt y j x k h),
            insert_sorted-here y j (insert_sorted x keys) k,
            insert_sorted-before x j keys h,
          )
          refl
  ]
  | inr h ↦ elim (Bool-cases (text_lt j y)) [
    | inl k ↦
        rw
          (
            insert_sorted-before y j keys k,
            insert_sorted-here x j keys h,
            insert_sorted-before y x (j ∷ keys) (le-lt x j y h k),
            insert_sorted-here x j (insert_sorted y keys) h,
            insert_sorted-before y j keys k,
          )
          refl
    | inr k ↦
        rw (insert_sorted-here x j keys h, insert_sorted-here y j keys k)
          (insert_sorted-two x y (j ∷ keys) (insert_sorted-here x j keys h)
            (insert_sorted-here y j keys k))
  ]
]

sort_texts-Perm : {ks js : List Text} → Permᴰ ks js → sort_texts ks ≡ sort_texts js
unfolding sort_texts
sort_texts-Perm Permᴰ.nil = refl
sort_texts-Perm (Permᴰ.cons {a} {b} {l₁} {l₂} e d) = rw (e, sort_texts-Perm d) refl
sort_texts-Perm (Permᴰ.swap {a} {b} {a'} {b'} {l} e f) =
    rw (e, f) (insert_sorted-swap b' a' (sort_texts l))
sort_texts-Perm (Permᴰ.trans d e) = sort_texts-Perm d ∙ sort_texts-Perm e

payload-sorted :
    (full_url : Text) (p : FormParams)
    → build_twilio_payload full_url p ≡ full_url ++ append_params p.get (sort_texts p.keys)
unfolding build_twilio_payload sort_texts append_params
payload-sorted full_url p = go p.keys
  where
    go :
        (keys : List Text)
        → build_twilio_payload full_url (record { keys = keys; get = p.get })
          ≡ full_url ++ append_params p.get (sort_texts keys)
    go [] = sym (append-nil full_url)
    go (k ∷ keys) = refl

-- However the range loop orders the keys of the form, the text that Twilio's signature covers is the
-- same.
pub payload-Perm :
    (full_url : Text) (get : Text → Text) (keys others : List Text)
    → Permᴰ keys others
    → build_twilio_payload full_url (record { keys = keys; get = get })
      ≡ build_twilio_payload full_url (record { keys = others; get = get })
payload-Perm full_url get keys others d =
    payload-sorted full_url (record { keys = keys; get = get })
    ∙ ap (λ sorted. full_url ++ append_params get sorted) (sort_texts-Perm d)
    ∙ sym (payload-sorted full_url (record { keys = others; get = get }))
