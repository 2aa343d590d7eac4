-- ===== src/Webhook/Stripe.antt =====
-- internal/domain/webhook/verify.go: what the parser finds in a Stripe-Signature header.
use vibewarden.Prelude.{
  ◌≡◌, ◌≢◌, ◌↔◌, ◌⊎◌, ◌∙◌, inl, inr, refl, sym, ap, arith, false, List, [], ◌∷◌, ◌++◌, Option, none,
  some, All, Any, Bool-cases, Option-cases,
}
use mathlib.Core.Path.{subst}
use vibewarden.Prelude.Text.{
  Text, text_of, text_eq, text_eq_iff, has_prefix, drop_prefix, has_prefix-append,
  has_prefix-drop_prefix,
}
use vibewarden.Prelude.Split.{cut, cut-append, cut_inv}
use vibewarden.Webhook.{add_field, add_fields}

-- No later field gives a timestamp.
abbrev NoTimestamp : List Text → Type 0
NoTimestamp = All (λ part. has_prefix (text_of "t=") part ≡ false)

-- The last of the fields that give a timestamp gives this one.
abbrev pub LastTimestamp : List Text → Text → Type 0
LastTimestamp parts timestamp =
    (before : List Text) × (after : List Text) × (parts
      ≡ before ++ (text_of "t=" ++ timestamp) ∷ after)
    × NoTimestamp after

Any-snoc :
    (c v : Text) (xs : List Text)
    → Any (λ s. s ≡ c) (xs ++ v ∷ []) ↔ (Any (λ s. s ≡ c) xs ⊎ (v ≡ c))
Any-snoc c v [] = ground arith
Any-snoc c v (x ∷ xs) = ground (arith, Any-snoc c v xs)

cut-t : (t : Text) → cut b'=' (text_of "t=" ++ t) ≡ some (text_of "t", t)
cut-t t = cut-append b'=' (text_of "t") t (ground arith)

cut-v1_iff :
    (part v : Text) → (cut b'=' part ≡ some (text_of "v1", v)) ↔ (part ≡ text_of "v1=" ++ v)
cut-v1_iff part v = (
  λ h. cut_inv b'=' part (text_of "v1") v h,
  λ e. ap (cut b'=') e ∙ cut-append b'=' (text_of "v1") v (ground arith),
)

add_field-t :
    (t : Text) (found : Text × List Text) → (add_field (cut b'=' (text_of "t=" ++ t)) found).0 ≡ t
unfolding add_field text_eq
add_field-t t found = rw (cut-t t) refl

add_field-other :
    (part : Text) (found : Text × List Text)
    → has_prefix (text_of "t=") part ≡ false
    → (add_field (cut b'=' part) found).0 ≡ found.0
unfolding add_field
add_field-other part found h = elim (Option-cases (cut b'=' part)) [
  | inl e ↦ rw e refl
  | inr ((k, v), e) ↦ elim (Bool-cases (text_eq k (text_of "t"))) [
    | inl t ↦
        let q : part ≡ text_of "t=" ++ v =
          cut_inv b'=' part k v e
          ∙ ap (λ key. key ++ b'=' ∷ v) ((text_eq_iff k (text_of "t")).0 t) in
        cc (h, ap (has_prefix (text_of "t=")) q ∙ has_prefix-append (text_of "t=") v)
    | inr t ↦ rw (e, t) (ground arith)
  ]
]

add_field-signed_iff :
    (o : Option (Text × Text)) (found : Text × List Text) (c : Text)
    → Any (λ s. s ≡ c) (add_field o found).1
      ↔ (Any (λ s. s ≡ c) found.1 ⊎ (o ≡ some (text_of "v1", c)))
unfolding add_field
add_field-signed_iff none found c = ground arith
add_field-signed_iff (some (k, v)) (t, ss) c =
    ground (arith, text_eq_iff k (text_of "t"), text_eq_iff k (text_of "v1"), Any-snoc c v ss)

pub add_fields-signed_iff :
    (parts : List Text) (found : Text × List Text) (c : Text)
    → Any (λ s. s ≡ c) (add_fields parts found).1
      ↔ (Any (λ s. s ≡ c) found.1 ⊎ Any (λ part. part ≡ text_of "v1=" ++ c) parts)
unfolding add_fields
add_fields-signed_iff [] found c = ground arith
add_fields-signed_iff (part ∷ parts) found c = ground (
  arith,
  add_fields-signed_iff parts (add_field (cut b'=' part) found) c,
  add_field-signed_iff (cut b'=' part) found c,
  cut-v1_iff part c,
)

add_fields-kept :
    (parts : List Text) (found : Text × List Text)
    → NoTimestamp parts
    → (add_fields parts found).0 ≡ found.0
unfolding add_fields
add_fields-kept [] found h = refl
add_fields-kept (part ∷ parts) found h =
    add_fields-kept parts (add_field (cut b'=' part) found) h.1 ∙ add_field-other part found h.0

add_fields-last :
    (before after : List Text) (t : Text) (found : Text × List Text)
    → NoTimestamp after
    → (add_fields (before ++ (text_of "t=" ++ t) ∷ after) found).0 ≡ t
unfolding add_fields
add_fields-last [] after t found h =
    add_fields-kept after (add_field (cut b'=' (text_of "t=" ++ t)) found) h ∙ add_field-t t found
add_fields-last (part ∷ before) after t found h =
    add_fields-last before after t (add_field (cut b'=' part) found) h

-- A field that gives a timestamp, or none does.
last-cases : (parts : List Text) → NoTimestamp parts ⊎ ((t : Text) × LastTimestamp parts t)
last-cases [] = inl tt
last-cases (part ∷ parts) = elim (last-cases parts) [
  | inr (t, (before, after, e, h)) ↦ inr (t, (part ∷ before, after, ap (λ rest. part ∷ rest) e, h))
  | inl h ↦ elim (Bool-cases (has_prefix (text_of "t=") part)) [
    | inl e ↦
        let t = drop_prefix (text_of "t=") part in
        inr (
          t,
          ([], parts, ap (λ p. p ∷ parts) (sym (has_prefix-drop_prefix (text_of "t=") part e)), h),
        )
    | inr e ↦ inl (e, h)
  ]
]

pub add_fields-timestamp_iff :
    (parts : List Text) (ss : List Text) (t : Text)
    → t ≢ []
    → ((add_fields parts ([], ss)).0 ≡ t) ↔ LastTimestamp parts t
add_fields-timestamp_iff parts ss t ne = (
  λ e. elim (last-cases parts) [
    | inl h ↦ absurd (ne (sym e ∙ add_fields-kept parts ([], ss) h))
    | inr (u, (before, after, q, h)) ↦
        let same : u ≡ t =
          sym (add_fields-last before after u ([], ss) h)
          ∙ ap (λ ps. (add_fields ps ([], ss)).0) (sym q)
          ∙ e in
        subst (LastTimestamp parts) same (before, after, q, h)
  ],
  λ (before, after, q, h). rw q (add_fields-last before after t ([], ss) h),
)
