-- ===== src/Prelude/Dict.antt =====
-- A Go map with string keys, as an association list. The order of the list is the order in which a
-- `range` loop meets the entries: Go leaves it open, and so does whatever is proved of every list.
use Prim.Native.Nat.{◌+◌, ◌≤◌, ◌<◌}
use Prim.Native.String.{String}
use mathlib.Core.Path.{◌≡◌, refl}
use mathlib.Core.Option.{Option, none, some}
use mathlib.Core.List.{List, [], ◌∷◌}
use native.Mathlib.Omega.{arith}
use text.Mathlib.Text.{◌==◌ as str_eq}
use text.Mathlib.TextEquality.{eq_iff}
use text.Mathlib.TextPositions.{eq_refl}
use vibewarden.Prelude.Tests.{if◌then◌else◌}
use vibewarden.Prelude.Lists.{length}

abbrev pub Dict {ℓ} : Type ℓ → Type ℓ
Dict V = List (String × V)

module _ {ℓ} {V : Type ℓ} where
  -- `delete(m, key)`.
  unfoldable pub delete : String → Dict V → Dict V
  delete key [] = []
  delete key ((k, old) ∷ rest) =
      let kept = delete key rest in if str_eq k key then kept else (k, old) ∷ kept

  -- `v, ok := m[key]`.
  unfoldable pub lookup : String → Dict V → Option V
  lookup key [] = none
  lookup key ((k, old) ∷ rest) =
      let found = lookup key rest in if str_eq k key then some old else found

  -- `m[key] = v`: a key that is present keeps its place, a new one comes last.
  unfoldable pub insert : String → V → Dict V → Dict V
  insert key new [] = (key, new) ∷ []
  insert key new ((k, old) ∷ rest) =
      let changed = insert key new rest in
      if str_eq k key then (key, new) ∷ rest else (k, old) ∷ changed

  pub lookup-delete :
      (key other : String) (m : Dict V)
      → lookup other (delete key m) ≡ (if str_eq key other then none else lookup other m)
  unfolding lookup delete
  lookup-delete key other [] = ground arith
  lookup-delete key other ((k, old) ∷ rest) =
      ground (arith, lookup-delete key other rest, eq_iff k key, eq_iff k other, eq_iff key other)

  pub lookup-insert :
      (key other : String) (new : V) (m : Dict V)
      → lookup other (insert key new m) ≡ (if str_eq key other then some new else lookup other m)
  unfolding lookup insert
  lookup-insert key other new [] = ground arith
  lookup-insert key other new ((k, old) ∷ rest) =
      ground
        (arith, lookup-insert key other new rest, eq_iff k key, eq_iff k other, eq_iff key other)

  pub lookup-insert_self :
      (key : String) (new : V) (m : Dict V) → lookup key (insert key new m) ≡ some new
  lookup-insert_self key new m = ground (arith, lookup-insert key key new m, eq_refl key)

  pub length-insert_new :
      (key : String) (new : V) (m : Dict V)
      → lookup key m ≡ none
      → length (insert key new m) ≡ length m + 1
  unfolding lookup insert
  length-insert_new key new [] h = omega arith
  length-insert_new key new ((k, old) ∷ rest) h = ground (arith, length-insert_new key new rest)

  pub length-insert_old :
      (key : String) (new old : V) (m : Dict V)
      → lookup key m ≡ some old
      → length (insert key new m) ≡ length m
  unfolding lookup insert
  length-insert_old key new old [] h = ground arith
  length-insert_old key new old ((k, first) ∷ rest) h =
      ground (arith, length-insert_old key new old rest)

  pub length-insert-le :
      (key : String) (new : V) (m : Dict V) → length (insert key new m) ≤ length m + 1
  unfolding insert
  length-insert-le key new [] = omega arith
  length-insert-le key new ((k, old) ∷ rest) = ground (arith, length-insert-le key new rest)

  pub length-delete-le : (key : String) (m : Dict V) → length (delete key m) ≤ length m
  unfolding delete
  length-delete-le key [] = omega arith
  length-delete-le key ((k, old) ∷ rest) = ground (arith, length-delete-le key rest)

  pub length-delete-lt :
      (key : String) (old : V) (m : Dict V)
      → lookup key m ≡ some old
      → length (delete key m) < length m
  unfolding lookup delete
  length-delete-lt key old [] h = ground arith
  length-delete-lt key old ((k, first) ∷ rest) h =
      ground (arith, length-delete-le key rest, length-delete-lt key old rest)

  pub lookup-delete_self : (key : String) (m : Dict V) → lookup key (delete key m) ≡ none
  unfolding lookup delete
  lookup-delete_self key [] = refl
  lookup-delete_self key ((k, v) ∷ m) = ground (arith, lookup-delete_self key m)

  pub delete-absent : (key : String) (m : Dict V) → lookup key m ≡ none → delete key m ≡ m
  unfolding lookup delete
  delete-absent key [] h = refl
  delete-absent key ((k, v) ∷ m) h = ground (arith, delete-absent key m)

  pub delete-insert_new :
      (key : String) (new : V) (m : Dict V)
      → lookup key m ≡ none
      → delete key (insert key new m) ≡ m
  unfolding lookup delete insert
  delete-insert_new key new [] h = ground (arith, eq_refl key)
  delete-insert_new key new ((k, v) ∷ m) h =
      ground (arith, eq_refl key, delete-absent key m, delete-insert_new key new m)

  pub insert-insert_old :
      (key : String) (old new : V) (m : Dict V)
      → lookup key m ≡ some old
      → insert key old (insert key new m) ≡ m
  unfolding lookup insert
  insert-insert_old key old new [] h = ground arith
  insert-insert_old key old new ((k, v) ∷ m) h =
      ground (arith, eq_refl key, eq_iff k key, insert-insert_old key old new m)

  pub delete-insert :
      (key : String) (new : V) (m : Dict V) → delete key (insert key new m) ≡ delete key m
  unfolding insert delete
  delete-insert key new [] = ground (arith, eq_refl key)
  delete-insert key new ((k, old) ∷ m) =
      ground (arith, eq_refl key, eq_iff k key, delete-insert key new m)
