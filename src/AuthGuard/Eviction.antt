-- ===== src/AuthGuard/Eviction.antt =====
-- internal/adapters/authguard/memory_guard.go, makeRoomLocked: which entry gives way when the map is
-- full, a lockout included.
use mathlib.Core.Path.{subst}
use vibewarden.Prelude.{
  ℕ, ◌<◌, ◌≡◌, ◌≢◌, ◌⊎◌, inl, inr, refl, arith, String, str_eq, eq_iff, eq_refl, [], ◌∷◌, All,
  length, false, none, some, Bool-cases,
}
use vibewarden.Prelude.Dict.{Dict, lookup, delete, lookup-insert, lookup-delete}
use vibewarden.Prelude.Int.{pos, ◌≤ℤ◌}
use vibewarden.AuthGuard.{Policy, idle}
use vibewarden.AuthGuard.Bounds.{HasKey}
use vibewarden.AuthGuard.Memory.{
  Entry, MemoryGuard, make_room, sweep_idle, oldest_from, status, record_key_failure,
}

-- The entry of `k`, seen at `seen`, or one of another key that was seen later.
abbrev IsLaterThan : String → ℕ → String × Entry → Type 0
IsLaterThan k seen (j, e) = ((j ≡ k) × (e.last_seen ≡ seen)) ⊎ ((j ≢ k) × (seen < e.last_seen))

oldest_kept :
    (k : String) (seen : ℕ) (m : Dict Entry)
    → k ≢ ""
    → All (IsLaterThan k seen) m
    → oldest_from k seen m ≡ k
unfolding oldest_from
oldest_kept k seen [] ne h = refl
oldest_kept k seen ((j, e) ∷ m) ne (h, hs) = ground (arith, eq_iff k "", oldest_kept k seen m ne hs)

oldest_reached :
    (key k : String) (s seen : ℕ) (m : Dict Entry) (e : Entry)
    → k ≢ ""
    → All HasKey m
    → (key ≡ "") ⊎ (seen < s)
    → All (IsLaterThan k seen) m
    → lookup k m ≡ some e
    → oldest_from key s m ≡ k
unfolding oldest_from lookup
oldest_reached key k s seen [] e ne keyed start h found = ground arith
oldest_reached key k s seen ((j, f) ∷ m) e ne (jne, keyed) start (inl (same, at), hs) found =
    ground (arith, eq_iff key "", oldest_kept k seen m ne hs)
oldest_reached key k s seen ((j, f) ∷ m) e ne (jne, keyed) start (inr (other, later), hs) found =
    ground (
      arith,
      eq_iff key "",
      eq_iff j k,
      oldest_reached j k f.last_seen seen m e ne keyed (inr later) hs,
      oldest_reached key k s seen m e ne keyed start hs,
    )

abbrev IsBusy : ℕ → Policy → String × Entry → Type 0
IsBusy now p (k, e) = idle now p e.attempts ≡ false

sweep_busy : (now : ℕ) (p : Policy) (m : Dict Entry) → All (IsBusy now p) m → sweep_idle now p m ≡ m
unfolding sweep_idle
sweep_busy now p [] h = refl
sweep_busy now p ((k, e) ∷ m) (h, hs) = ground (arith, sweep_busy now p m hs)

make_room-full :
    (now : ℕ) (k : String) (e : Entry) (g : MemoryGuard)
    → All HasKey g.entries
    → k ≢ ""
    → lookup k g.entries ≡ some e
    → All (IsLaterThan k e.last_seen) g.entries
    → All (IsBusy now g.policy) g.entries
    → g.max_entries ≤ℤ pos (length g.entries)
    → make_room now g.max_entries g.policy g.entries ≡ delete k g.entries
unfolding make_room
make_room-full now k e g keyed ne found late busy full = ground (
  arith,
  sweep_busy now g.policy g.entries busy,
  oldest_reached "" k 0 e.last_seen g.entries e ne keyed (inl refl) late found,
  eq_iff k "",
)

-- When the map is full and no entry is idle, a failure of a new key drops the entry that was seen
-- least recently, even if that key is locked out, whether or not any other key is: from then on the
-- status of the dropped key reports no lockout and no failure.
full-failure_drops_oldest :
    (now later : ℕ) (new k : String) (e : Entry) (g : MemoryGuard)
    → All HasKey g.entries
    → lookup k g.entries ≡ some e
    → All (IsLaterThan k e.last_seen) g.entries
    → All (IsBusy now g.policy) g.entries
    → g.max_entries ≤ℤ pos (length g.entries)
    → lookup new g.entries ≡ none
    → new ≢ ""
    → k ≢ ""
    → let st = (status later k (record_key_failure now new g).0).1 in
      (st.locked_out ≡ false) × (st.failures ≡ 0)
unfolding status record_key_failure
full-failure_drops_oldest now later new k e g keyed found late busy full fresh new_ne ne =
    rw
      (
        new_named,
        status,
        record_key_failure,
        fresh,
        make_room-full now k e g keyed ne found late busy full,
      )
      (rw (lookup-insert, lookup-delete, status) (rw (named, other, eq_refl k) (refl, refl)))
  where
    new_named : str_eq new "" ≡ false
    new_named = ground (arith, eq_iff new "")

    named : str_eq k "" ≡ false
    named = ground (arith, eq_iff k "")

    other : str_eq new k ≡ false
    other = elim (Bool-cases (str_eq new k)) [
      | inl x ↦ let absent = subst (λ j. lookup j g.entries ≡ none) ((eq_iff new k).0 x) fresh in cc
      | inr x ↦ x
    ]
