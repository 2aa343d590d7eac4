-- ===== src/AuthGuard/Isolation.antt =====
-- internal/adapters/authguard/memory_guard.go: a key that trips is locked out for its cooldown, and
-- calls about one key leave the others alone while there is room.
use vibewarden.Prelude.{
  ℕ, ◌-◌, ◌<◌, ◌≤◌, ◌≡◌, ◌≢◌, ◌⊎◌, inl, inr, refl, arith, String, str_eq, eq_iff, length, true,
  false, none, some, Bool-cases, Option-cases,
}
use vibewarden.Prelude.Dict.{Dict, lookup, insert, lookup-insert, lookup-insert_self, lookup-delete}
use vibewarden.Prelude.Int.{pos, ◌<ℤ◌, add_duration}
use vibewarden.AuthGuard.{Attempts, no_attempts, record_failure, locked_out}
use vibewarden.AuthGuard.Lockout.{IsUsable, tripped-locked_out}
use vibewarden.AuthGuard.Memory.{
  Entry, MemoryGuard, make_room, status, record_key_failure, Call, status_call, failure_call,
  success_call, perform,
}

abbrev key_of : Call → String
key_of (status_call now key) = key
key_of (failure_call now key) = key
key_of (success_call key) = key

-- A failure of a key that is not tracked needs a free place.
abbrev pub HasRoom : Call → MemoryGuard → Type 0
HasRoom (failure_call now key) g =
    (lookup key g.entries ≢ none) ⊎ (pos (length g.entries) <ℤ g.max_entries)
HasRoom _ g = Unit

lookup-insert_ne :
    (k j : String) (e : Entry) (m : Dict Entry) → k ≢ j → lookup j (insert k e m) ≡ lookup j m
lookup-insert_ne k j e m ne = ground (arith, lookup-insert k j e m, eq_iff k j)

make_room_free :
    (now : ℕ) (g : MemoryGuard)
    → pos (length g.entries) <ℤ g.max_entries
    → make_room now g.max_entries g.policy g.entries ≡ g.entries
unfolding make_room
make_room_free now g h = ground arith

status-isolated :
    (now : ℕ) (key j : String) (g : MemoryGuard)
    → key ≢ j
    → lookup j (status now key g).0.entries ≡ lookup j g.entries
unfolding status
status-isolated now key j g ne = elim (Bool-cases (str_eq key "")) [
  | inl x ↦ rw (x, status)
  | inr x ↦ elim (Option-cases (lookup key g.entries)) [
    | inl no_entry ↦ rw (x, status, no_entry)
    | inr (e, has) ↦ rw (x, status, has) (lookup-insert_ne key j _ g.entries ne)
  ]
]

failure-isolated :
    (now : ℕ) (key j : String) (g : MemoryGuard)
    → key ≢ j
    → HasRoom (failure_call now key) g
    → lookup j (record_key_failure now key g).0.entries ≡ lookup j g.entries
unfolding record_key_failure
failure-isolated now key j g ne room = elim (Bool-cases (str_eq key "")) [
  | inl x ↦ rw (x, record_key_failure)
  | inr x ↦ elim (Option-cases (lookup key g.entries)) [
    | inl no_entry ↦ elim room [
      | inl tracked ↦ absurd (tracked no_entry)
      | inr free ↦
          rw (x, record_key_failure, no_entry, make_room_free now g free)
            (lookup-insert_ne key j _ g.entries ne)
    ]
    | inr (e, has) ↦ rw (x, record_key_failure, has) (lookup-insert_ne key j _ g.entries ne)
  ]
]

-- A call about one key leaves the entry of every other key as it is, if the key is tracked already
-- or there is room for it.
pub perform-isolated :
    (c : Call) (g : MemoryGuard) (j : String)
    → key_of c ≢ j
    → HasRoom c g
    → lookup j (perform c g).entries ≡ lookup j g.entries
unfolding perform
perform-isolated (status_call now key) g j ne room = status-isolated now key j g ne
perform-isolated (failure_call now key) g j ne room = failure-isolated now key j g ne room
perform-isolated (success_call key) g j ne room =
    ground (arith, lookup-delete key j g.entries, eq_iff key j)

-- What a failure leaves behind that trips the key.
pub tripped-entry :
    (t : ℕ) (key : String) (g : MemoryGuard)
    → IsUsable g.policy
    → (record_key_failure t key g).1.tripped ≡ true
    → (a : Attempts) × (str_eq key "" ≡ false)
      × ((record_failure t g.policy a).1 ≡ true)
      × (lookup key (record_key_failure t key g).0.entries
          ≡ some (record { attempts = (record_failure t g.policy a).0; last_seen = t }))
unfolding record_key_failure
tripped-entry t key g u = elim (Bool-cases (str_eq key "")) [
  | inl x ↦ rw x (λ h. cc)
  | inr x ↦ elim (Option-cases (lookup key g.entries)) [
    | inl no_entry ↦
        rw (x, no_entry)
          (λ h. (
            no_attempts,
            refl,
            h,
            stored no_attempts (make_room t g.max_entries g.policy g.entries) h,
          ))
    | inr (e, has) ↦ rw (x, has) (λ h. (e.attempts, refl, h, stored e.attempts g.entries h))
  ]
]
  where
    stored :
        (a : Attempts) (m : Dict Entry)
        → (record_failure t g.policy a).1 ≡ true
        → lookup key (
            insert key
              (record {
                attempts = (locked_out t (record_failure t g.policy a).0).0;
                last_seen = t;
              })
              m)
          ≡ some (record { attempts = (record_failure t g.policy a).0; last_seen = t })
    stored a m h =
        rw ((tripped-locked_out t t g.policy a u h).0 (omega (arith, u.cooldown_pos)))
          (lookup-insert_self key _ m)

-- A failure that trips a key locks it out: until the cooldown is over, the status of the key reports
-- the lockout with the time that is left; from then on it reports none.
pub tripped-status :
    (t now : ℕ) (key : String) (g : MemoryGuard)
    → IsUsable g.policy
    → (record_key_failure t key g).1.tripped ≡ true
    → let st = (status now key (record_key_failure t key g).0).1 in
      let end = add_duration t g.policy.cooldown in
      (now < end → (st.locked_out ≡ true) × (st.retry_after ≡ end - now))
      × (end ≤ now → (st.locked_out ≡ false) × (st.retry_after ≡ 0))
unfolding status
tripped-status t now key g u h =
    let (a, named, trips, found) = tripped-entry t key g u h in
    let (during, after) = tripped-locked_out t now g.policy a u trips in
    rw (named, status, found) (λ lt. rw (during lt) (refl, refl), λ le. rw (after le) (refl, refl))
