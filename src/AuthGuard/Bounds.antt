-- ===== src/AuthGuard/Bounds.antt =====
-- internal/adapters/authguard/memory_guard.go: the number of tracked keys stays within the maximum.
use vibewarden.Prelude.{
  ℕ, ◌≤◌, ◌≡◌, ◌≢◌, ◌⊎◌, inl, inr, refl, arith, String, str_eq, eq_iff, List, [], ◌∷◌, All, length,
  Bool, not, ◌||◌, some, ok, Bool-cases, Option-cases, ltb, if◌then◌else◌,
}
use vibewarden.Prelude.Dict.{
  Dict, lookup, insert, delete, length-insert-le, length-insert_old, length-delete-le,
  length-delete-lt,
}
use vibewarden.Prelude.Int.{ℤ, pos, ◌<ℤ◌, ◌≤ℤ◌}
use vibewarden.AuthGuard.{Policy}
use vibewarden.AuthGuard.Memory.{
  Entry, MemoryGuard, new_memory_guard, sweep_idle, oldest_from, make_room, status,
  record_key_failure, record_key_success, Call, status_call, failure_call, success_call, perform,
  perform_all,
}

abbrev pub HasKey : String × Entry → Type 0
HasKey kv = kv.0 ≢ ""

sweep_idle-HasKey :
    (now : ℕ) (p : Policy) (m : Dict Entry) → All HasKey m → All HasKey (sweep_idle now p m)
unfolding sweep_idle
sweep_idle-HasKey now p [] h = tt
sweep_idle-HasKey now p ((k, e) ∷ m) (h, hs) = ground (arith, sweep_idle-HasKey now p m hs)

delete-HasKey : (k : String) (m : Dict Entry) → All HasKey m → All HasKey (delete k m)
unfolding delete
delete-HasKey k [] h = tt
delete-HasKey k ((j, e) ∷ m) (h, hs) = ground (arith, delete-HasKey k m hs)

insert-HasKey :
    (k : String) (e : Entry) (m : Dict Entry) → k ≢ "" → All HasKey m → All HasKey (insert k e m)
unfolding insert
insert-HasKey k e [] h hs = (h, tt)
insert-HasKey k e ((j, f) ∷ m) h (p, hs) = ground (arith, insert-HasKey k e m h hs)

length-sweep_idle-le :
    (now : ℕ) (p : Policy) (m : Dict Entry) → length (sweep_idle now p m) ≤ length m
unfolding sweep_idle
length-sweep_idle-le now p [] = omega arith
length-sweep_idle-le now p ((k, e) ∷ m) = ground (arith, length-sweep_idle-le now p m)

oldest_from-ne :
    (key : String) (seen : ℕ) (m : Dict Entry)
    → key ≢ ""
    → All HasKey m
    → oldest_from key seen m ≢ ""
unfolding oldest_from
oldest_from-ne key seen [] h hs = h
oldest_from-ne key seen ((k, e) ∷ m) h (p, hs) = elim (Bool-cases older) [
  | inl x ↦ rw x (oldest_from-ne k e.last_seen m p hs)
  | inr x ↦ rw x (oldest_from-ne key seen m h hs)
]
  where
    older : Bool
    older = str_eq key "" || ltb e.last_seen seen

abbrev pub Has : String → Dict Entry → Type 0
Has k m = (e : Entry) × (lookup k m ≡ some e)

Has-head : (k : String) (e : Entry) (m : Dict Entry) → Has k ((k, e) ∷ m)
unfolding lookup
Has-head k e m = (e, ground (arith, eq_iff k k))

Has-tail : (k j : String) (e : Entry) (m : Dict Entry) → Has k m → Has k ((j, e) ∷ m)
unfolding lookup
Has-tail k j e m (f, h) = elim (Bool-cases (str_eq j k)) [ inl x ↦ (e, rw x) | inr x ↦ (f, rw x h) ]

-- The loop ends with the key that it began with, or with one of the map.
oldest_from-Has :
    (key : String) (seen : ℕ) (m : Dict Entry)
    → (oldest_from key seen m ≡ key) ⊎ Has (oldest_from key seen m) m
unfolding oldest_from
oldest_from-Has key seen [] = inl refl
oldest_from-Has key seen ((k, e) ∷ m) = elim (Bool-cases older) [
  | inl x ↦ rw x (elim (oldest_from-Has k e.last_seen m) [
    | inl same ↦ inr (rw same (Has-head k e m))
    | inr has ↦ inr (Has-tail _ k e m has)
  ])
  | inr x ↦ rw x (elim (oldest_from-Has key seen m) [
    | inl same ↦ inl same
    | inr has ↦ inr (Has-tail _ k e m has)
  ])
]
  where
    older : Bool
    older = str_eq key "" || ltb e.last_seen seen

-- From the empty key the loop finds an entry, if there is one.
oldest_from-found :
    (k : String) (e : Entry) (m : Dict Entry)
    → All HasKey ((k, e) ∷ m)
    → let oldest = oldest_from "" 0 ((k, e) ∷ m) in (oldest ≢ "") × Has oldest ((k, e) ∷ m)
unfolding oldest_from
oldest_from-found k e m (h, hs) = (
  oldest_from-ne k e.last_seen m h hs,
  elim (oldest_from-Has k e.last_seen m) [
    | inl same ↦ rw same (Has-head k e m)
    | inr has ↦ Has-tail _ k e m has
  ],
)

length-evict :
    (m : Dict Entry) (max : ℤ)
    → pos 0 <ℤ max
    → pos (length m) ≤ℤ max
    → All HasKey m
    → let oldest = oldest_from "" 0 m in
      pos (length (if not (str_eq oldest "") then delete oldest m else m)) <ℤ max
length-evict [] max h le hs = ground (arith, length-delete-le {V = Entry} (oldest_from "" 0 []) [])
length-evict ((k, e) ∷ m) max h le hs =
    let (ne, f, has) = found in
    ground (
      arith,
      eq_iff (oldest_from "" 0 ((k, e) ∷ m)) "",
      length-delete-lt (oldest_from "" 0 ((k, e) ∷ m)) f ((k, e) ∷ m) has,
    )
  where
    found :
        (oldest_from "" 0 ((k, e) ∷ m) ≢ "")
        × (f : Entry) × (lookup (oldest_from "" 0 ((k, e) ∷ m)) ((k, e) ∷ m) ≡ some f)
    found = let (a, (b, c)) = oldest_from-found k e m hs in (a, b, c)

length-make_room :
    (now : ℕ) (max : ℤ) (p : Policy) (m : Dict Entry)
    → pos 0 <ℤ max
    → pos (length m) ≤ℤ max
    → All HasKey m
    → pos (length (make_room now max p m)) <ℤ max
unfolding make_room
length-make_room now max p m h le hs = ground (
  arith,
  length-evict (sweep_idle now p m) max h (omega (arith, length-sweep_idle-le now p m))
      (sweep_idle-HasKey now p m hs),
)

make_room-HasKey :
    (now : ℕ) (max : ℤ) (p : Policy) (m : Dict Entry)
    → All HasKey m
    → All HasKey (make_room now max p m)
unfolding make_room
make_room-HasKey now max p m hs = ground (
  arith,
  sweep_idle-HasKey now p m hs,
  delete-HasKey (oldest_from "" 0 (sweep_idle now p m)) (sweep_idle now p m),
)

pub record IsBounded (g : MemoryGuard) : Type 0 where
  pub max_pos : pos 0 <ℤ g.max_entries
  pub within : pos (length g.entries) ≤ℤ g.max_entries
  pub keyed : All HasKey g.entries

new-IsBounded :
    (p : Policy) (max : ℤ) {g : MemoryGuard} → new_memory_guard p max ≡ ok g → IsBounded g
unfolding new_memory_guard
new-IsBounded p max h = ground arith

length-insert_room :
    (key : String) (e : Entry) (m : Dict Entry) (max : ℤ)
    → pos (length m) <ℤ max
    → pos (length (insert key e m)) ≤ℤ max
length-insert_room key e m max h = omega (arith, length-insert-le key e m)

put-IsBounded :
    (g : MemoryGuard) (key : String) (e : Entry) (m : Dict Entry)
    → IsBounded g
    → key ≢ ""
    → pos (length (insert key e m)) ≤ℤ g.max_entries
    → All HasKey m
    → IsBounded (record g { entries = insert key e m })
put-IsBounded g key e m b ne le hs = record {
  max_pos = b.max_pos;
  within = le;
  keyed = insert-HasKey key e m ne hs;
}

status-IsBounded :
    (now : ℕ) (key : String) (g : MemoryGuard) → IsBounded g → IsBounded (status now key g).0
unfolding status
status-IsBounded now key g b = elim (Bool-cases (str_eq key "")) [
  | inl x ↦ rw x b
  | inr x ↦ elim (Option-cases (lookup key g.entries)) [
    | inl no_entry ↦ rw (x, no_entry) b
    | inr (e, has) ↦
        rw (x, has)
          (put-IsBounded g key _ g.entries b (ground (arith, eq_iff key ""))
            (rw (length-insert_old key _ e g.entries has) b.within) b.keyed)
  ]
]

failure-IsBounded :
    (now : ℕ) (key : String) (g : MemoryGuard)
    → IsBounded g
    → IsBounded (record_key_failure now key g).0
unfolding record_key_failure
failure-IsBounded now key g b = elim (Bool-cases (str_eq key "")) [
  | inl x ↦ rw x b
  | inr x ↦ elim (Option-cases (lookup key g.entries)) [
    | inl no_entry ↦
        rw (x, no_entry)
          (put-IsBounded g key _ (make_room now g.max_entries g.policy g.entries) b
            (ground (arith, eq_iff key ""))
            (length-insert_room key _ _ g.max_entries
              (length-make_room now g.max_entries g.policy g.entries b.max_pos b.within b.keyed))
            (make_room-HasKey now g.max_entries g.policy g.entries b.keyed))
    | inr (e, has) ↦
        rw (x, has)
          (put-IsBounded g key _ g.entries b (ground (arith, eq_iff key ""))
            (rw (length-insert_old key _ e g.entries has) b.within) b.keyed)
  ]
]

success-IsBounded :
    (key : String) (g : MemoryGuard) → IsBounded g → IsBounded (record_key_success key g)
unfolding record_key_success
success-IsBounded key g b =
    ground (arith, length-delete-le key g.entries, delete-HasKey key g.entries b.keyed)

perform-IsBounded : (c : Call) (g : MemoryGuard) → IsBounded g → IsBounded (perform c g)
unfolding perform
perform-IsBounded (status_call now key) g b = status-IsBounded now key g b
perform-IsBounded (failure_call now key) g b = failure-IsBounded now key g b
perform-IsBounded (success_call key) g b = success-IsBounded key g b

perform_all-IsBounded_from :
    (cs : List Call) (g : MemoryGuard) → IsBounded g → IsBounded (perform_all cs g)
unfolding perform_all
perform_all-IsBounded_from [] g b = b
perform_all-IsBounded_from (c ∷ cs) g b =
    perform_all-IsBounded_from cs (perform c g) (perform-IsBounded c g b)

-- However many keys fail, and in whatever order the map is traversed, a guard never tracks more
-- keys than its maximum, and never tracks the empty key.
pub perform_all-IsBounded :
    (p : Policy) (max : ℤ) (cs : List Call) {g : MemoryGuard}
    → new_memory_guard p max ≡ ok g
    → IsBounded (perform_all cs g)
perform_all-IsBounded p max cs {g} h = perform_all-IsBounded_from cs g (new-IsBounded p max h)
