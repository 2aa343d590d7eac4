-- ===== src/Events/RingBuffer.antt =====
-- internal/adapters/log/ringbuffer.go: the buffer of the latest events for the admin endpoint. The type
-- of the events, their zero value and the name of their type are parameters. A call takes its cursor
-- from an atomic counter before it takes the mutex that guards the slots; here calls follow one another.
use vibewarden.Prelude.{
  ℕ, zero, suc, ◌+◌, ◌-◌, ◌%◌, ◌^◌, ◌==◌, leb, Bool, true, not, ◌&&◌, List, [], ◌∷◌, get_or, set,
  replicate, some_of, if◌then◌else◌,
}
use vibewarden.Prelude.Int.{ℤ, pos, pos_part, ltb_ℤ}
use vibewarden.Prelude.Text.{Text, text_eq, trim_space}

abbrev default_ring_buffer_capacity : ℕ
default_ring_buffer_capacity = 1000

pub record StoredEvent (E : Type 0) : Type 0 where
  pub cursor : ℕ
  pub event : E

pub record RingBuffer (E : Type 0) : Type 0 where
  pub slots : List (StoredEvent E)
  pub capacity : ℕ
  pub head : ℕ
  pub count : ℕ
  pub counter : ℕ

-- The next value of the 64-bit counter.
unfoldable pub next_cursor : ℕ → ℕ
next_cursor counter = (counter + 1) % 2 ^ 64

-- The names to filter by; no name is no filter.
unfoldable pub build_type_set : List Text → List Text
build_type_set [] = []
build_type_set (t ∷ types) =
    let rest = build_type_set types in
    let name = trim_space t in if text_eq name [] then rest else name ∷ rest

unfoldable pub in_type_set : List Text → Text → Bool
in_type_set [] name = true
in_type_set (t ∷ types) name = some_of (text_eq name) (t ∷ types)

unfoldable pub at_least_one : ℤ → ℕ
at_least_one n = if ltb_ℤ n (pos 1) then 1 else pos_part n

module _ {E : Type 0} (zero_event : E) where
  abbrev pub zero_stored : StoredEvent E
  zero_stored = record { cursor = 0; event = zero_event }

  unfoldable pub new_ring_buffer : ℤ → RingBuffer E
  new_ring_buffer capacity =
      let size =
        if ltb_ℤ capacity (pos 1) then default_ring_buffer_capacity else pos_part capacity in
      record {
        slots = replicate size zero_stored;
        capacity = size;
        head = 0;
        count = 0;
        counter = 0;
      }

module _ {E : Type 0} where
  unfoldable pub store : ℕ → E → RingBuffer E → RingBuffer E
  store cursor event r = record r {
    slots = set r.slots r.head (record { cursor = cursor; event = event });
    head = (r.head + 1) % r.capacity;
    count = if leb r.capacity r.count then r.count else r.count + 1;
  }

  unfoldable pub log : E → RingBuffer E → RingBuffer E
  unfolding store next_cursor
  log event r =
      let cursor = next_cursor r.counter in store cursor event (record r { counter = cursor })

  unfoldable pub log_all : List E → RingBuffer E → RingBuffer E
  log_all [] r = r
  log_all (e ∷ es) r = log_all es (log e r)

unfoldable pub start_of : {E : Type 0} → RingBuffer E → ℕ
start_of r = if r.count == r.capacity then r.head else 0

unfoldable pub passes : {E : Type 0} → (E → Text) → ℕ → List Text → StoredEvent E → Bool
passes type_of since types se = not (leb se.cursor since) && in_type_set types (type_of se.event)

unfoldable pub last_cursor : {E : Type 0} → ℕ → List (StoredEvent E) → ℕ
last_cursor since [] = since
last_cursor since (se ∷ result) = last_cursor se.cursor result

module _ {E : Type 0} (zero_event : E) (type_of : E → Text) where
  -- The loop of Query, with the rounds that are left and the places that are free in the result.
  unfoldable pub query_from :
      List (StoredEvent E) → ℕ → ℕ → List Text → ℕ → ℕ → ℕ → List (StoredEvent E)
  unfolding passes
  query_from slots capacity since types i zero free = []
  query_from slots capacity since types i (suc rounds) free =
      let se = get_or slots (i % capacity) (record { cursor = 0; event = zero_event }) in
      let skipped = query_from slots capacity since types (i + 1) rounds free in
      let more = query_from slots capacity since types (i + 1) rounds (free - 1) in
      if passes type_of since types se then (if free == 1 then se ∷ [] else se ∷ more) else skipped

  unfoldable pub query : ℕ → List Text → ℤ → RingBuffer E → List (StoredEvent E) × ℕ
  unfolding query_from build_type_set at_least_one start_of last_cursor
  query since types limit r =
      let result =
        query_from r.slots r.capacity since (build_type_set types) (start_of r) r.count
          (at_least_one limit) in
      (result, last_cursor since result)
