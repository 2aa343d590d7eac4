-- ===== src/Egress/CacheLaws.antt =====
-- internal/adapters/egress/cache.go: what the response cache keeps, and what it makes of a body.
use vibewarden.Prelude.{
  ℕ, zero, suc, ◌+◌, ◌<◌, ◌≤◌, ◌≡◌, refl, ap, arith, false, ltb, List, [], ◌∷◌, none, some, length,
  take, length-take, inl, inr, Option-cases, if◌then◌else◌,
}
use vibewarden.Prelude.Int.{ℤ, pos}
use vibewarden.Prelude.Text.{Text, text_eq_iff}
use vibewarden.Egress.Route.{CacheConfig}
use vibewarden.Egress.Cache.{
  CacheEntry, has_key, is_expired, ResponseCache, new_response_cache, find_entry, remove_entry, get,
  drop_back, evict, set, stream, read_body, size_limit, new_cache_entry, cacheable_within,
  cacheable_response,
}

-- Calls on one cache, each with its arguments.
pub data Call : Type 0 where
  get_call : (method url : Text) (now : ℕ) → Call
  set_call : CacheEntry → Call

unfoldable pub perform : Call → ResponseCache → ResponseCache
perform (get_call method url now) c = (get method url now c).0
perform (set_call e) c = set e c

unfoldable pub perform_all : List Call → ResponseCache → ResponseCache
perform_all [] c = c
perform_all (k ∷ ks) c = perform_all ks (perform k c)

length-remove_entry-le :
    (method url : Text) (es : List CacheEntry) → length (remove_entry method url es) ≤ length es
unfolding remove_entry
length-remove_entry-le method url [] = omega arith
length-remove_entry-le method url (e ∷ es) = ground (arith, length-remove_entry-le method url es)

length-remove_entry-lt :
    (method url : Text) (es : List CacheEntry) (found : CacheEntry)
    → find_entry method url es ≡ some found
    → length (remove_entry method url es) < length es
unfolding remove_entry find_entry
length-remove_entry-lt method url [] found h = ground arith
length-remove_entry-lt method url (e ∷ es) found h =
    ground (arith, length-remove_entry-le method url es, length-remove_entry-lt method url es found)

length-drop_back : (e : CacheEntry) (es : List CacheEntry) → length (drop_back (e ∷ es)) ≡ length es
unfolding drop_back
length-drop_back e [] = refl
length-drop_back e (f ∷ es) = ap suc (length-drop_back f es)

length-evict :
    (rounds max_entries : ℕ) (es : List CacheEntry)
    → 0 < max_entries
    → length es ≤ rounds
    → length (evict rounds max_entries es) < max_entries
unfolding evict
length-evict zero m [] h le = h
length-evict zero m (e ∷ es) h le = absurd (omega arith)
length-evict (suc rounds) m [] h le = ground (arith, length-evict rounds m (drop_back []) h)
length-evict (suc rounds) m (e ∷ es) h le =
    ground (arith, length-drop_back e es, length-evict rounds m (drop_back (e ∷ es)) h)

pub record WithinCapacity (c : ResponseCache) : Type 0 where
  pub room : 0 < c.max_entries
  pub within : length c.lru ≤ c.max_entries

find_entry-has_key :
    (method url : Text) (es : List CacheEntry) (found : CacheEntry)
    → find_entry method url es ≡ some found
    → (found.method ≡ method) × (found.url ≡ url)
unfolding find_entry has_key
find_entry-has_key method url [] found h = cc
find_entry-has_key method url (e ∷ es) found h = ground (
  arith,
  text_eq_iff e.method method,
  text_eq_iff e.url url,
  find_entry-has_key method url es found,
)

get-WithinCapacity :
    (method url : Text) (now : ℕ) (c : ResponseCache)
    → WithinCapacity c
    → WithinCapacity (get method url now c).0
unfolding get
get-WithinCapacity method url now c b = elim (Option-cases (find_entry method url c.lru)) [
  | inl absent ↦ rw (absent, get) b
  | inr (e, found) ↦
      let (same_method, same_url) = find_entry-has_key method url c.lru e found in
      let smaller = length-remove_entry-lt method url c.lru e found in
      rw (found, same_method, same_url, get) (ground arith)
]

set-WithinCapacity :
    (e : CacheEntry) (c : ResponseCache) → WithinCapacity c → WithinCapacity (set e c)
unfolding set
set-WithinCapacity e c b = ground (
  arith,
  length-evict (length (remove_entry e.method e.url c.lru)) c.max_entries
      (remove_entry e.method e.url c.lru) b.room (omega arith),
)

perform_all-WithinCapacity_from :
    (ks : List Call) (c : ResponseCache) → WithinCapacity c → WithinCapacity (perform_all ks c)
unfolding perform_all perform
perform_all-WithinCapacity_from [] c b = b
perform_all-WithinCapacity_from (get_call method url now ∷ ks) c b =
    perform_all-WithinCapacity_from ks _ (get-WithinCapacity method url now c b)
perform_all-WithinCapacity_from (set_call e ∷ ks) c b =
    perform_all-WithinCapacity_from ks _ (set-WithinCapacity e c b)

-- Whatever is put into a new cache and read from it, it holds no more entries than its maximum,
-- which is at least 1.
pub perform_all-WithinCapacity :
    (max_entries : ℤ) (ks : List Call)
    → WithinCapacity (perform_all ks (new_response_cache max_entries))
unfolding new_response_cache
perform_all-WithinCapacity max_entries ks = perform_all-WithinCapacity_from ks _ (ground arith)

-- What a cache returns for a key is an entry of that key which has not expired.
pub get_fresh :
    (method url : Text) (now : ℕ) (c : ResponseCache) (e : CacheEntry)
    → (get method url now c).1 ≡ some e
    → (e.method ≡ method) × (e.url ≡ url) × (is_expired now e ≡ false)
unfolding get
get_fresh method url now c e h = elim (Option-cases (find_entry method url c.lru)) [
  | inl absent ↦ ground arith
  | inr (f, found) ↦ ground (arith, find_entry-has_key method url c.lru f found)
]

-- An entry that has been set is returned for its key until it expires, whatever the cache held.
pub get-set :
    (e : CacheEntry) (now : ℕ) (c : ResponseCache)
    → (get e.method e.url now (set e c)).1 ≡ (if is_expired now e then none else some e)
unfolding get set find_entry has_key
get-set e now c = ground (arith, text_eq_iff e.method e.method, text_eq_iff e.url e.url)

remove_entry_absent :
    (method url : Text) (es : List CacheEntry)
    → find_entry method url es ≡ none
    → remove_entry method url es ≡ es
unfolding find_entry remove_entry
remove_entry_absent method url [] h = refl
remove_entry_absent method url (e ∷ es) h = ground (arith, remove_entry_absent method url es)

evict_done :
    (rounds max_entries : ℕ) (es : List CacheEntry)
    → length es < max_entries
    → evict rounds max_entries es ≡ es
unfolding evict
evict_done zero m es h = refl
evict_done (suc rounds) m es h = ground arith

evict_full :
    (e : CacheEntry) (es : List CacheEntry)
    → evict (length (e ∷ es)) (length (e ∷ es)) (e ∷ es) ≡ drop_back (e ∷ es)
unfolding evict
evict_full e es = ground (
  arith,
  evict_done (length es) (length (e ∷ es)) (drop_back (e ∷ es))
      (omega (arith, length-drop_back e es)),
)

evict_of_full :
    (max_entries : ℕ) (es : List CacheEntry)
    → 0 < max_entries
    → length es ≡ max_entries
    → evict (length es) max_entries es ≡ drop_back es
evict_of_full m [] room full = absurd (omega arith)
evict_of_full m (e ∷ es) room full = rw (← full) (evict_full e es)

-- Into a full cache an entry with a new key comes in front, and the entry at the back, the least
-- recently used, gives way alone.
pub set_full :
    (e : CacheEntry) (c : ResponseCache)
    → find_entry e.method e.url c.lru ≡ none
    → 0 < c.max_entries
    → length c.lru ≡ c.max_entries
    → (set e c).lru ≡ e ∷ drop_back c.lru
unfolding set
set_full e c absent room full =
    rw (remove_entry_absent e.method e.url c.lru absent)
      (ap (λ l. e ∷ l) (evict_of_full c.max_entries c.lru room full))

take_all : (n : ℕ) (xs : List ℕ) → length xs ≤ n → take n xs ≡ xs
take_all zero [] h = refl
take_all zero (x ∷ xs) h = absurd (omega arith)
take_all (suc n) [] h = refl
take_all (suc n) (x ∷ xs) h = ap (λ l. x ∷ l) (take_all n xs (omega arith))

size_limit-pos :
    (cfg : CacheConfig) (limit : ℕ)
    → cfg.max_size ≡ pos (suc limit)
    → size_limit cfg ≡ some (suc limit)
unfolding size_limit
size_limit-pos cfg limit h = ground arith

cacheable_within-stream :
    (status : ℕ) (bytes : List ℕ) (cfg : CacheConfig) (method url : Text) (now limit : ℕ)
    → cacheable_within (some limit) status (stream bytes) cfg method url now ≡ (
        if ltb limit (length bytes)
        then some (none, take (limit + 1) bytes)
        else some (some (new_cache_entry status bytes cfg method url now), bytes))
unfolding cacheable_within read_body
cacheable_within-stream status bytes cfg method url now limit =
    ground (arith, take_all (limit + 1) bytes, length-take (limit + 1) bytes)

-- A body that can be read and is no longer than MaxSize is stored, and the caller gets it whole. Of
-- a longer one nothing is stored, and the caller gets only its first MaxSize + 1 bytes.
pub cacheable_response-stream :
    (status : ℕ) (bytes : List ℕ) (cfg : CacheConfig) (method url : Text) (now limit : ℕ)
    → cfg.max_size ≡ pos (suc limit)
    → cacheable_response status (stream bytes) cfg method url now ≡ (
        if ltb (suc limit) (length bytes)
        then some (none, take (suc limit + 1) bytes)
        else some (some (new_cache_entry status bytes cfg method url now), bytes))
unfolding cacheable_response
cacheable_response-stream status bytes cfg method url now limit h =
    rw (size_limit-pos cfg limit h)
      (cacheable_within-stream status bytes cfg method url now (suc limit))
