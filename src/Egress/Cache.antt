-- ===== src/Egress/Cache.antt =====
-- internal/adapters/egress/cache.go: the responses of one route that are kept in memory, least
-- recently used last. The code keeps a doubly linked list and a map from keys to its elements; the
-- map is the view of the list by key, and the list is the state here. Calls hold the cache's mutex.
-- Headers are left out.
use vibewarden.Prelude.{
  ℕ, zero, suc, ◌+◌, ltb, leb, Bool, false, not, ◌&&◌, List, [], ◌∷◌, Option, none, some, length,
  take, if◌then◌else◌,
}
use vibewarden.Prelude.Int.{ℤ, pos, pos_part, leb_ℤ, ltb_ℤ, add_duration, is_zero_time}
use vibewarden.Prelude.Text.{Text, text_of, text_eq}
use vibewarden.Egress.Route.{CacheConfig}

pub record CacheEntry : Type 0 where
  pub method : Text
  pub url : Text
  pub status_code : ℕ
  pub body : List ℕ
  pub expires_at : ℕ

unfoldable pub has_key : Text → Text → CacheEntry → Bool
has_key method url e = text_eq e.method method && text_eq e.url url

unfoldable pub is_expired : ℕ → CacheEntry → Bool
is_expired now e = if is_zero_time e.expires_at then false else ltb e.expires_at now

pub record ResponseCache : Type 0 where
  pub max_entries : ℕ
  pub lru : List CacheEntry

unfoldable pub new_response_cache : ℤ → ResponseCache
new_response_cache max_entries = record {
  max_entries = if leb_ℤ max_entries (pos 0) then 1 else pos_part max_entries;
  lru = [];
}

unfoldable pub find_entry : Text → Text → List CacheEntry → Option CacheEntry
find_entry method url [] = none
find_entry method url (e ∷ es) =
    let rest = find_entry method url es in if has_key method url e then some e else rest

unfoldable pub remove_entry : Text → Text → List CacheEntry → List CacheEntry
remove_entry method url [] = []
remove_entry method url (e ∷ es) =
    let rest = remove_entry method url es in if has_key method url e then rest else e ∷ rest

use_found : ℕ → ResponseCache → Option CacheEntry → ResponseCache × Option CacheEntry
use_found now c none = (c, none)
use_found now c (some e) =
    let others = remove_entry e.method e.url c.lru in
    if is_expired now e
    then (record c { lru = others }, none)
    else (record c { lru = e ∷ others }, some e)

-- Get: an expired entry is dropped, one that is valid moves to the front.
unfoldable pub get : Text → Text → ℕ → ResponseCache → ResponseCache × Option CacheEntry
unfolding use_found
get method url now c = use_found now c (find_entry method url c.lru)

unfoldable pub drop_back : List CacheEntry → List CacheEntry
drop_back [] = []
drop_back (e ∷ []) = []
drop_back (e ∷ f ∷ es) = e ∷ drop_back (f ∷ es)

-- The loop that evicts from the back; it makes at most one round for each entry.
unfoldable pub evict : ℕ → ℕ → List CacheEntry → List CacheEntry
evict zero max_entries es = es
evict (suc rounds) max_entries es =
    let fewer = evict rounds max_entries (drop_back es) in
    if leb max_entries (length es) then fewer else es

unfoldable pub set : CacheEntry → ResponseCache → ResponseCache
set entry c =
    let others = remove_entry entry.method entry.url c.lru in
    record c { lru = entry ∷ evict (length others) c.max_entries others }

unfoldable pub is_cacheable : Text → ℕ → Bool
is_cacheable method status =
    if not (text_eq method (text_of "GET")) && not (text_eq method (text_of "HEAD"))
    then false
    else leb 200 status && leb status 299

-- A response's body: none, a stream of bytes, or one that fails after some bytes.
pub data Body : Type 0 where
  no_body : Body
  stream failing : List ℕ → Body

-- What is read of a body: `io.ReadAll`, behind `io.LimitReader` if there is a limit.
unfoldable pub read_body : Option ℕ → Body → Option (List ℕ)
read_body limit no_body = some []
read_body none (stream bytes) = some bytes
read_body (some n) (stream bytes) = some (take n bytes)
read_body none (failing bytes) = none
read_body (some n) (failing bytes) = if leb n (length bytes) then some (take n bytes) else none

-- `cfg.MaxSize > 0`, and the limit that it then sets.
unfoldable pub size_limit : CacheConfig → Option ℕ
size_limit cfg = if ltb_ℤ (pos 0) cfg.max_size then some (pos_part cfg.max_size) else none

abbrev one_more : Option ℕ → Option ℕ
one_more none = none
one_more (some n) = some (n + 1)

exceeds : Option ℕ → List ℕ → Bool
exceeds none raw = false
exceeds (some n) raw = ltb n (length raw)

unfoldable pub new_cache_entry : ℕ → List ℕ → CacheConfig → Text → Text → ℕ → CacheEntry
new_cache_entry status raw cfg method url now = record {
  method = method;
  url = url;
  status_code = status;
  body = raw;
  expires_at = if ltb_ℤ (pos 0) cfg.ttl then add_duration now cfg.ttl else 0;
}

unfoldable pub cacheable_within :
    Option ℕ → ℕ → Body → CacheConfig → Text → Text → ℕ → Option (Option CacheEntry × List ℕ)
unfolding exceeds new_cache_entry
cacheable_within limit status body cfg method url now = elim (read_body (one_more limit) body) [
  | none ↦ none
  | some raw ↦
      if exceeds limit raw
      then some (none, raw)
      else some (some (new_cache_entry status raw cfg method url now), raw)
]

-- The entry to store, if any, and the bytes that the caller gets as the body; `none` if the body
-- could not be read.
unfoldable pub cacheable_response :
    ℕ → Body → CacheConfig → Text → Text → ℕ → Option (Option CacheEntry × List ℕ)
unfolding cacheable_within
cacheable_response status body cfg method url now =
    cacheable_within (size_limit cfg) status body cfg method url now
