-- ===== src/Core/Cache.antt =====
-- `AppCache` (app/core/cache.py) without Redis: a dict in memory with expiry, cleanup and eviction. The readings
-- of the clock within one call are one, in seconds.
pub mod Size
pub mod Reads
pub mod Refines
pub mod Chains
mod Tests
use lms_backend.Base.{
  ℕ, zero, suc, ◌+◌, max, Text, codes, starts_with, Bool, true, false, not, Option, none, some,
  List, [], ◌∷◌, ◌++◌, leb, length, keep, map, if◌then◌else◌,
}
use lms_backend.Base.Decimal.{str, int}
use lms_backend.Base.Dict.{Dict, lookup, insert, erase}
use lms_backend.Base.Eq.{list_eq}

-- `expires_at` and the payload.
abbrev pub Item : Type 0
Item = ℕ × Text

abbrev pub Memory : Type 0
Memory = Dict Text Item

pub record AppCache : Type 0 where
  pub enabled : Bool
  pub key_prefix : Text
  pub default_ttl_seconds : ℕ
  pub memory : Memory
  pub memory_cleanup_counter : ℕ

-- `__init__`
unfoldable pub new_cache : Bool → Text → ℕ → AppCache
new_cache enabled key_prefix default_ttl_seconds = record {
  enabled = enabled;
  key_prefix = key_prefix;
  default_ttl_seconds = max 1 default_ttl_seconds;
  memory = [];
  memory_cleanup_counter = 0;
}

-- `MAX_MEMORY_SIZE`, the tenth of it, and `_MEMORY_CLEANUP_INTERVAL`.
abbrev pub max_memory_size : ℕ
max_memory_size = 10000

abbrev pub evicted_at_once : ℕ
evicted_at_once = 1000

abbrev pub cleanup_interval : ℕ
cleanup_interval = 100

-- `_build_key`
unfoldable pub build_key : AppCache → Text → Text
build_key c key = c.key_prefix ++ 58 ∷ key

-- `_cleanup_expired_memory`
abbrev pub is_live : ℕ → Text × Item → Bool
is_live now (key, item) = not (leb item.0 now)

unfoldable pub cleanup_expired_memory : ℕ → Memory → Memory
cleanup_expired_memory now memory = keep (is_live now) memory

-- `sorted(..., key=lambda x: x[1][0])`, which is stable.
unfoldable pub place : Text × Item → Memory → Memory
place x [] = x ∷ []
place x (y ∷ sorted) =
    let rest = place x sorted in if leb x.1.0 y.1.0 then x ∷ y ∷ sorted else y ∷ rest

unfoldable pub sort_by_expiry : Memory → Memory
unfolding place
sort_by_expiry [] = []
sort_by_expiry (x ∷ memory) = place x (sort_by_expiry memory)

-- `for key, _ in sorted_items[:count]: self._memory.pop(key, None)`
unfoldable pub pop_first : ℕ → Memory → Memory → Memory
pop_first zero sorted memory = memory
pop_first (suc count) [] memory = memory
pop_first (suc count) ((key, item) ∷ sorted) memory = pop_first count sorted (erase key memory)

-- `_evict_oldest_entries`
unfoldable pub evict_oldest_entries : ℕ → Memory → Memory
unfolding sort_by_expiry pop_first
evict_oldest_entries count memory = pop_first count (sort_by_expiry memory) memory

-- The first two steps of `_set_memory`.
unfoldable pub cleaned : ℕ → AppCache → AppCache
unfolding cleanup_expired_memory
cleaned now c =
    if leb cleanup_interval (suc c.memory_cleanup_counter)
    then record c { memory = cleanup_expired_memory now c.memory; memory_cleanup_counter = 0 }
    else record c { memory_cleanup_counter = suc c.memory_cleanup_counter }

unfoldable pub evicted : AppCache → AppCache
unfolding evict_oldest_entries
evicted c =
    if leb max_memory_size (length c.memory)
    then record c { memory = evict_oldest_entries evicted_at_once c.memory }
    else c

-- `_set_memory`
unfoldable pub set_memory : Text → Text → ℕ → ℕ → AppCache → AppCache
unfolding cleaned evicted
set_memory key payload ttl_seconds now c =
    let c' = evicted (cleaned now c) in
    record c' { memory = insert key (now + ttl_seconds, payload) c'.memory }

-- `_get_memory`
abbrev unexpired : Text → ℕ → AppCache → Option Item → Option Text × AppCache
unexpired key now c none = (none, c)
unexpired key now c (some (expires_at, payload)) =
    if leb expires_at now
    then (none, record c { memory = erase key c.memory })
    else (some payload, c)

unfoldable pub get_memory : Text → ℕ → AppCache → Option Text × AppCache
get_memory key now c = unexpired key now c (lookup key c.memory)

-- `get_json`, where `loads` is `json.loads`, with `none` where it raises.
unfoldable pub get_json :
    {V : Type 0} → (Text → Option V) → Text → ℕ → AppCache → Option V × AppCache
unfolding get_memory
get_json loads key now c =
    let (payload, c') = get_memory (build_key c key) now c in
    if c.enabled then (elim payload [ none ↦ none | some text ↦ loads text ], c') else (none, c)

abbrev pub ttl_or : Option ℕ → ℕ → ℕ
ttl_or none default = default
ttl_or (some zero) default = default
ttl_or (some (suc n)) default = suc n

-- `set_json`, where `dumps` is `json.dumps`.
unfoldable pub set_json : {V : Type 0} → (V → Text) → Text → V → Option ℕ → ℕ → AppCache → AppCache
unfolding set_memory
set_json dumps key v ttl_seconds now c =
    if c.enabled
    then set_memory (build_key c key) (dumps v) (max 1 (ttl_or ttl_seconds c.default_ttl_seconds))
        now c
    else c

-- `get_int`
unfoldable pub get_int : Text → ℕ → AppCache → Option ℕ × AppCache
unfolding get_memory int
get_int key now c =
    let (payload, c') = get_memory (build_key c key) now c in
    if c.enabled then (elim payload [ none ↦ none | some text ↦ int text ], c') else (none, c)

abbrev pub or_zero : Option ℕ → ℕ
or_zero none = 0
or_zero (some n) = n

-- `incr`, for an amount that is not negative.
unfoldable pub incr : Text → ℕ → ℕ → AppCache → ℕ × AppCache
unfolding get_int set_memory str
incr key amount now c =
    let (current, c') = get_int key now c in
    let next = or_zero current + amount in
    if c.enabled
    then (next, set_memory (build_key c key) (str next) c.default_ttl_seconds now c')
    else (0, c)

-- `expire`
unfoldable pub expire : Text → ℕ → ℕ → AppCache → Bool × AppCache
unfolding get_memory set_memory
expire key ttl_seconds now c =
    let (payload, c') = get_memory (build_key c key) now c in
    if c.enabled
    then elim payload [
      | none ↦ (false, c')
      | some text ↦ (true, set_memory (build_key c key) text (max 1 ttl_seconds) now c')
    ]
    else (false, c)

-- `delete`
unfoldable pub delete : Text → AppCache → AppCache
delete key c = if c.enabled then record c { memory = erase (build_key c key) c.memory } else c

-- `delete_by_prefix`
unfoldable pub delete_by_prefix : Text → AppCache → AppCache
delete_by_prefix prefix c =
    if c.enabled
    then record c {
      memory = keep (λ (x : Text × Item). not (starts_with (build_key c prefix) x.0)) c.memory;
    }
    else c
