-- ===== src/Core/Cache/Size.antt =====
-- The dict of the cache stays a dict and never has more than its largest number of entries.
use lms_backend.Base.{
  ℕ, zero, suc, ◌+◌, max, ◌≤◌, ◌<◌, ◌≡◌, ◌⊎◌, refl, Text, text_eq, true, false, Bool, Option, none,
  some, List, [], ◌∷◌, arith, inl, inr, leb, length, not, starts_with, length-keep, Bool-cases,
  Option-cases, if◌then◌else◌,
}
use lms_backend.Base.Dict.{lookup, erase, eqb_refl}
use lms_backend.Base.Dict.Distinct.{
  IsDict, keep-IsDict, erase-IsDict, insert-IsDict, length-insert, length-erase, length-erase_in,
}
use lms_backend.Base.Eq.{list_eq}
use lms_backend.Core.Cache.{
  AppCache, Memory, Item, max_memory_size, evicted_at_once, new_cache, is_live, cleaned, evicted,
  cleanup_expired_memory, place, sort_by_expiry, pop_first, evict_oldest_entries, cleanup_interval,
  set_memory, get_memory, set_json, get_json, get_int, incr, expire, delete, delete_by_prefix,
  build_key,
}

-- What every call keeps.
pub record IsCache (c : AppCache) : Type 0 where
  pub distinct : IsDict c.memory
  pub bounded : length c.memory ≤ max_memory_size

pop_first-IsDict : (n : ℕ) (sorted m : Memory) → IsDict m → IsDict (pop_first n sorted m)
unfolding pop_first
pop_first-IsDict zero sorted m d = d
pop_first-IsDict (suc n) [] m d = d
pop_first-IsDict (suc n) ((k, i) ∷ sorted) m d =
    pop_first-IsDict n sorted (erase k m) (erase-IsDict k m d)

length-pop_first : (n : ℕ) (sorted m : Memory) → length (pop_first n sorted m) ≤ length m
unfolding pop_first
length-pop_first zero sorted m = omega arith
length-pop_first (suc n) [] m = omega arith
length-pop_first (suc n) ((k, i) ∷ sorted) m =
    omega (arith, length-pop_first n sorted (erase k m), length-erase k m)

-- The first of the sorted entries is an entry of the dict.
head-place :
    (x : Text × Item) (sorted : Memory)
    → ((rest : Memory) × (place x sorted ≡ x ∷ rest))
      ⊎ ((y : Text × Item) × (tail rest : Memory) × (sorted ≡ y ∷ tail)
          × (place x sorted ≡ y ∷ rest))
unfolding place
head-place x [] = inl ([], refl)
head-place x (y ∷ sorted) = elim (Bool-cases (leb x.1.0 y.1.0)) [
  | inl e ↦ inl (y ∷ sorted, rw e refl)
  | inr e ↦ inr (y, sorted, place x sorted, refl, rw e refl)
]

first_entry :
    (x : Text × Item) (m : Memory)
    → (k : Text) × (i : Item) × (rest : Memory) × (v : Item) × (sort_by_expiry (x ∷ m)
        ≡ (k, i) ∷ rest)
      × (lookup k (x ∷ m) ≡ some v)
unfolding sort_by_expiry lookup
first_entry (k, i) [] = (k, i, [], i, refl, rw (eqb_refl k) refl)
first_entry (k, i) (x ∷ m) = elim (head-place (k, i) (sort_by_expiry (x ∷ m))) [
  | inl (rest, e) ↦ (k, i, rest, i, e, rw (eqb_refl k) refl)
  | inr (y, tail, rest, s, e) ↦
      let (j, w, others, v, first, found) = first_entry x m in
      let same : y ≡ (j, w) = ground arith in
      elim (Bool-cases (text_eq k j)) [
        | inl q ↦ (j, w, rest, i, ground arith, rw q refl)
        | inr q ↦ (j, w, rest, v, ground arith, rw q found)
      ]
]

length-evict :
    (n : ℕ) (x : Text × Item) (m : Memory)
    → length (evict_oldest_entries (suc n) (x ∷ m)) < length (x ∷ m)
unfolding evict_oldest_entries pop_first
length-evict n x m =
    let (k, i, rest, v, first, found) = first_entry x m in
    rw first (
      omega
        (arith, length-pop_first n rest (erase k (x ∷ m)), length-erase_in k {v = v} (x ∷ m) found))

evict_full :
    (n : ℕ) (m : Memory) → 0 < length m → length (evict_oldest_entries (suc n) m) < length m
evict_full n [] h = absurd (ground arith)
evict_full n (x ∷ m) h = length-evict n x m

cleaned-IsCache : (now : ℕ) (c : AppCache) → IsCache c → IsCache (cleaned now c)
unfolding cleaned cleanup_expired_memory
cleaned-IsCache now c h = elim (Bool-cases (leb cleanup_interval (suc c.memory_cleanup_counter))) [
  | inl e ↦ rw e (record {
    distinct = keep-IsDict (is_live now) c.memory h.distinct;
    bounded = omega (arith, length-keep (is_live now) c.memory, h.bounded);
  })
  | inr e ↦ rw e (record { distinct = h.distinct; bounded = h.bounded })
]

evicted_room :
    (c : AppCache)
    → IsCache c
    → IsDict (evicted c).memory × (length (evicted c).memory < max_memory_size)
unfolding evicted evict_oldest_entries
evicted_room c h = elim (Bool-cases (leb max_memory_size (length c.memory))) [
  | inl e ↦ rw e (
    pop_first-IsDict evicted_at_once (sort_by_expiry c.memory) c.memory h.distinct,
    omega (arith, evict_full 999 c.memory (ground arith), h.bounded),
  )
  | inr e ↦ rw e (h.distinct, ground arith)
]

pub set_memory-IsCache :
    (key payload : Text) (ttl now : ℕ) (c : AppCache)
    → IsCache c
    → IsCache (set_memory key payload ttl now c)
unfolding set_memory
set_memory-IsCache key payload ttl now c h =
    let c' = evicted (cleaned now c) in
    let (d, room) = evicted_room (cleaned now c) (cleaned-IsCache now c h) in
    record {
      distinct = insert-IsDict key (now + ttl, payload) c'.memory d;
      bounded = omega (arith, length-insert key (now + ttl, payload) c'.memory, room);
    }

pub get_memory-IsCache :
    (key : Text) (now : ℕ) (c : AppCache) → IsCache c → IsCache (get_memory key now c).1
unfolding get_memory
get_memory-IsCache key now c h = elim (Option-cases (lookup key c.memory)) [
  | inl n ↦ rw n h
  | inr (i, e) ↦ elim (Bool-cases (leb i.0 now)) [
    | inl t ↦
        rw (e, t)
          (record {
            distinct = erase-IsDict key c.memory h.distinct;
            bounded = omega (arith, length-erase key c.memory, h.bounded);
          })
    | inr t ↦ rw (e, t) h
  ]
]

-- The calls of the cache; `set` has the payload as `json.dumps` made it.
pub data Call : Type 0 where
  set : Text → Text → Option ℕ → Call
  get get_number delete_key delete_prefix : Text → Call
  increase expire_in : Text → ℕ → Call

unfoldable pub run : Call → ℕ → AppCache → AppCache
run (Call.set key payload ttl) now c = set_json (λ text. text) key payload ttl now c
run (Call.get key) now c = (get_json {V = Text} some key now c).1
run (Call.get_number key) now c = (get_int key now c).1
run (Call.increase key amount) now c = (incr key amount now c).1
run (Call.expire_in key ttl) now c = (expire key ttl now c).1
run (Call.delete_key key) now c = delete key c
run (Call.delete_prefix prefix) now c = delete_by_prefix prefix c

either-IsCache :
    {A : Type 0} (b : Bool) (x y : A × AppCache)
    → IsCache x.1
    → IsCache y.1
    → IsCache (if b then x else y).1
either-IsCache true x y hx hy = hx
either-IsCache false x y hx hy = hy

if-IsCache : (b : Bool) (x y : AppCache) → IsCache x → IsCache y → IsCache (if b then x else y)
if-IsCache true x y hx hy = hx
if-IsCache false x y hx hy = hy

expire-IsCache :
    (key : Text) (ttl now : ℕ) (c : AppCache) → IsCache c → IsCache (expire key ttl now c).1
unfolding expire
expire-IsCache key ttl now c h =
    let got = get_memory-IsCache (build_key c key) now c h in
    either-IsCache c.enabled _ _ (found (get_memory (build_key c key) now c).0 got) h
  where
    found :
        (payload : Option Text)
        → IsCache (get_memory (build_key c key) now c).1
        → IsCache
            (elim payload as (λ o. Bool × AppCache) [
              | none ↦ (false, (get_memory (build_key c key) now c).1)
              | some text ↦ (
                true,
                set_memory
                    (build_key c key)
                    text
                    (max 1 ttl)
                    now
                    (get_memory (build_key c key) now c).1,
              )
            ]).1
    found none g = g
    found (some text) g = set_memory-IsCache (build_key c key) text (max 1 ttl) now _ g

pub run-IsCache : (call : Call) (now : ℕ) (c : AppCache) → IsCache c → IsCache (run call now c)
unfolding run set_json get_json get_int incr delete delete_by_prefix
run-IsCache (Call.set key payload ttl) now c h =
    if-IsCache c.enabled _ c (set_memory-IsCache (build_key c key) payload _ now c h) h
run-IsCache (Call.get key) now c h =
    either-IsCache c.enabled _ _ (get_memory-IsCache (build_key c key) now c h) h
run-IsCache (Call.get_number key) now c h =
    either-IsCache c.enabled _ _ (get_memory-IsCache (build_key c key) now c h) h
run-IsCache (Call.increase key amount) now c h =
    either-IsCache c.enabled _ _
      (set_memory-IsCache (build_key c key) _ _ now _
        (either-IsCache c.enabled _ _ (get_memory-IsCache (build_key c key) now c h) h))
      h
run-IsCache (Call.expire_in key ttl) now c h = expire-IsCache key ttl now c h
run-IsCache (Call.delete_key key) now c h =
    if-IsCache c.enabled _ c
      (record {
        distinct = erase-IsDict (build_key c key) c.memory h.distinct;
        bounded = omega (arith, length-erase (build_key c key) c.memory, h.bounded);
      })
      h
run-IsCache (Call.delete_prefix prefix) now c h =
    if-IsCache c.enabled _ c
      (record {
        distinct = keep-IsDict _ c.memory h.distinct;
        bounded = omega (
          arith,
          length-keep (λ (x : Text × Item). not (starts_with (build_key c prefix) x.0)) c.memory,
          h.bounded,
        );
      })
      h

-- Calls one after another, each at its time.
unfoldable pub run_all : List (Call × ℕ) → AppCache → AppCache
run_all [] c = c
run_all ((call, now) ∷ calls) c = run_all calls (run call now c)

-- A new cache has at most 10000 entries after any calls, and never two entries for one key.
pub run_all-IsCache :
    (enabled : Bool) (key_prefix : Text) (ttl : ℕ) (calls : List (Call × ℕ))
    → IsCache (run_all calls (new_cache enabled key_prefix ttl))
unfolding new_cache run_all
run_all-IsCache enabled key_prefix ttl calls =
    after calls (new_cache enabled key_prefix ttl) (record { distinct = tt; bounded = omega arith })
  where
    after : (calls : List (Call × ℕ)) (c : AppCache) → IsCache c → IsCache (run_all calls c)
    after [] c h = h
    after ((call, now) ∷ calls) c h = after calls (run call now c) (run-IsCache call now c h)
