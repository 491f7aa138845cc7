-- ===== src/Core/Cache/Refines.antt =====
-- The cache implements a map with expiry, as long as it is not full.
use lms_backend.Base.{
  ℕ, ◌+◌, max, ◌≤◌, ◌<◌, ◌≡◌, ◌∙◌, ◌++◌, ap, Text, starts_with, true, not, Option, none, some, ◌∷◌,
  arith, inl, inr, leb, length, Option-cases, if◌then◌else◌,
}
use lms_backend.Base.Decimal.{str, int}
use lms_backend.Base.Dict.{lookup, lookup-erase, eqb_refl}
use lms_backend.Base.Dict.Distinct.{lookup-keep, length-erase}
use lms_backend.Base.Eq.{list_eq}
use lms_backend.Core.Cache.{
  AppCache, Item, max_memory_size, evicted, cleaned, set_memory, get_memory, set_json, get_json,
  get_int, incr, expire, delete, delete_by_prefix, build_key, or_zero, ttl_or,
}
use lms_backend.Core.Cache.Size.{IsCache, Call, run, get_memory-IsCache}
use lms_backend.Core.Cache.Reads.{
  View, reads, put, remove, Agree, get_memory-reads, set_memory-reads,
}

-- The number that a payload holds, zero if there is none.
abbrev pub number : Option Text → ℕ
number none = 0
number (some payload) = or_zero (int payload)

abbrev pub extended : Text → ℕ → Option Text → View → View
extended key expires_at none v = v
extended key expires_at (some payload) v = put key payload expires_at v

-- What each call does to a map with expiry, under the cache's prefix and default time to live.
unfoldable pub promise : AppCache → Call → ℕ → View → View
unfolding str
promise c (Call.set key payload ttl) now v =
    put (build_key c key) payload (now + max 1 (ttl_or ttl c.default_ttl_seconds)) v
promise c (Call.get key) now v = v
promise c (Call.get_number key) now v = v
promise c (Call.increase key amount) now v =
    put (build_key c key) (str (number (v (build_key c key) now) + amount))
      (now + c.default_ttl_seconds) v
promise c (Call.expire_in key ttl) now v =
    extended (build_key c key) (now + max 1 ttl) (v (build_key c key) now) v
promise c (Call.delete_key key) now v = remove (build_key c key) v
promise c (Call.delete_prefix prefix) now v =
    λ k t. if starts_with (build_key c prefix) k then none else v k t

-- A payload that was read, loaded.
abbrev loaded : {V : Type 0} → (Text → Option V) → Option Text → Option V
loaded loads none = none
loaded loads (some payload) = loads payload

get_json-loaded :
    {V : Type 0} (loads : Text → Option V) (key : Text) (now : ℕ) (c : AppCache)
    → c.enabled ≡ true
    → (get_json loads key now c).0 ≡ loaded loads (reads c (build_key c key) now)
unfolding get_json
get_json-loaded loads key now c on = ground (arith, (get_memory-reads (build_key c key) now c).0)

settings-cleaned :
    (now : ℕ) (c : AppCache)
    → let c' = evicted (cleaned now c) in
      (c'.enabled ≡ c.enabled)
      × (c'.key_prefix ≡ c.key_prefix)
      × (c'.default_ttl_seconds ≡ c.default_ttl_seconds)
unfolding evicted cleaned
settings-cleaned now c = ground arith

settings-set_json :
    {V : Type 0} (dumps : V → Text) (key : Text) (v : V) (ttl : Option ℕ) (now : ℕ) (c : AppCache)
    → let c' = set_json dumps key v ttl now c in
      (c'.enabled ≡ c.enabled) × (c'.key_prefix ≡ c.key_prefix)
unfolding set_json set_memory
settings-set_json dumps key v ttl now c = ground (arith, settings-cleaned now c)

module _ (c : AppCache) (on : c.enabled ≡ true) (h : IsCache c)
    (room : length c.memory < max_memory_size) where
  length-get_memory :
      (key : Text) (now : ℕ) → length (get_memory key now c).1.memory ≤ length c.memory
  unfolding get_memory
  length-get_memory key now = elim (Option-cases (lookup key c.memory)) [
    | inl n ↦ ground arith
    | inr (i, e) ↦ ground (arith, length-erase key c.memory)
  ]

  -- A write after a read.
  read_write :
      (key payload other : Text) (ttl now : ℕ)
      → Agree now
          (reads (set_memory key payload ttl now (get_memory other now c).1))
          (put key payload (now + ttl) (reads c))
  read_write key payload other ttl now k t le =
      let c' = (get_memory other now c).1 in
      ground (
        arith,
        set_memory-reads key payload ttl now c' (get_memory-IsCache other now c h).distinct
            (omega (arith, length-get_memory other now, room)) k t le,
        (get_memory-reads other now c).1 k t le,
      )

  pub set-reads :
      {V : Type 0} (dumps : V → Text) (key : Text) (v : V) (ttl : Option ℕ) (now : ℕ)
      → Agree now (reads (set_json dumps key v ttl now c)) (
          put
            (build_key c key)
            (dumps v)
            (now + max 1 (ttl_or ttl c.default_ttl_seconds))
            (reads c))
  unfolding set_json
  set-reads dumps key v ttl now k t le = ground (
    arith,
    set_memory-reads (build_key c key) (dumps v) (max 1 (ttl_or ttl c.default_ttl_seconds)) now c
        h.distinct room k t le,
  )

  pub incr-reads :
      (key : Text) (amount now : ℕ)
      → let next = number (reads c (build_key c key) now) + amount in
        ((incr key amount now c).0 ≡ next)
        × Agree now
            (reads (incr key amount now c).1)
            (put (build_key c key) (str next) (now + c.default_ttl_seconds) (reads c))
  unfolding incr get_int
  incr-reads key amount now =
      let full = build_key c key in
      let next = number (reads c full now) + amount in
      (
        ground (arith, (get_memory-reads full now c).0),
        λ k t le. ground (
          arith,
          (get_memory-reads full now c).0,
          read_write full (str next) full c.default_ttl_seconds now k t le,
        ),
      )

  pub expire-reads :
      (key : Text) (ttl now : ℕ)
      → Agree now
          (reads (expire key ttl now c).1)
          (extended (build_key c key) (now + max 1 ttl) (reads c (build_key c key) now) (reads c))
  unfolding expire
  expire-reads key ttl now k t le =
      let full = build_key c key in
      elim (Option-cases (reads c full now)) [
        | inl n ↦
            ground (arith, (get_memory-reads full now c).0, (get_memory-reads full now c).1 k t le)
        | inr (p, f) ↦
            ground (
              arith,
              (get_memory-reads full now c).0,
              read_write full p full (max 1 ttl) now k t le,
            )
      ]

  pub delete-reads :
      (key : Text) (now : ℕ) → Agree now (reads (delete key c)) (remove (build_key c key) (reads c))
  unfolding delete
  delete-reads key now k t le = ground (arith, lookup-erase (build_key c key) k c.memory)

  delete_by_prefix-reads :
      (prefix : Text) (now : ℕ)
      → Agree now
          (reads (delete_by_prefix prefix c))
          (λ k t. if starts_with (build_key c prefix) k then none else reads c k t)
  unfolding delete_by_prefix
  delete_by_prefix-reads prefix now k t le =
      let p = λ (x : Text × Item). not (starts_with (build_key c prefix) x.0) in
      elim (Option-cases (lookup k c.memory)) [
        | inl n ↦ ground (arith, lookup-keep p k c.memory h.distinct)
        | inr (i, e) ↦ ground (arith, lookup-keep p k c.memory h.distinct)
      ]

  get_json-reads :
      {V : Type 0} (loads : Text → Option V) (key : Text) (now : ℕ)
      → Agree now (reads (get_json loads key now c).1) (reads c)
  unfolding get_json
  get_json-reads loads key now k t le =
      ground (arith, (get_memory-reads (build_key c key) now c).1 k t le)

  get_int-reads : (key : Text) (now : ℕ) → Agree now (reads (get_int key now c).1) (reads c)
  unfolding get_int
  get_int-reads key now k t le = ground (arith, (get_memory-reads (build_key c key) now c).1 k t le)

  keeps_promise :
      (call : Call) (now : ℕ) → Agree now (reads (run call now c)) (promise c call now (reads c))
  unfolding run promise
  keeps_promise (Call.set key payload ttl) now = set-reads (λ text. text) key payload ttl now
  keeps_promise (Call.get key) now = get_json-reads some key now
  keeps_promise (Call.get_number key) now = get_int-reads key now
  keeps_promise (Call.increase key amount) now = (incr-reads key amount now).1
  keeps_promise (Call.expire_in key ttl) now = expire-reads key ttl now
  keeps_promise (Call.delete_key key) now = delete-reads key now
  keeps_promise (Call.delete_prefix prefix) now = delete_by_prefix-reads prefix now

-- A promise keeps the agreement of two maps.
pub promise-Agree :
    (c : AppCache) (call : Call) (now : ℕ) (v w : View)
    → Agree now v w
    → Agree now (promise c call now v) (promise c call now w)
unfolding promise
promise-Agree c (Call.set key payload ttl) now v w a k t le = ground (arith, a k t le)
promise-Agree c (Call.get key) now v w a k t le = a k t le
promise-Agree c (Call.get_number key) now v w a k t le = a k t le
promise-Agree c (Call.increase key amount) now v w a k t le =
    ground (arith, a k t le, a (build_key c key) now (omega arith))
promise-Agree c (Call.expire_in key ttl) now v w a k t le =
    elim (Option-cases (v (build_key c key) now)) [
      | inl n ↦ ground (arith, a k t le, a (build_key c key) now (omega arith))
      | inr (p, e) ↦ ground (arith, a k t le, a (build_key c key) now (omega arith))
    ]
promise-Agree c (Call.delete_key key) now v w a k t le = ground (arith, a k t le)
promise-Agree c (Call.delete_prefix prefix) now v w a k t le = ground (arith, a k t le)

-- Whatever map with expiry the cache agrees with before a call, it agrees with what the call does to that map
-- afterwards, at all times from the call on, when the cache is enabled and not full.
pub run-Agree :
    (c : AppCache) (call : Call) (now : ℕ) (v : View)
    → c.enabled ≡ true
    → IsCache c
    → length c.memory < max_memory_size
    → Agree now (reads c) v
    → Agree now (reads (run call now c)) (promise c call now v)
run-Agree c call now v on h room a k t le =
    keeps_promise c on h room call now k t le ∙ promise-Agree c call now (reads c) v a k t le

-- A value that was set is read back until its time to live is over, and not afterwards, if `loads` reads what
-- `dumps` writes and the cache is enabled and not full.
pub get_json-set_json :
    {V : Type 0} (dumps : V → Text) (loads : Text → Option V)
    → ((v : V) → loads (dumps v) ≡ some v)
    → (c : AppCache) (key : Text) (v : V) (ttl : Option ℕ) (now later : ℕ) → c.enabled ≡ true
    → IsCache c
    → length c.memory < max_memory_size
    → now ≤ later
    → (get_json loads key later (set_json dumps key v ttl now c)).0
      ≡ (if leb (now + max 1 (ttl_or ttl c.default_ttl_seconds)) later then none else some v)
unfolding build_key
get_json-set_json dumps loads back c key v ttl now later on h room le =
    let c' = set_json dumps key v ttl now c in
    let (same_on, same_prefix) = settings-set_json dumps key v ttl now c in
    let full = build_key c key in
    let same : build_key c' key ≡ full = built c' same_prefix in
    get_json-loaded loads key later c' (same_on ∙ on)
    ∙ ap (loaded loads)
        (ap (λ k. reads c' k later) same ∙ set-reads c on h room dumps key v ttl now full later le)
    ∙ ground (arith, eqb_refl ⦃e = list_eq⦄ full, back v)
  where
    built : (c' : AppCache) → c'.key_prefix ≡ c.key_prefix → build_key c' key ≡ build_key c key
    built c' e = ap (λ p. p ++ 58 ∷ key) e
