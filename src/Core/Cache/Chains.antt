-- ===== src/Core/Cache/Chains.antt =====
-- Several calls at one time, in a cache with room for them.
use mathlib.Core.Path.{subst}
use lms_backend.Base.{
  ℕ, suc, ◌+◌, max, ◌≤◌, ◌<◌, ◌≡◌, refl, ◌∙◌, Text, starts_with, true, not, List, [], ◌∷◌, ◌++◌,
  arith, inl, inr, length, ap, Bool-cases, Option-cases, length-keep,
}
use lms_backend.Base.Dict.{lookup}
use lms_backend.Base.Dict.Distinct.{length-insert, length-erase}
use lms_backend.Base.Eq.{list_eq}
use lms_backend.Core.Cache.{
  AppCache, Item, max_memory_size, evicted, cleaned, set_memory, get_memory, set_json, get_json,
  get_int, incr, expire, delete, delete_by_prefix, build_key, ttl_or, or_zero,
}
use lms_backend.Base.Decimal.{str}
use lms_backend.Core.Cache.Size.{IsCache, Call, run, run-IsCache}
use lms_backend.Core.Cache.Reads.{View, reads, Agree, evicted_same, length-cleaned}
use lms_backend.Core.Cache.Refines.{promise, extended, run-Agree}

-- The cache is enabled and has room for so many new entries, and one more.
pub record HasRoom (free : ℕ) (c : AppCache) : Type 0 where
  pub on : c.enabled ≡ true
  pub cache : IsCache c
  pub room : length c.memory + free < max_memory_size

-- The parts of a cache that no call changes.
abbrev pub SameSettings : AppCache → AppCache → Type 0
SameSettings c c' =
    (c'.enabled ≡ c.enabled)
    × (c'.key_prefix ≡ c.key_prefix)
    × (c'.default_ttl_seconds ≡ c.default_ttl_seconds)

settings-set_memory :
    (key payload : Text) (ttl now : ℕ) (c : AppCache)
    → SameSettings c (set_memory key payload ttl now c)
unfolding set_memory evicted cleaned
settings-set_memory key payload ttl now c = ground arith

pub settings-get_memory :
    (key : Text) (now : ℕ) (c : AppCache) → SameSettings c (get_memory key now c).1
unfolding get_memory
settings-get_memory key now c = elim (Option-cases (lookup key c.memory)) [
  | inl n ↦ ground arith
  | inr (i, e) ↦ ground arith
]

length-set_memory :
    (key payload : Text) (ttl now : ℕ) (c : AppCache)
    → length c.memory < max_memory_size
    → length (set_memory key payload ttl now c).memory ≤ suc (length c.memory)
unfolding set_memory
length-set_memory key payload ttl now c room =
    rw (evicted_same (cleaned now c) (omega (arith, length-cleaned now c, room))) (
      omega (
        arith,
        length-insert key (now + ttl, payload) (cleaned now c).memory,
        length-cleaned now c,
      ))

pub length-get_memory :
    (key : Text) (now : ℕ) (c : AppCache) → length (get_memory key now c).1.memory ≤ length c.memory
unfolding get_memory
length-get_memory key now c = elim (Option-cases (lookup key c.memory)) [
  | inl n ↦ ground arith
  | inr (i, e) ↦ ground (arith, length-erase key c.memory)
]

-- What a call leaves, beside the entries: the settings, and at most one more entry.
abbrev IsNear : AppCache → AppCache → Type 0
IsNear c c' = SameSettings c c' × (length c'.memory ≤ suc (length c.memory))

read-IsNear : (key : Text) (now : ℕ) (c : AppCache) → IsNear c (get_memory key now c).1
read-IsNear key now c = (settings-get_memory key now c, omega (arith, length-get_memory key now c))

write-IsNear :
    (key payload : Text) (ttl now : ℕ) (c : AppCache)
    → length c.memory < max_memory_size
    → IsNear c (set_memory key payload ttl now c)
write-IsNear key payload ttl now c room =
    (settings-set_memory key payload ttl now c, length-set_memory key payload ttl now c room)

read_write-IsNear :
    (key payload other : Text) (ttl now : ℕ) (c : AppCache)
    → length c.memory < max_memory_size
    → IsNear c (set_memory key payload ttl now (get_memory other now c).1)
read_write-IsNear key payload other ttl now c room =
    let c' = (get_memory other now c).1 in
    let shorter = length-get_memory other now c in
    let (a, b, d) = settings-get_memory other now c in
    let (e, f, g) = settings-set_memory key payload ttl now c' in
    (
      (e ∙ a, f ∙ b, g ∙ d),
      omega
          (arith, shorter, length-set_memory key payload ttl now c' (omega (arith, shorter, room))),
    )

expire-IsNear :
    (key : Text) (ttl now : ℕ) (c : AppCache)
    → length c.memory < max_memory_size
    → IsNear c (expire key ttl now c).1
unfolding expire
expire-IsNear key ttl now c room =
    let full = build_key c key in
    elim (Bool-cases c.enabled) [
      | inr off ↦ ground arith
      | inl on ↦ elim (Option-cases (get_memory full now c).0) [
        | inl n ↦ ground (arith, read-IsNear full now c)
        | inr (p, e) ↦ ground (arith, read_write-IsNear full p full (max 1 ttl) now c room)
      ]
    ]

run-IsNear :
    (call : Call) (now : ℕ) (c : AppCache)
    → length c.memory < max_memory_size
    → IsNear c (run call now c)
unfolding run set_json get_json get_int incr delete delete_by_prefix
run-IsNear (Call.set key payload ttl) now c room = ground (
  arith,
  write-IsNear (build_key c key) payload (max 1 (ttl_or ttl c.default_ttl_seconds)) now c room,
)
run-IsNear (Call.get key) now c room = ground (arith, read-IsNear (build_key c key) now c)
run-IsNear (Call.get_number key) now c room = ground (arith, read-IsNear (build_key c key) now c)
run-IsNear (Call.increase key amount) now c room =
    let full = build_key c key in
    let next = or_zero (get_int key now c).0 + amount in
    ground (arith, read_write-IsNear full (str next) full c.default_ttl_seconds now c room)
run-IsNear (Call.expire_in key ttl) now c room = expire-IsNear key ttl now c room
run-IsNear (Call.delete_key key) now c room =
    ground (arith, length-erase (build_key c key) c.memory)
run-IsNear (Call.delete_prefix prefix) now c room =
    ground (
      arith,
      length-keep (λ (x : Text × Item). not (starts_with (build_key c prefix) x.0)) c.memory,
    )

run-HasRoom :
    (call : Call) (now free : ℕ) (c : AppCache)
    → HasRoom (suc free) c
    → HasRoom free (run call now c)
run-HasRoom call now free c h =
    let (same, more) = run-IsNear call now c (omega (arith, h.room)) in
    record {
      on = same.0 ∙ h.on;
      cache = run-IsCache call now c h.cache;
      room = omega (arith, more, h.room);
    }

unfoldable pub run_at : List Call → ℕ → AppCache → AppCache
run_at [] now c = c
run_at (call ∷ calls) now c = run_at calls now (run call now c)

unfoldable pub promise_at : AppCache → List Call → ℕ → View → View
promise_at c [] now v = v
promise_at c (call ∷ calls) now v = promise_at c calls now (promise c call now v)

promise-settings :
    (c c' : AppCache)
    → SameSettings c c'
    → (call : Call) (now : ℕ) (v : View) → Agree now (promise c' call now v) (promise c call now v)
unfolding promise build_key
promise-settings c c' same (Call.set key payload ttl) now v k t le = ground arith
promise-settings c c' same (Call.get key) now v k t le = refl
promise-settings c c' same (Call.get_number key) now v k t le = refl
promise-settings c c' same (Call.increase key amount) now v k t le = ground arith
promise-settings c c' same (Call.expire_in key ttl) now v k t le =
    ap (λ p. extended (p ++ 58 ∷ key) (now + max 1 ttl) (v (p ++ 58 ∷ key) now) v k t) same.1
promise-settings c c' same (Call.delete_key key) now v k t le = ground arith
promise-settings c c' same (Call.delete_prefix prefix) now v k t le = ground arith

-- Calls at one time do what they promise, when the cache has room for them.
pub run_at-Agree :
    (c : AppCache) (calls : List Call) (now free : ℕ) (c' : AppCache) (v : View)
    → HasRoom (length calls + free) c'
    → SameSettings c c'
    → Agree now (reads c') v
    → HasRoom free (run_at calls now c')
      × SameSettings c (run_at calls now c')
      × Agree now (reads (run_at calls now c')) (promise_at c calls now v)
unfolding run_at promise_at
run_at-Agree c [] now free c' v h same a = (subst (λ n. HasRoom n c') (omega arith) h, same, a)
run_at-Agree c (call ∷ calls) now free c' v h (e, f, g) a =
    let ((e', f', g'), more) = run-IsNear call now c' (omega (arith, h.room)) in
    run_at-Agree c calls now free (run call now c') (promise c call now v)
      (run-HasRoom call now (length calls + free) c' (subst (λ n. HasRoom n c') (omega arith) h))
      (e' ∙ e, f' ∙ f, g' ∙ g)
      (λ k t le.
        run-Agree c' call now v h.on h.cache (omega (arith, h.room)) a k t le
        ∙ promise-settings c c' (e, f, g) call now v k t le)
