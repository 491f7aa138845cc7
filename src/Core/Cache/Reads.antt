-- ===== src/Core/Cache/Reads.antt =====
-- What reads of the cache return after a write: a dict with expiry, as long as the cache is not full.
use lms_backend.Base.{
  ℕ, ◌+◌, ◌≤◌, ◌<◌, ◌≡◌, Text, text_eq, text_eq_iff, Option, none, some, arith, inl, inr, leb,
  length, length-keep, Option-cases, if◌then◌else◌,
}
use lms_backend.Base.Dict.{lookup, lookup-insert, lookup-erase}
use lms_backend.Base.Dict.Distinct.{IsDict, lookup-keep}
use lms_backend.Base.Eq.{list_eq}
use lms_backend.Core.Cache.{
  AppCache, Item, max_memory_size, is_live, cleaned, evicted, cleanup_expired_memory, set_memory,
  get_memory,
}

-- What a read of a key returns at a time.
abbrev pub View : Type 0
View = Text → ℕ → Option Text

abbrev live : ℕ → Option Item → Option Text
live now none = none
live now (some (expires_at, payload)) = if leb expires_at now then none else some payload

abbrev pub reads : AppCache → View
reads c key now = live now (lookup key c.memory)

-- A cache as a map with expiry: what a write and a removal do to it.
abbrev pub put : Text → Text → ℕ → View → View
put key payload expires_at v k t =
    if text_eq key k then (if leb expires_at t then none else some payload) else v k t

abbrev pub remove : Text → View → View
remove key v k t = if text_eq key k then none else v k t

-- The two agree at all times from `now` on.
abbrev pub Agree : ℕ → View → View → Type 0
Agree now v w = (k : Text) (t : ℕ) → now ≤ t → v k t ≡ w k t

pub get_memory-reads :
    (key : Text) (now : ℕ) (c : AppCache)
    → ((get_memory key now c).0 ≡ reads c key now)
      × Agree now (reads (get_memory key now c).1) (reads c)
unfolding get_memory
get_memory-reads key now c = elim (Option-cases (lookup key c.memory)) [
  | inl n ↦ (ground arith, λ k t le. ground arith)
  | inr (item, e) ↦ (
    ground arith,
    λ k t le. elim (Option-cases (lookup k c.memory)) [
      | inl n ↦ ground (arith, lookup-erase key k c.memory, text_eq_iff key k)
      | inr (other, f) ↦ ground (arith, lookup-erase key k c.memory, text_eq_iff key k)
    ],
  )
]

cleaned-reads :
    (now : ℕ) (c : AppCache) → IsDict c.memory → Agree now (reads (cleaned now c)) (reads c)
unfolding cleaned cleanup_expired_memory
cleaned-reads now c d k t le = elim (Option-cases (lookup k c.memory)) [
  | inl n ↦ ground (arith, lookup-keep (is_live now) k c.memory d)
  | inr (item, e) ↦ ground (arith, lookup-keep (is_live now) k c.memory d)
]

pub evicted_same : (c : AppCache) → length c.memory < max_memory_size → evicted c ≡ c
unfolding evicted
evicted_same c room = ground arith

pub length-cleaned : (now : ℕ) (c : AppCache) → length (cleaned now c).memory ≤ length c.memory
unfolding cleaned cleanup_expired_memory
length-cleaned now c = ground (arith, length-keep (is_live now) c.memory)

pub set_memory-reads :
    (key payload : Text) (ttl now : ℕ) (c : AppCache)
    → IsDict c.memory
    → length c.memory < max_memory_size
    → Agree now (reads (set_memory key payload ttl now c)) (put key payload (now + ttl) (reads c))
unfolding set_memory
set_memory-reads key payload ttl now c d room k t le =
    let c' = cleaned now c in
    rw (evicted_same c' (omega (arith, length-cleaned now c, room))) (
      ground (
        arith,
        lookup-insert key k (now + ttl, payload) c'.memory,
        text_eq_iff key k,
        cleaned-reads now c d k t le,
      ))
