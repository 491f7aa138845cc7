-- ===== src/Core/RateLimit/Cleanup.antt =====
-- The guarantee of the limiter, and what the cleanup does to it.
use lms_backend.Base.{
  ℕ, ◌+◌, ◌*◌, ◌≡◌, ◌≤◌, ◌<◌, ◌⊎◌, ap, ◌∙◌, Text, Bool, true, false, some, List, [], ◌∷◌, ◌++◌,
  ◌&&◌, arith, ltb, leb, length, inl, inr, Bool-cases, if◌then◌else◌, text_eq, text_eq_iff, All,
}
use lms_backend.Base.Eq.{list_eq}
use lms_backend.Base.Dict.{lookup, lookup-insert, eqb_refl}
use lms_backend.Core.RateLimit.{
  Limiter, Verdict, second, cleanup_interval_seconds, drop_old, window_of, maybe_cleanup,
  dispatch_in_memory,
}
use lms_backend.Core.RateLimit.Window.{
  recent, drop_old-nil, drop_old-All, drop_old-drop_old, length-drop_old-append, length-drop_old,
  UniqueKeys, UniqueKeys-sweep, UniqueKeys-insert, window-sweep,
}

-- The window of a key.
abbrev pub window_at : Text → Limiter → List ℕ
window_at key l = window_of (lookup key l.requests)

window-cleanup :
    (key : Text) (now : ℕ) (l : Limiter)
    → UniqueKeys l.requests
    → (window_at key (maybe_cleanup now l) ≡ window_at key l)
      ⊎ (window_at key (maybe_cleanup now l) ≡ drop_old l.period_seconds now (window_at key l))
unfolding maybe_cleanup
window-cleanup key now l u = ground (arith, window-sweep l.period_seconds now key l.requests u)

UniqueKeys-cleanup :
    (now : ℕ) (l : Limiter) → UniqueKeys l.requests → UniqueKeys (maybe_cleanup now l).requests
unfolding maybe_cleanup
UniqueKeys-cleanup now l u =
    elim (Bool-cases (ltb now (l.last_cleanup_time + cleanup_interval_seconds * second))) [
      | inl e ↦ rw e u
      | inr e ↦ rw e (UniqueKeys-sweep l.period_seconds now l.requests u)
    ]

-- The requests of the key that were let through, latest first, after one more call.
abbrev pub passed_after : Text → Text → ℕ → Bool → List ℕ → List ℕ
passed_after key other now allowed passed =
    if text_eq other key && allowed then now ∷ passed else passed

-- A history of the limiter from an empty store, at times that do not go back: its state, the time of
-- the last call, and when the requests of `key` were let through. Calls for other keys come in between,
-- with any limit and period. `global` is the period of the limiter itself, by which it cleans up.
pub data Serves (key : Text) (limit period global : ℕ) : Limiter → ℕ → List ℕ → Type 0 where
  start :
      (l : Limiter)
      → l.requests ≡ []
      → l.period_seconds ≡ global
      → Serves key limit period global l 0 []
  call :
      {l : Limiter} {last : ℕ} {passed : List ℕ} (other : Text)
      (other_limit other_period now later : ℕ)
      → Serves key limit period global l last passed
      → last ≤ now
      → (other ≡ key → (other_limit ≡ limit) × (other_period ≡ period))
      → Serves key limit period global
          (dispatch_in_memory other other_limit other_period now later l).1
          now
          (passed_after key other now
            ((dispatch_in_memory other other_limit other_period now later l).0).allowed
            passed)

-- The window accounts for every request that was let through and is still recent.
record Accounts (key : Text) (limit period global : ℕ) (l : Limiter) (last : ℕ) (passed : List ℕ)
    : Type 0 where
  unique : UniqueKeys l.requests
  same : l.period_seconds ≡ global
  covered :
      (t : ℕ) → last ≤ t → recent period t passed ≤ length (drop_old period t (window_at key l))
  bounded : (t : ℕ) → last ≤ t → recent period t passed ≤ limit

-- The cleanup loses nothing that is recent, when the limiter's own period is at least as long.
kept_by_cleanup :
    (key : Text) (period now t : ℕ) (l : Limiter)
    → UniqueKeys l.requests
    → period ≤ l.period_seconds
    → now ≤ t
    → drop_old period t (window_at key (maybe_cleanup now l)) ≡ drop_old period t (window_at key l)
kept_by_cleanup key period now t l u p n = elim (window-cleanup key now l u) [
  | inl e ↦ rw e
  | inr e ↦ rw e (drop_old-drop_old period l.period_seconds now t (window_at key l) p n)
]

module _ (key : Text) (limit period now later : ℕ) (l : Limiter) where
  abbrev called : Verdict × Limiter
  called = dispatch_in_memory key limit period now later l

  -- What the call finds in the window after its cleanup.
  abbrev found : List ℕ
  found = drop_old period now (window_at key (maybe_cleanup now l))

  called_window :
      (((called.0).allowed ≡ false) × (window_at key called.1 ≡ found) × (limit ≤ length found))
      ⊎ (((called.0).allowed ≡ true)
          × (window_at key called.1 ≡ found ++ now ∷ [])
          × (length found < limit))
  unfolding dispatch_in_memory
  called_window = ground (
    arith,
    eqb_refl key,
    lookup-insert key key found (maybe_cleanup now l).requests,
    lookup-insert key key (found ++ now ∷ []) (maybe_cleanup now l).requests,
  )

  called_others :
      (other : Text)
      → text_eq key other ≡ false
      → window_at other called.1 ≡ window_at other (maybe_cleanup now l)
  unfolding dispatch_in_memory
  called_others other n = ground (
    arith,
    lookup-insert key other found (maybe_cleanup now l).requests,
    lookup-insert key other (found ++ now ∷ []) (maybe_cleanup now l).requests,
  )

  UniqueKeys-called : UniqueKeys l.requests → UniqueKeys called.1.requests
  unfolding dispatch_in_memory
  UniqueKeys-called u = elim (Bool-cases (leb limit (length found))) [
    | inl e ↦
        rw e
          (UniqueKeys-insert key found (maybe_cleanup now l).requests (UniqueKeys-cleanup now l u))
    | inr e ↦ rw e (
        UniqueKeys-insert key (found ++ now ∷ []) (maybe_cleanup now l).requests
          (UniqueKeys-cleanup now l u))
  ]

  period-called : called.1.period_seconds ≡ l.period_seconds
  unfolding dispatch_in_memory maybe_cleanup
  period-called = ground arith

module _ (key : Text) (limit period global now later last : ℕ) (l : Limiter) (passed : List ℕ)
    (wide : period ≤ global) (a : Accounts key limit period global l last passed)
    (order : last ≤ now) where
  own_found :
      (t : ℕ)
      → now ≤ t
      → drop_old period t (found key limit period now later l) ≡ drop_old period t (window_at key l)
  own_found t n =
      drop_old-drop_old period period now t (window_at key (maybe_cleanup now l)) (omega arith) n
      ∙ kept_by_cleanup key period now t l a.unique (omega (arith, a.same)) n

  own_call :
      Accounts key limit period global
        (called key limit period now later l).1
        now
        (passed_after key key now ((called key limit period now later l).0).allowed passed)
  own_call = elim (called_window key limit period now later l) [
    | inl (refused, kept, full) ↦
        rw (eqb_refl key, refused)
          (record {
            unique = UniqueKeys-called key limit period now later l a.unique;
            same = period-called key limit period now later l ∙ a.same;
            covered = λ t m. rw (kept, own_found t m) (a.covered t (omega arith));
            bounded = λ t m. a.bounded t (omega arith);
          })
    | inr (allowed, added, room) ↦
        rw (eqb_refl key, allowed)
          (record {
            unique = UniqueKeys-called key limit period now later l a.unique;
            same = period-called key limit period now later l ∙ a.same;
            covered = λ t m. rw added (
                ground (
                  arith,
                  length-drop_old-append period t now (found key limit period now later l),
                  ap (λ (w : List ℕ). length w) (own_found t m),
                  a.covered t (omega arith),
                ));
            bounded = λ t m. ground (
              arith,
              length-drop_old period t (found key limit period now later l),
              ap (λ (w : List ℕ). length w) (own_found t m),
              a.covered t (omega arith),
            );
          })
  ]

  other_call :
      (other : Text) (other_limit other_period : ℕ)
      → text_eq other key ≡ false
      → Accounts key limit period global
          (called other other_limit other_period now later l).1
          now
          passed
  other_call other other_limit other_period n = record {
    unique = UniqueKeys-called other other_limit other_period now later l a.unique;
    same = period-called other other_limit other_period now later l ∙ a.same;
    covered = λ t m. rw (called_others other other_limit other_period now later l key n) (
        rw (kept_by_cleanup key period now t l a.unique (omega (arith, a.same)) m)
          (a.covered t (omega arith)));
    bounded = λ t m. a.bounded t (omega arith);
  }

Serves-Accounts :
    {key : Text} {limit period global : ℕ} {l : Limiter} {last : ℕ} {passed : List ℕ}
    → period ≤ global
    → Serves key limit period global l last passed
    → Accounts key limit period global l last passed
Serves-Accounts w (Serves.start l e g) = record {
  unique = rw e tt;
  same = g;
  covered = λ t m. omega arith;
  bounded = λ t m. omega arith;
}
Serves-Accounts {key} {limit} {period} {global} w
      (Serves.call {l = l} {last = last} {passed = passed} other ol op now later s o same) =
    elim (Bool-cases (text_eq other key)) [
      | inr n ↦ rw n (
          other_call key limit period global now later last l passed w (Serves-Accounts w s) o other
            ol op n)
      | inl e ↦
          let is_key = (text_eq_iff other key).0 e in
          rw (is_key, (same is_key).0, (same is_key).1)
            (own_call key limit period global now later last l passed w (Serves-Accounts w s) o)
    ]

-- In a history of calls at times that do not go back, however the calls for other keys are
-- interleaved, at no time have more requests of a key been let through within the last period than
-- its limit, if the period is no longer than that of the limiter itself.
pub Serves-limit :
    (key : Text) (limit period global : ℕ) (l : Limiter) (last : ℕ) (passed : List ℕ)
    → Serves key limit period global l last passed
    → period ≤ global
    → (t : ℕ) → last ≤ t
    → recent period t passed ≤ limit
Serves-limit key limit period global l last passed s w t m = (Serves-Accounts w s).bounded t m

found_nothing :
    (key : Text) (period now : ℕ) (l : Limiter) (window : List ℕ)
    → UniqueKeys l.requests
    → lookup key l.requests ≡ some window
    → l.last_cleanup_time + cleanup_interval_seconds * second ≤ now
    → All (λ t. t + l.period_seconds * second < now) window
    → drop_old period now (window_at key (maybe_cleanup now l)) ≡ []
unfolding maybe_cleanup
found_nothing key period now l window u h due old = ground (
  arith,
  window-sweep l.period_seconds now key l.requests u,
  drop_old-All l.period_seconds now window old,
  drop_old-nil period now,
)

-- When a cleanup is due and all requests in the window of a key are older than the limiter's own
-- period, the next request of the key is let through, whatever the period of its rule and however
-- many requests the window holds, if the limit is positive.
pub cleanup_forgets :
    (key : Text) (limit period now later : ℕ) (l : Limiter) (window : List ℕ)
    → UniqueKeys l.requests
    → lookup key l.requests ≡ some window
    → 0 < limit
    → l.last_cleanup_time + cleanup_interval_seconds * second ≤ now
    → All (λ t. t + l.period_seconds * second < now) window
    → ((dispatch_in_memory key limit period now later l).0).allowed ≡ true
cleanup_forgets key limit period now later l window u h pos due old =
    elim (called_window key limit period now later l) [
      | inl (refused, kept, full) ↦ absurd (
          ground (
            arith,
            ap (λ (w : List ℕ). length w) (found_nothing key period now l window u h due old),
          ))
      | inr (allowed, added, room) ↦ allowed
    ]
