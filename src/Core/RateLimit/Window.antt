-- ===== src/Core/RateLimit/Window.antt =====
-- Windows of times, and what the cleanup and the limiter do to the window of one key.
use lms_backend.Base.{
  ℕ, ◌+◌, ◌*◌, ◌≡◌, ◌≤◌, ◌<◌, refl, Text, none, List, [], ◌∷◌, ◌++◌, arith, ltb, length,
  length-append, inl, inr, Bool-cases, if◌then◌else◌, All,
}
use lms_backend.Base.Eq.{list_eq}
use lms_backend.Base.Codes.{text_eq, text_eq_iff}
use lms_backend.Base.Dict.{Dict, lookup, insert, lookup-insert}
use lms_backend.Core.RateLimit.{second, drop_old, window_of, put_window, sweep}

-- How many of the times lie within the period that ends at `now`.
abbrev pub recent : ℕ → ℕ → List ℕ → ℕ
recent period now [] = 0
recent period now (t ∷ ts) = (if ltb (t + period * second) now then 0 else 1) + recent period now ts

pub drop_old-nil : (period now : ℕ) → drop_old period now [] ≡ []
unfolding drop_old
drop_old-nil period now = refl

pub drop_old-All :
    (period now : ℕ) (window : List ℕ)
    → All (λ t. t + period * second < now) window
    → drop_old period now window ≡ []
unfolding drop_old
drop_old-All period now [] old = refl
drop_old-All period now (t ∷ window) (o, old) = ground (arith, drop_old-All period now window old)

-- Dropping twice is dropping at the later time, also if the first drop was for a longer period.
pub drop_old-drop_old :
    (period longer now later : ℕ) (window : List ℕ)
    → period ≤ longer
    → now ≤ later
    → drop_old period later (drop_old longer now window) ≡ drop_old period later window
unfolding drop_old
drop_old-drop_old period longer now later [] p n = refl
drop_old-drop_old period longer now later (t ∷ window) p n =
    ground (arith, drop_old-drop_old period longer now later window p n)

pub length-drop_old-append :
    (period now t : ℕ) (window : List ℕ)
    → length (drop_old period now window) + (if ltb (t + period * second) now then 0 else 1)
      ≤ length (drop_old period now (window ++ t ∷ []))
unfolding drop_old
length-drop_old-append period now t [] = ground arith
length-drop_old-append period now t (u ∷ window) =
    ground (arith, length-drop_old-append period now t window, length-append window (t ∷ []))

pub length-drop_old :
    (period now : ℕ) (window : List ℕ) → length (drop_old period now window) ≤ length window
unfolding drop_old
length-drop_old period now [] = omega arith
length-drop_old period now (t ∷ window) = ground (arith, length-drop_old period now window)

-- No key is listed twice.
abbrev pub UniqueKeys : Dict Text (List ℕ) → Type 0
UniqueKeys [] = Unit
UniqueKeys ((k, v) ∷ d) = (lookup k d ≡ none) × UniqueKeys d

lookup-sweep-none :
    (period now : ℕ) (k : Text) (d : Dict Text (List ℕ))
    → lookup k d ≡ none
    → lookup k (sweep period now d) ≡ none
unfolding lookup sweep
lookup-sweep-none period now k [] h = refl
lookup-sweep-none period now k ((j, w) ∷ d) h = ground (arith, lookup-sweep-none period now k d)

-- The sweep drops the old entries of every window.
pub window-sweep :
    (period now : ℕ) (k : Text) (d : Dict Text (List ℕ))
    → UniqueKeys d
    → window_of (lookup k (sweep period now d)) ≡ drop_old period now (window_of (lookup k d))
unfolding lookup sweep
window-sweep period now k [] u = ground (arith, drop_old-nil period now)
window-sweep period now k ((j, w) ∷ d) u =
    ground (arith, window-sweep period now k d, lookup-sweep-none period now k d, text_eq_iff j k)

UniqueKeys-put :
    (k : Text) (window : List ℕ) (d : Dict Text (List ℕ))
    → lookup k d ≡ none
    → UniqueKeys d
    → UniqueKeys (put_window k window d)
unfolding put_window
UniqueKeys-put k [] d n u = u
UniqueKeys-put k (t ∷ window) d n u = (n, u)

pub UniqueKeys-sweep :
    (period now : ℕ) (d : Dict Text (List ℕ)) → UniqueKeys d → UniqueKeys (sweep period now d)
unfolding sweep
UniqueKeys-sweep period now [] u = tt
UniqueKeys-sweep period now ((j, w) ∷ d) u =
    UniqueKeys-put j (drop_old period now w) (sweep period now d)
      (lookup-sweep-none period now j d u.0) (UniqueKeys-sweep period now d u.1)

pub UniqueKeys-insert :
    (k : Text) (v : List ℕ) (d : Dict Text (List ℕ)) → UniqueKeys d → UniqueKeys (insert k v d)
unfolding insert lookup
UniqueKeys-insert k v [] u = (refl, tt)
UniqueKeys-insert k v ((j, w) ∷ d) u = elim (Bool-cases (text_eq j k)) [
  | inl e ↦ rw e (ground (arith, text_eq_iff j k), u.1)
  | inr e ↦ rw e (
    ground (arith, lookup-insert k j v d, text_eq_iff j k, text_eq_iff k j),
    UniqueKeys-insert k v d u.1,
  )
]
