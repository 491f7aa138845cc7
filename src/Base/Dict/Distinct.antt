-- ===== src/Base/Dict/Distinct.antt =====
-- Dicts whose keys are distinct, as those of Python are: kept by insertion, removal and filtering.
use mathlib.Core.Path.{◌≡◌, refl}
use mathlib.Core.Logic.{inl, inr}
use mathlib.Core.Bool.{Bool}
use mathlib.Core.Option.{Option, none, some}
use mathlib.Core.List.{[], ◌∷◌}
use Prim.Native.Nat.{suc, ◌≤◌, ◌<◌}
use native.Mathlib.Omega.{arith}
use lms_backend.Base.Tests.{if◌then◌else◌, Bool-cases}
use lms_backend.Base.Lists.{keep, length}
use lms_backend.Base.Eq.{Eq}
use lms_backend.Base.Dict.{Dict, lookup, insert, erase, lookup-erase, lookup-insert}

module _ {K V : Type 0} ⦃e : Eq K⦄ where
  abbrev pub IsDict : Dict K V → Type 0
  IsDict [] = Unit
  IsDict ((k, v) ∷ d) = (lookup k d ≡ none) × IsDict d

  -- The entry under the key, if it passes the test.
  abbrev pub if_kept : (K × V → Bool) → K → Option V → Option V
  if_kept p k none = none
  if_kept p k (some v) = if p (k, v) then some v else none

  pub lookup-keep :
      (p : K × V → Bool) (k : K) (d : Dict K V)
      → IsDict d
      → lookup k (keep p d) ≡ if_kept p k (lookup k d)
  unfolding lookup
  lookup-keep p k [] h = refl
  lookup-keep p k ((j, v) ∷ d) h = ground (arith, lookup-keep p k d h.1, e.eqb_iff j k)

  pub keep-IsDict : (p : K × V → Bool) (d : Dict K V) → IsDict d → IsDict (keep p d)
  keep-IsDict p [] h = tt
  keep-IsDict p ((j, v) ∷ d) h = elim (Bool-cases (p (j, v))) [
    | inl t ↦ rw t (ground (arith, lookup-keep p j d h.1), keep-IsDict p d h.1)
    | inr t ↦ rw t (keep-IsDict p d h.1)
  ]

  pub erase-IsDict : (k : K) (d : Dict K V) → IsDict d → IsDict (erase k d)
  unfolding erase
  erase-IsDict k [] h = tt
  erase-IsDict k ((j, v) ∷ d) h = elim (Bool-cases (e.eqb j k)) [
    | inl t ↦ rw t (erase-IsDict k d h.1)
    | inr t ↦ rw t (ground (arith, lookup-erase k j d), erase-IsDict k d h.1)
  ]

  pub insert-IsDict : (k : K) (v : V) (d : Dict K V) → IsDict d → IsDict (insert k v d)
  unfolding insert lookup
  insert-IsDict k v [] h = (refl, tt)
  insert-IsDict k v ((j, w) ∷ d) h = elim (Bool-cases (e.eqb j k)) [
    | inl t ↦ rw t (ground (arith, e.eqb_iff j k), h.1)
    | inr t ↦ rw t (
      ground (arith, lookup-insert k j v d, e.eqb_iff j k, e.eqb_iff k j),
      insert-IsDict k v d h.1,
    )
  ]

  pub length-insert : (k : K) (v : V) (d : Dict K V) → length (insert k v d) ≤ suc (length d)
  unfolding insert
  length-insert k v [] = ground arith
  length-insert k v ((j, w) ∷ d) = ground (arith, length-insert k v d)

  pub length-erase : (k : K) (d : Dict K V) → length (erase k d) ≤ length d
  unfolding erase
  length-erase k [] = omega arith
  length-erase k ((j, w) ∷ d) = ground (arith, length-erase k d)

  -- A key that is in the dict leaves a shorter one.
  pub length-erase_in :
      (k : K) {v : V} (d : Dict K V) → lookup k d ≡ some v → length (erase k d) < length d
  unfolding lookup erase
  length-erase_in k [] h = cc
  length-erase_in k {v} ((j, w) ∷ d) h = elim (Bool-cases (e.eqb j k)) [
    | inl t ↦ rw t (omega (arith, length-erase k d))
    | inr t ↦ rw t (omega (arith, length-erase_in k {v = v} d (rw t at h)))
  ]
