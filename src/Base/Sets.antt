-- ===== src/Base/Sets.antt =====
-- Lists of identifiers as finite sets: membership, absence of duplicates, and counting.
use mathlib.Core.Bool.{Bool, true, false}
use mathlib.Core.List.{List, [], ◌∷◌}
use Prim.Native.Nat.{ℕ, ◌+◌, ◌≤◌}
use mathlib.Core.Path.{◌≡◌}
use mathlib.Core.Logic.{inl, inr, ◌↔◌}
use native.Mathlib.Omega.{arith}
use lms_backend.Base.Tests.{◌==◌, if◌then◌else◌, ==_iff, Bool-cases}
use lms_backend.Base.Lists.{length}

abbrev pub mem : ℕ → List ℕ → Bool
mem a [] = false
mem a (x ∷ xs) = if x == a then true else mem a xs

abbrev pub Distinct : List ℕ → Type 0
Distinct [] = Unit
Distinct (x ∷ xs) = (mem x xs ≡ false) × Distinct xs

-- Everything in `xs` is in `ys`.
abbrev pub Subset : List ℕ → List ℕ → Type 0
Subset xs ys = (a : ℕ) → mem a xs ≡ true → mem a ys ≡ true

remove : ℕ → List ℕ → List ℕ
remove a [] = []
remove a (x ∷ xs) = if x == a then xs else x ∷ remove a xs

length-remove : (a : ℕ) (xs : List ℕ) → mem a xs ≡ true → length (remove a xs) + 1 ≡ length xs
unfolding remove
length-remove a [] h = cc
length-remove a (x ∷ xs) h = ground (arith, length-remove a xs)

mem-remove :
    (a b : ℕ) (xs : List ℕ) → (a == b) ≡ false → mem b xs ≡ true → mem b (remove a xs) ≡ true
unfolding remove
mem-remove a b [] n h = cc
mem-remove a b (x ∷ xs) n h = ground (arith, mem-remove a b xs)

ne_of_mem : (a x : ℕ) (xs : List ℕ) → mem x xs ≡ false → mem a xs ≡ true → (x == a) ≡ false
ne_of_mem a x [] n h = cc
ne_of_mem a x (y ∷ xs) n h = ground (arith, ne_of_mem a x xs)

-- A list without duplicates is no longer than one that holds all of it.
pub length-Subset : (xs ys : List ℕ) → Distinct xs → Subset xs ys → length xs ≤ length ys
length-Subset [] ys d s = omega arith
length-Subset (x ∷ xs) ys d s = omega (
  arith,
  length-remove x ys (s x (ground arith)),
  length-Subset xs (remove x ys) d.1
      (λ a h. mem-remove x a ys (ne_of_mem a x xs d.0 h) (s a (ground arith))),
)

-- Within `ys`, a list without duplicates is as long as `ys` exactly if it holds all of `ys`.
pub length_le_iff_Subset :
    (xs ys : List ℕ)
    → Distinct xs
    → Distinct ys
    → Subset xs ys
    → (length ys ≤ length xs) ↔ Subset ys xs
length_le_iff_Subset xs ys dx dy s = (
  λ le a h. elim (Bool-cases (mem a xs)) [
    | inl e ↦ e
    | inr e ↦ absurd (omega (arith, length-Subset (a ∷ xs) ys (e, dx) (with_head a h)))
  ],
  length-Subset ys xs dy,
)
  where
    with_head : (a : ℕ) → mem a ys ≡ true → Subset (a ∷ xs) ys
    with_head a h b m = ground (arith, s b, ==_iff a b)
