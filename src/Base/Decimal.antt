-- ===== src/Base/Decimal.antt =====
-- `str(n)` of a natural number and `int(text)` of plain decimal digits; a sign, a space or an underscore, which
-- `int` would allow, is `none` here.
use mathlib.Core.Path.{◌≡◌, refl, ap}
use mathlib.Core.Bool.{◌&&◌}
use mathlib.Core.Option.{Option, none, some}
use mathlib.Core.List.{[], ◌∷◌, ◌++◌}
use mathlib.Core.Logic.{inl, inr}
use Prim.Native.Nat.{ℕ, zero, suc, ◌+◌, ◌-◌, ◌*◌, ◌/◌, ◌%◌, ◌≤◌, ◌<◌}
use native.Mathlib.Omega.{arith}
use lms_backend.Base.Tests.{leb, ltb, if◌then◌else◌, Bool-cases}
use lms_backend.Base.Codes.{Text}

-- The fuel is the number itself, which has no more digits.
digits : ℕ → ℕ → Text
digits zero n = (48 + n % 10) ∷ []
digits (suc fuel) n =
    let higher = digits fuel (n / 10) in
    if ltb n 10 then (48 + n) ∷ [] else higher ++ (48 + n % 10) ∷ []

-- `str(n)`
unfoldable pub str : ℕ → Text
unfolding digits
str n = digits n n

-- The value so far, and the digits that are left.
value : ℕ → Text → Option ℕ
value acc [] = some acc
value acc (c ∷ s) =
    let rest = value (acc * 10 + (c - 48)) s in if leb 48 c && leb c 57 then rest else none

-- `int(text)`
unfoldable pub int : Text → Option ℕ
unfolding value
int [] = none
int (c ∷ s) = value 0 (c ∷ s)

value-append :
    (acc n : ℕ) (s : Text) (d : ℕ)
    → value acc s ≡ some n
    → d < 10
    → value acc (s ++ (48 + d) ∷ []) ≡ some (n * 10 + d)
unfolding value
value-append acc n [] d h lt = ground arith
value-append acc n (c ∷ s) d h lt = ground (arith, value-append (acc * 10 + (c - 48)) n s d)

value-digits : (fuel n : ℕ) → n ≤ fuel → value 0 (digits fuel n) ≡ some n
unfolding value digits
value-digits zero n le = ground arith
value-digits (suc fuel) n le = elim (Bool-cases (ltb n 10)) [
  | inl e ↦ rw e (ground arith)
  | inr e ↦ rw e (
      rw
        (value-append 0 (n / 10) (digits fuel (n / 10)) (n % 10)
          (value-digits fuel (n / 10) (ground arith)) (omega arith))
        (ap some (omega arith)))
]

nonempty : (fuel n : ℕ) → (c : ℕ) × (s : Text) × (digits fuel n ≡ c ∷ s)
unfolding digits
nonempty zero n = (48 + n % 10, [], refl)
nonempty (suc fuel) n = elim (Bool-cases (ltb n 10)) [
  | inl e ↦ (48 + n, [], rw e refl)
  | inr e ↦ let (c, s, h) = nonempty fuel (n / 10) in (c, s ++ (48 + n % 10) ∷ [], rw (e, h) refl)
]

-- Reading back a number that was written gives the number.
pub int-str : (n : ℕ) → int (str n) ≡ some n
unfolding int str
int-str n =
    let (c, s, h) = nonempty n n in let v = value-digits n n (omega arith) in rw h (rw h at v)
