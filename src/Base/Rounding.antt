-- ===== src/Base/Rounding.antt =====
-- `quantize(Decimal("0.01"))` of a quotient, in hundredths: the nearest whole number to `n / d`, and
-- the even one of two that are as near.
use native.Mathlib.Nat.{div-add-mod, mul-le-mul_left}
use lms_backend.Base.{
  ℕ, ◌+◌, ◌*◌, ◌/◌, ◌%◌, ◌≤◌, ◌<◌, ◌≡◌, ◌⊎◌, inl, inr, ap, false, Bool-cases, leb, leb_iff, ltb,
  ◌==◌, if◌then◌else◌, arith,
}

-- The choice between the quotient `q` and the next number, by the remainder `r`.
unfoldable pub round_at : ℕ → ℕ → ℕ → ℕ
round_at q r d =
    if ltb (2 * r) d then q else if ltb d (2 * r) then q + 1 else if q % 2 == 0 then q else q + 1

unfoldable pub half_even : ℕ → ℕ → ℕ
unfolding round_at
half_even n d = round_at (n / d) (n % d) d

half_even-cases :
    (n d : ℕ)
    → ((half_even n d ≡ n / d) × (2 * (n % d) ≤ d))
      ⊎ ((half_even n d ≡ n / d + 1) × (d ≤ 2 * (n % d)))
unfolding half_even
half_even-cases n d = ground arith

-- The rounded value is at most half a unit away.
pub half_even_near :
    (n d : ℕ)
    → 0 < d
    → (2 * (d * half_even n d) ≤ 2 * n + d) × (2 * n ≤ 2 * (d * half_even n d) + d)
half_even_near n d h = near (half_even n d) (half_even-cases n d)
  where
    near :
        (m : ℕ)
        → ((m ≡ n / d) × (2 * (n % d) ≤ d)) ⊎ ((m ≡ n / d + 1) × (d ≤ 2 * (n % d)))
        → (2 * (d * m) ≤ 2 * n + d) × (2 * n ≤ 2 * (d * m) + d)
    near m (inl (e, r)) = omega (arith, ap (λ (t : ℕ). d * t) e, div-add-mod n d)
    near m (inr (e, r)) = omega (arith, ap (λ (t : ℕ). d * t) e, div-add-mod n d)

-- A quotient of at most `k` is rounded to at most `k`.
pub half_even-le : (n d k : ℕ) → 0 < d → n ≤ k * d → half_even n d ≤ k
half_even-le n d k h le = elim (Bool-cases (leb (half_even n d) k)) [
  | inl e ↦ (leb_iff _ _).0 e
  | inr e ↦ absurd (
      omega (
        arith,
        mul-le-mul_left {m = k + 1} {n = half_even n d} d (over (half_even n d) e),
        half_even_near n d h,
      ))
]
  where
    over : (m : ℕ) → leb m k ≡ false → k + 1 ≤ m
    over m e = ground arith
