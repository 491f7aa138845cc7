-- ===== src/Core/Lockout/Counts.antt =====
-- Counting and extending two keys of a map with expiry.
use lms_backend.Base.{
  ℕ, ◌+◌, ◌<◌, ◌≡◌, refl, ap, ◌∙◌, Text, text_eq, text_eq_iff, true, false, some, arith,
}
use lms_backend.Base.Decimal.{str}
use lms_backend.Core.Cache.Reads.{View, put}
use lms_backend.Core.Cache.Refines.{extended, number}

-- Two keys counted and extended, at the level of maps.
module _ (a b : Text) (differ : text_eq a b ≡ false) (v : View) (now expires_at until : ℕ)
    (lives : now < expires_at) where
  abbrev pub counts : ℕ × ℕ
  counts = (number (v a now) + 1, number (v b now) + 1)

  abbrev counted : View
  counted =
      put b (str (number (put a (str counts.0) expires_at v b now) + 1)) expires_at
        (put a (str counts.0) expires_at v)

  abbrev held : View
  held = extended a until (counted a now) counted

  abbrev pub both : View
  both = extended b until (held b now) held

  swapped : text_eq b a ≡ false
  swapped = ground (arith, text_eq_iff a b, text_eq_iff b a)

  counted_is : counted ≡ put b (str counts.1) expires_at (put a (str counts.0) expires_at v)
  counted_is = rw differ refl

  own : (k : Text) → text_eq k k ≡ true
  own k = (text_eq_iff k k).1 refl

  counted_now : (counted a now ≡ some (str counts.0)) × (counted b now ≡ some (str counts.1))
  counted_now = (
    ap (λ w. w a now) counted_is ∙ ground (arith, swapped, own a),
    ap (λ w. w b now) counted_is ∙ ground (arith, own b),
  )

  held_is : held ≡ put a (str counts.0) until counted
  held_is = ap (λ p. extended a until p counted) counted_now.0

  held_now : held b now ≡ some (str counts.1)
  held_now = ap (λ w. w b now) held_is ∙ ground (arith, counted_now.1)

  both_is : both ≡ put b (str counts.1) until (put a (str counts.0) until counted)
  both_is = ap (λ p. extended b until p held) held_now ∙ ap (put b (str counts.1) until) held_is

  pub both-reads :
      (t : ℕ) → t < until → (both a t ≡ some (str counts.0)) × (both b t ≡ some (str counts.1))
  both-reads t lt = (
    ap (λ w. w a t) both_is ∙ ground (arith, own a, swapped),
    ap (λ w. w b t) both_is ∙ ground (arith, own b),
  )

  pub both_other : (k : Text) (t : ℕ) → text_eq a k ≡ false → text_eq b k ≡ false → both k t ≡ v k t
  both_other k t na nb = ap (λ w. w k t) both_is ∙ ground arith
