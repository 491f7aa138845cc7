-- ===== src/Base/Float.antt =====
-- Python floats as far as they are compared. A finite one is a whole number of units of 2 ^ -1074, counted by
-- `plus`, or by `minus` for minus the count and one more; the two zeros are one.
use lms_backend.Base.{ℕ, Bool, true, false, ltb}

pub data Float : Type 0 where
  nan infinity minus_infinity : Float
  plus minus : ℕ → Float

-- `a < b`
unfoldable pub float_lt : Float → Float → Bool
float_lt nan b = false
float_lt infinity b = false
float_lt minus_infinity nan = false
float_lt minus_infinity minus_infinity = false
float_lt minus_infinity infinity = true
float_lt minus_infinity (plus n) = true
float_lt minus_infinity (minus n) = true
float_lt (plus m) nan = false
float_lt (plus m) minus_infinity = false
float_lt (plus m) infinity = true
float_lt (plus m) (plus n) = ltb m n
float_lt (plus m) (minus n) = false
float_lt (minus m) nan = false
float_lt (minus m) minus_infinity = false
float_lt (minus m) infinity = true
float_lt (minus m) (plus n) = true
float_lt (minus m) (minus n) = ltb n m
