-- ===== src/Base/Eq.antt =====
-- Types whose values the program compares with `==`.
use Prim.Native.Nat.{ℕ}
use mathlib.Core.Path.{◌≡◌}
use mathlib.Core.Logic.{◌↔◌}
use mathlib.Core.Bool.{Bool, true}
use lms_backend.Base.Tests.{◌==◌, ==_iff}
use lms_backend.Base.Codes.{Text, text_eq, text_eq_iff}

pub record Eq {ℓ} (A : Type ℓ) : Type ℓ where
  pub eqb : A → A → Bool
  pub eqb_iff : (a b : A) → (eqb a b ≡ true) ↔ (a ≡ b)

instance abbrev pub nat_eq : Eq ℕ
nat_eq = record { eqb = ◌==◌; eqb_iff = ==_iff }

instance abbrev pub list_eq : Eq Text
list_eq = record { eqb = text_eq; eqb_iff = text_eq_iff }
