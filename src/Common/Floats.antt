-- ===== src/Common/Floats.antt =====
-- Go's float64, which antt has none of: the operations that the program uses are a parameter. The
-- laws are stated apart, and only the theorems that need them take them. NaN breaks them, so they
-- say that no NaN takes part.
use bakery_go.Common.Int.{ℤ}
use mathlib.Core.Path.{◌≡◌}
use mathlib.Core.Bool.{Bool, true, false}

pub record Floats (F : Type 0) : Type 0 where
  pub zero : F
  pub one : F
  pub add : F → F → F
  pub sub : F → F → F
  pub mul : F → F → F
  pub of_int : ℤ → F
  pub lt : F → F → Bool
  pub eq : F → F → Bool

-- The order of float64 values other than NaN.
pub record Ordered {F : Type 0} (fl : Floats F) : Type 0 where
  pub irrefl : (a : F) → fl.lt a a ≡ false
  pub trans : (a b c : F) → fl.lt a b ≡ true → fl.lt b c ≡ true → fl.lt a c ≡ true
  pub eq_true : (a b : F) → fl.eq a b ≡ true → a ≡ b
  pub eq_false : (a b : F) → fl.lt a b ≡ false → fl.lt b a ≡ false → fl.eq a b ≡ true
