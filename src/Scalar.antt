-- ===== src/Scalar.antt =====
-- Python's `float`, of which the development assumes only what it is handed: the operations the
-- program calls, and for the theorems on order the laws of a comparison without NaN.
pub mod Fixed
use normeon_german_technical.Prelude.{ℕ, Bool, ◌≡◌, true, false, not, ◌&&◌}

pub record FloatOps (F : Type 0) : Type 0 where
  -- `0.0`, `1.0`
  pub zero : F
  pub one : F
  pub add : F → F → F
  pub sub : F → F → F
  pub mul : F → F → F
  pub neg : F → F
  -- `x / n`, by an integer
  pub div_int : F → ℕ → F
  -- `n / m`, of two integers
  pub ratio : ℕ → ℕ → F
  -- `float(n)`, `round(x, digits)`
  pub of_int : ℕ → F
  pub round : F → ℕ → F
  -- `x < y`, `x == y`
  pub lt : F → F → Bool
  pub eq : F → F → Bool

-- The laws of `<` and `==` where no value is NaN.
pub record FloatLaws {F : Type 0} (fl : FloatOps F) : Type 0 where
  pub asymm : (x y : F) → fl.lt x y ≡ true → fl.lt y x ≡ false
  pub trans : (x y z : F) → fl.lt y x ≡ false → fl.lt z y ≡ false → fl.lt z x ≡ false
  pub eq_lem : (x y : F) → fl.eq x y ≡ (not (fl.lt x y) && not (fl.lt y x))
  pub lt-neg : (x y : F) → fl.lt (fl.neg x) (fl.neg y) ≡ fl.lt y x
