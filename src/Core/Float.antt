-- ===== src/Core/Float.antt =====
-- C++ `double`: a type of values with the operations that the code makes of them. The arithmetic is
-- the compiler's and the processor's, so it is a parameter of every definition that uses it.
use rev_dash.Prelude.{ℕ, Bool}

pub record Float (F : Type 0) : Type 0 where
  -- `static_cast<double>` of an unsigned integer
  pub of_nat : ℕ → F
  -- the literal `m / 10 ^ digits`
  pub literal : (m digits : ℕ) → F
  pub neg : F → F
  pub add : F → F → F
  pub sub : F → F → F
  pub mul : F → F → F
  pub div : F → F → F
  pub lt : F → F → Bool
  pub eq : F → F → Bool
  pub is_finite : F → Bool
