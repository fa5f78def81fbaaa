-- ===== src/Floats.antt =====
-- C `double` as an interface: the type, the literals and the operations that the sources use.
-- Nothing is assumed of them here; a theorem that needs a law names it as a hypothesis.
pub mod Whole
use omniserve_native.Prelude.{ℕ, Bool}
use omniserve_native.Prelude.Int.{ℤ}

pub record DoubleOps : Type 1 where
  pub Double : Type 0
  -- `m * 10 ^ -k`, a decimal literal.
  pub dec : ℕ → ℕ → Double
  -- `(double)i` and `(long)d`.
  pub of_int : ℤ → Double
  pub to_int : Double → ℤ
  pub add : Double → Double → Double
  pub sub : Double → Double → Double
  pub mul : Double → Double → Double
  pub div : Double → Double → Double
  -- `a < b` and `a <= b`.
  pub lt : Double → Double → Bool
  pub le : Double → Double → Bool
