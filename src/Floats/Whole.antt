-- ===== src/Floats/Whole.antt =====
-- Whole numbers as a model of the interface, for concrete runs.
use omniserve_native.Prelude.{ℕ, ◌/◌, ◌^◌}
use omniserve_native.Prelude.Int.{ℤ, pos, negsuc, ◌+ℤ◌, ◌-ℤ◌, ◌*ℤ◌, ltb_ℤ, leb_ℤ}
use omniserve_native.Floats.{DoubleOps}

-- Division rounds the absolute value down; by zero it gives 0.
abbrev div_ℤ : ℤ → ℤ → ℤ
div_ℤ (pos a) (pos b) = pos (a / b)
div_ℤ (pos a) (negsuc b) = pos 0 -ℤ pos (a / (ℕ.suc b))
div_ℤ (negsuc a) (pos b) = pos 0 -ℤ pos (ℕ.suc a / b)
div_ℤ (negsuc a) (negsuc b) = pos (ℕ.suc a / ℕ.suc b)

abbrev pub whole : DoubleOps
whole = record {
  Double = ℤ;
  dec = λ m k. pos (m / 10 ^ k);
  of_int = λ i. i;
  to_int = λ d. d;
  add = ◌+ℤ◌;
  sub = ◌-ℤ◌;
  mul = ◌*ℤ◌;
  div = div_ℤ;
  lt = ltb_ℤ;
  le = leb_ℤ;
}
