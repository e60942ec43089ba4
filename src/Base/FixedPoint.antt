-- ===== src/Base/FixedPoint.antt =====
-- The interface of the crate soroban_fixed_point_math, which the program calls: `FixedPoint` for i128.
use Prim.Native.Nat.{ℕ, ◌+◌, ◌-◌, ◌*◌, ◌/◌, ◌^◌, ◌<◌}
use mathlib.Core.Path.{◌≡◌}
use mathlib.Core.Option.{Option, none, some}
use blend_contracts.Base.Int.{ℤ, pos, sub_ℕ}

pub record FixedPoint : Type 0 where
  -- `x.fixed_mul_floor(y, denominator)`, and so on
  pub mul_floor : ℤ → ℤ → ℤ → Option ℤ
  pub mul_ceil : ℤ → ℤ → ℤ → Option ℤ
  pub div_floor : ℤ → ℤ → ℤ → Option ℤ
  pub div_ceil : ℤ → ℤ → ℤ → Option ℤ

-- n / d rounded up.
abbrev pub ceil_div : ℕ → ℕ → ℕ
ceil_div n d = (n + d - 1) / d

-- What the crate documents: floor and ceiling of x * y / denominator, and of x * denominator / y,
-- where a result is given; that none is for a divisor of zero, and that one is given where the product fits into an i128.
pub record FixedPointLaws (f : FixedPoint) : Type 0 where
  pub mul_floor_value :
      (x y d : ℕ) (r : ℤ)
      → 0 < d
      → f.mul_floor (pos x) (pos y) (pos d) ≡ some r
      → r ≡ pos (x * y / d)
  pub mul_ceil_value :
      (x y d : ℕ) (r : ℤ)
      → 0 < d
      → f.mul_ceil (pos x) (pos y) (pos d) ≡ some r
      → r ≡ pos (ceil_div (x * y) d)
  pub mul_ceil_value_neg :
      (x y d : ℕ) (r : ℤ)
      → 0 < d
      → f.mul_ceil (pos x) (sub_ℕ 0 y) (pos d) ≡ some r
      → r ≡ sub_ℕ 0 (x * y / d)
  pub mul_ceil_neg_value :
      (x y d : ℕ) (r : ℤ)
      → 0 < d
      → f.mul_ceil (sub_ℕ 0 x) (pos y) (pos d) ≡ some r
      → r ≡ sub_ℕ 0 (x * y / d)
  pub div_floor_value :
      (x y d : ℕ) (r : ℤ)
      → 0 < y
      → f.div_floor (pos x) (pos y) (pos d) ≡ some r
      → r ≡ pos (x * d / y)
  pub div_ceil_value :
      (x y d : ℕ) (r : ℤ)
      → 0 < y
      → f.div_ceil (pos x) (pos y) (pos d) ≡ some r
      → r ≡ pos (ceil_div (x * d) y)
  pub div_ceil_zero : (x d : ℤ) → f.div_ceil x (pos 0) d ≡ none
  pub mul_floor_total :
      (x y d : ℕ)
      → 0 < d
      → x * y < 2 ^ 127
      → f.mul_floor (pos x) (pos y) (pos d) ≡ some (pos (x * y / d))
  pub mul_ceil_total :
      (x y d : ℕ)
      → 0 < d
      → x * y < 2 ^ 127
      → f.mul_ceil (pos x) (pos y) (pos d) ≡ some (pos (ceil_div (x * y) d))
