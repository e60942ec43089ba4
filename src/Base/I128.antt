-- ===== src/Base/I128.antt =====
-- Machine integers under `overflow-checks = true` (Cargo.toml): an operation whose exact result does
-- not fit traps. An i128 is an integer, a u64 or u32 a natural number.
use Prim.Native.Nat.{ℕ, ◌+◌, ◌-◌, ◌*◌, ◌^◌, ◌≤◌}
use mathlib.Core.Path.{◌≡◌}
use mathlib.Core.Bool.{Bool, true}
use native.Mathlib.Omega.{arith}
use blend_contracts.Base.Tests.{ltb, leb, if◌then◌else◌}
use blend_contracts.Base.Int.{ℤ, pos, negsuc, ◌+ℤ◌, ◌-ℤ◌, ◌*ℤ◌, ◌≤ℤ◌}
use blend_contracts.Base.Errors.{overflow, unwrapped}
use blend_contracts.Base.Control.{Outcome, ok, panic}

abbrev pub i128_max : ℕ
i128_max = 2 ^ 127 - 1

unfoldable pub fits_i128 : ℤ → Bool
fits_i128 (pos n) = leb n i128_max
fits_i128 (negsuc n) = leb n i128_max

unfoldable pub checked : ℤ → Outcome ℤ
checked z = if fits_i128 z then ok z else panic overflow

-- `a + b`, `a - b` and `a * b` of i128.
abbrev pub add_i128 : ℤ → ℤ → Outcome ℤ
add_i128 a b = checked (a +ℤ b)

abbrev pub sub_i128 : ℤ → ℤ → Outcome ℤ
sub_i128 a b = checked (a -ℤ b)

abbrev pub mul_i128 : ℤ → ℤ → Outcome ℤ
mul_i128 a b = checked (a *ℤ b)

abbrev pub saturate : ℤ → ℤ
saturate (pos n) = if leb n i128_max then pos n else pos i128_max
saturate (negsuc n) = if leb n i128_max then negsuc n else negsuc i128_max

-- `i128::saturating_mul`.
unfoldable pub saturating_mul : ℤ → ℤ → ℤ
saturating_mul a b = saturate (a *ℤ b)

-- A u64 read as an i64 (`as i64`), and `a - b` of i64.
abbrev pub as_i64 : ℕ → ℤ
as_i64 n = if ltb n (2 ^ 63) then pos n else pos n -ℤ pos (2 ^ 64)

abbrev pub checked_i64 : ℤ → Outcome ℤ
checked_i64 (pos n) = if ltb n (2 ^ 63) then ok (pos n) else panic overflow
checked_i64 (negsuc n) = if ltb n (2 ^ 63) then ok (negsuc n) else panic overflow

unfoldable pub sub_i64 : ℤ → ℤ → Outcome ℤ
sub_i64 a b = checked_i64 (a -ℤ b)

-- `a + b`, `a - b` and `a * b` of an unsigned integer of `w` bits.
unfoldable pub add_u : ℕ → ℕ → ℕ → Outcome ℕ
add_u w a b = if ltb (a + b) (2 ^ w) then ok (a + b) else panic overflow

unfoldable pub sub_u : ℕ → ℕ → Outcome ℕ
sub_u a b = if leb b a then ok (a - b) else panic overflow

unfoldable pub mul_u : ℕ → ℕ → ℕ → Outcome ℕ
mul_u w a b = if ltb (a * b) (2 ^ w) then ok (a * b) else panic overflow

-- A checked operation that does not trap gives the exact result.
pub checked_ok : (z : ℤ) {r : ℤ} → checked z ≡ ok r → r ≡ z
unfolding checked
checked_ok z h = ground arith

-- Between 0 and a number that fits every number fits.
pub fits_below : (a b : ℤ) → pos 0 ≤ℤ a → a ≤ℤ b → fits_i128 b ≡ true → fits_i128 a ≡ true
unfolding fits_i128
fits_below (pos a) (pos b) n h f = ground arith
fits_below (pos a) (negsuc b) n h f = absurd (omega arith)
fits_below (negsuc a) (pos b) n h f = absurd (omega arith)
fits_below (negsuc a) (negsuc b) n h f = absurd (omega arith)

-- `u64(x).unwrap_optimized()` of an i128.
unfoldable pub to_u64 : ℤ → Outcome ℕ
to_u64 (pos n) = if ltb n (2 ^ 64) then ok n else panic unwrapped
to_u64 (negsuc n) = panic unwrapped

pub sub_u_ok : (a b : ℕ) {d : ℕ} → sub_u a b ≡ ok d → (b ≤ a) × (d ≡ a - b)
unfolding sub_u
sub_u_ok a b h = ground arith
