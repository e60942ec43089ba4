-- ===== src/Pool/Reserve/Quotients.antt =====
-- Rounded quotients, as the rates of a reserve use them (pool/src/pool/reserve.rs).
use native.Mathlib.Nat.{
  mul-div-le, div-mul-le_self, le-div_iff_mul-le, div-lt_iff_lt-mul, lt-div-mul-add,
  div-le_of_le-mul,
}
use blend_contracts.Base.{ℕ, ◌+◌, ◌-◌, ◌*◌, ◌/◌, ◌≤◌, ◌<◌, arith}
use blend_contracts.Base.FixedPoint.{ceil_div}

pub d_rate_up : (a d S : ℕ) → 0 < S → S ≤ a → d ≤ ceil_div (a * d) S
d_rate_up a d S h k = (le-div_iff_mul-le h).1 (omega (arith, times d S a k))
  where
    times : (d S a : ℕ) → S ≤ a → d * S ≤ a * d
    times d S a k = grind arith

pub div_mono : (x y S : ℕ) → 0 < S → x ≤ y → x / S ≤ y / S
div_mono x y S h k = (le-div_iff_mul-le h).1 (omega (arith, div-mul-le_self x S))

pub owed_mono : (D d d' S : ℕ) → 0 < S → d ≤ d' → ceil_div (D * d) S ≤ ceil_div (D * d') S
owed_mono D d d' S h k = div_mono _ _ S h (omega (arith, times))
  where
    times : D * d ≤ D * d'
    times = grind arith

pub b_rate_up : (B b A c S : ℕ) → 0 < B → 0 < S → c < A → b ≤ (B * b / S + A - c) * S / B
b_rate_up B b A c S hB hS h =
    (le-div_iff_mul-le hB).1
      (one_more (B * b / S) (B * b / S + A - c) (omega arith) (lt-div-mul-add hS))
  where
    one_more : (q k : ℕ) → q < k → B * b < q * S + S → b * B ≤ k * S
    one_more q k l n = grind arith

pub credit_small : (A rate S : ℕ) → 0 < S → 0 < A → rate < S → A * rate / S < A
credit_small A rate S hS hA h = (div-lt_iff_lt-mul hS).1 (grind arith)

pub paid_back : (B K S : ℕ) → 0 < S → B * (K * S / B) / S ≤ K
paid_back B K S h = div-le_of_le-mul S (omega (arith, mul-div-le (K * S) B))
