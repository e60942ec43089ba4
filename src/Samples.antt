-- ===== src/Samples.antt =====
-- Concrete stand-ins for the code that the program calls, at which the theorems are tried out.
use native.Mathlib.Nat.{div-eq_of_lt, zero-div}
use blend_contracts.Base.{
  ℕ, zero, suc, ◌+◌, ◌-◌, ◌*◌, ◌/◌, ◌^◌, ◌<◌, ◌≡◌, refl, Bool, true, false, Option, none, some,
  arith, leb, if◌then◌else◌, ℤ, pos, negsuc, sub_ℕ, ◌*ℤ◌, pos-*ℤ, fits_i128,
}
use blend_contracts.Base.FixedPoint.{FixedPoint, FixedPointLaws, ceil_div}
use blend_contracts.Base.Host.{Env, TokenClient}
use blend_contracts.Backstop.State.{Dependencies}

-- Exact quotients, for products that fit into an i128 and divisors that are not negative.
unfoldable pub floor_of : ℤ → ℤ → Option ℤ
floor_of n (pos zero) = none
floor_of (pos n) (pos (suc d)) = some (pos (n / suc d))
floor_of (negsuc n) (pos (suc d)) = some (negsuc (n / suc d))
floor_of n (negsuc d) = none

unfoldable pub ceil_of : ℤ → ℤ → Option ℤ
ceil_of n (pos zero) = none
ceil_of (pos n) (pos (suc d)) = some (pos (ceil_div n (suc d)))
ceil_of (negsuc n) (pos (suc d)) = some (sub_ℕ 0 (suc n / suc d))
ceil_of n (negsuc d) = none

abbrev pub floor_op : ℤ → ℤ → ℤ → Option ℤ
floor_op x y d = if fits_i128 (x *ℤ y) then floor_of (x *ℤ y) d else none

abbrev pub ceil_op : ℤ → ℤ → ℤ → Option ℤ
ceil_op x y d = if fits_i128 (x *ℤ y) then ceil_of (x *ℤ y) d else none

abbrev pub exact : FixedPoint
exact = record {
  mul_floor = floor_op;
  mul_ceil = ceil_op;
  div_floor = λ x y d. floor_op x d y;
  div_ceil = λ x y d. ceil_op x d y;
}

floor_of_pos : (n d : ℕ) → 0 < d → floor_of (pos n) (pos d) ≡ some (pos (n / d))
unfolding floor_of
floor_of_pos n zero h = absurd (omega arith)
floor_of_pos n (suc d) h = refl

ceil_of_pos : (n d : ℕ) → 0 < d → ceil_of (pos n) (pos d) ≡ some (pos (ceil_div n d))
unfolding ceil_of
ceil_of_pos n zero h = absurd (omega arith)
ceil_of_pos n (suc d) h = refl

leb-suc : (n : ℕ) → leb (suc n) 0 ≡ false
leb-suc n = ground arith

ceil_of_neg : (n d : ℕ) → 0 < d → ceil_of (sub_ℕ 0 n) (pos d) ≡ some (sub_ℕ 0 (n / d))
unfolding ceil_of
ceil_of_neg n zero h = absurd (omega arith)
ceil_of_neg zero (suc d) h =
    rw (zero-div, div-eq_of_lt {n = 0 - 0 + suc d - 1} {m = suc d} (omega arith))
ceil_of_neg (suc n) (suc d) h = let e : suc n - 0 - 1 ≡ n = omega arith in rw (leb-suc n, e) refl

pos-*ℤ-neg : (x y : ℕ) → pos x *ℤ sub_ℕ 0 y ≡ sub_ℕ 0 (x * y)
unfolding ◌*ℤ◌
pos-*ℤ-neg x y = ground arith

value : (b : Bool) (o : Option ℤ) (v r : ℤ) → o ≡ some v → (if b then o else none) ≡ some r → r ≡ v
value true o v r e h = ground arith
value false o v r e h = cc

fits_small : (n : ℕ) → n < 2 ^ 127 → fits_i128 (pos n) ≡ true
unfolding fits_i128
fits_small n h = ground arith

floor_op_value :
    (x y d : ℕ) (r : ℤ) → 0 < d → floor_op (pos x) (pos y) (pos d) ≡ some r → r ≡ pos (x * y / d)
floor_op_value x y d r h e =
    value (fits_i128 (pos x *ℤ pos y)) _ _ r (rw pos-*ℤ (floor_of_pos (x * y) d h)) e

ceil_op_value :
    (x y d : ℕ) (r : ℤ)
    → 0 < d
    → ceil_op (pos x) (pos y) (pos d) ≡ some r
    → r ≡ pos (ceil_div (x * y) d)
ceil_op_value x y d r h e =
    value (fits_i128 (pos x *ℤ pos y)) _ _ r (rw pos-*ℤ (ceil_of_pos (x * y) d h)) e

ceil_op_value_neg :
    (x y d : ℕ) (r : ℤ)
    → 0 < d
    → ceil_op (pos x) (sub_ℕ 0 y) (pos d) ≡ some r
    → r ≡ sub_ℕ 0 (x * y / d)
ceil_op_value_neg x y d r h e =
    value (fits_i128 (pos x *ℤ sub_ℕ 0 y)) _ _ r (rw pos-*ℤ-neg (ceil_of_neg (x * y) d h)) e

neg-*ℤ-pos : (x y : ℕ) → sub_ℕ 0 x *ℤ pos y ≡ sub_ℕ 0 (x * y)
unfolding ◌*ℤ◌
neg-*ℤ-pos x y = ground arith

ceil_op_neg_value :
    (x y d : ℕ) (r : ℤ)
    → 0 < d
    → ceil_op (sub_ℕ 0 x) (pos y) (pos d) ≡ some r
    → r ≡ sub_ℕ 0 (x * y / d)
ceil_op_neg_value x y d r h e =
    value (fits_i128 (sub_ℕ 0 x *ℤ pos y)) _ _ r (rw neg-*ℤ-pos (ceil_of_neg (x * y) d h)) e

floor_op_total :
    (x y d : ℕ)
    → 0 < d
    → x * y < 2 ^ 127
    → floor_op (pos x) (pos y) (pos d) ≡ some (pos (x * y / d))
floor_op_total x y d h k = rw pos-*ℤ (rw (fits_small (x * y) k) (floor_of_pos (x * y) d h))

ceil_op_total :
    (x y d : ℕ)
    → 0 < d
    → x * y < 2 ^ 127
    → ceil_op (pos x) (pos y) (pos d) ≡ some (pos (ceil_div (x * y) d))
ceil_op_total x y d h k = rw pos-*ℤ (rw (fits_small (x * y) k) (ceil_of_pos (x * y) d h))

no_result : (b : Bool) → ◌≡◌ {A = Option ℤ} (if b then none else none) none
no_result true = refl
no_result false = refl

div_zero : (x d : ℤ) → ceil_op x d (pos 0) ≡ none
unfolding ceil_of
div_zero x d = rw (ceil_zero (x *ℤ d)) (no_result (fits_i128 (x *ℤ d)))
  where
    ceil_zero : (n : ℤ) → ceil_of n (pos 0) ≡ none
    ceil_zero (pos n) = refl
    ceil_zero (negsuc n) = refl

pub exact_laws : FixedPointLaws exact
exact_laws = record {
  mul_floor_value = floor_op_value;
  mul_ceil_value = ceil_op_value;
  mul_ceil_value_neg = ceil_op_value_neg;
  mul_ceil_neg_value = ceil_op_neg_value;
  div_floor_value = λ x y d. floor_op_value x d y;
  div_ceil_value = λ x y d. ceil_op_value x d y;
  div_ceil_zero = div_zero;
  mul_floor_total = floor_op_total;
  mul_ceil_total = ceil_op_total;
}

-- Token contracts on which every transfer succeeds, and a backstop's neighbours.
abbrev pub free_tokens : TokenClient (Unit {0})
free_tokens = record {
  balance = λ c token owner. pos 1000;
  transfer = λ c token from to x. some tt;
  mint = λ c token to x. some tt;
}

abbrev pub neighbours : Dependencies (Unit {0})
neighbours = record {
  is_pool = λ c factory pool. true;
  get_total_supply = λ c token. pos 500;
  dep_tokn_amt_in_get_lp_tokns_out = λ c lp token amount least to. some (amount, tt);
}

abbrev pub env_at : ℕ → Env
env_at now = record {
  timestamp = now;
  sequence = 100;
  current_contract_address = 1;
  authorized = λ a. true;
}
