-- ===== src/Pool/Reserve/Rounding.antt =====
-- Which way a reserve rounds: the conversions of pool/src/pool/reserve.rs.
use native.Mathlib.Nat.{div-mul-le_self, le-div_iff_mul-le, lt-div-mul-add, div-le_of_le-mul}
use blend_contracts.Base.{unwrap_ok, ℕ, ◌+◌, ◌-◌, ◌*◌, ◌/◌, ◌≤◌, ◌<◌, ◌≡◌, arith, ℤ, pos, ◌≤ℤ◌, ok}
use blend_contracts.Base.FixedPoint.{FixedPoint, FixedPointLaws, ceil_div}
use blend_contracts.Pool.State.{scalar_9}
use blend_contracts.Pool.Reserve.{
  Reserve, to_asset_from_b_token, to_asset_from_d_token, to_b_token_up, to_b_token_down,
  to_d_token_up, to_d_token_down,
}

-- n / d rounded up, at least.
ceil_div-ge : (n d : ℕ) → 0 < d → n ≤ ceil_div n d * d
ceil_div-ge n d h = omega (arith, lt-div-mul-add {a = n + d - 1} h)

pub ceil_div-le_of_le-mul : (n d k : ℕ) → 0 < d → n ≤ k * d → ceil_div n d ≤ k
ceil_div-le_of_le-mul n d k h l = below (ceil_div n d) (div-mul-le_self (n + d - 1) d)
  where
    below : (q : ℕ) → q * d ≤ n + d - 1 → q ≤ k
    below q b = grind arith

-- b tokens bought with an amount, and sold: the floor of the floor.
down_down : (x r S : ℕ) → 0 < r → 0 < S → x * S / r * r / S ≤ x
down_down x r S hr hS = div-le_of_le-mul S (omega (arith, div-mul-le_self (x * S) r))

up_down : (x r S : ℕ) → 0 < r → 0 < S → x ≤ ceil_div (x * S) r * r / S
up_down x r S hr hS = (le-div_iff_mul-le hS).1 (ceil_div-ge (x * S) r hr)

up_up : (x r S : ℕ) → 0 < r → 0 < S → x ≤ ceil_div (ceil_div (x * S) r * r) S
up_up x r S hr hS = (le-div_iff_mul-le hS).1 (omega (arith, ceil_div-ge (x * S) r hr))

down_up : (x r S : ℕ) → 0 < r → 0 < S → ceil_div (x * S / r * r) S ≤ x
down_up x r S hr hS = ceil_div-le_of_le-mul _ S x hS (div-mul-le_self (x * S) r)

module _ (math : FixedPoint) (laws : FixedPointLaws math) where
  -- At a positive rate, where the conversions give results, the b tokens minted for an amount are
  -- worth at most the amount, and those burned for it at least the amount.
  pub b_token_rounding :
      (r : Reserve) (x rate : ℕ) {m b vm vb : ℤ}
      → r.b_rate ≡ pos rate
      → 0 < rate
      → to_b_token_down math r (pos x) ≡ ok m
      → to_b_token_up math r (pos x) ≡ ok b
      → to_asset_from_b_token math r m ≡ ok vm
      → to_asset_from_b_token math r b ≡ ok vb
      → (vm ≤ℤ pos x) × (pos x ≤ℤ vb)
  unfolding to_b_token_down to_b_token_up to_asset_from_b_token
  b_token_rounding r x rate {m} {b} {vm} {vb} er hr hm hb hvm hvb =
      let em = laws.div_floor_value x rate scalar_9 m hr (ground (arith, unwrap_ok _ hm)) in
      let eb = laws.div_ceil_value x rate scalar_9 b hr (ground (arith, unwrap_ok _ hb)) in
      let em' =
        laws.mul_floor_value (x * scalar_9 / rate) rate scalar_9 vm (omega arith)
          (ground (arith, unwrap_ok _ hvm)) in
      let eb' =
        laws.mul_floor_value (ceil_div (x * scalar_9) rate) rate scalar_9 vb (omega arith)
          (ground (arith, unwrap_ok _ hvb)) in
      rw (em', eb')
        (
          omega (arith, down_down x rate scalar_9 hr (omega arith)),
          omega (arith, up_down x rate scalar_9 hr (omega arith)),
        )

  -- At a positive rate, where the conversions give results, the debt for an amount that is
  -- borrowed is at least the amount, and the debt that a payment cancels is at most the payment.
  pub d_token_rounding :
      (r : Reserve) (x rate : ℕ) {m b vm vb : ℤ}
      → r.d_rate ≡ pos rate
      → 0 < rate
      → to_d_token_up math r (pos x) ≡ ok m
      → to_d_token_down math r (pos x) ≡ ok b
      → to_asset_from_d_token math r m ≡ ok vm
      → to_asset_from_d_token math r b ≡ ok vb
      → (pos x ≤ℤ vm) × (vb ≤ℤ pos x)
  unfolding to_d_token_down to_d_token_up to_asset_from_d_token
  d_token_rounding r x rate {m} {b} {vm} {vb} er hr hm hb hvm hvb =
      let em = laws.div_ceil_value x rate scalar_9 m hr (ground (arith, unwrap_ok _ hm)) in
      let eb = laws.div_floor_value x rate scalar_9 b hr (ground (arith, unwrap_ok _ hb)) in
      let em' =
        laws.mul_ceil_value (ceil_div (x * scalar_9) rate) rate scalar_9 vm (omega arith)
          (ground (arith, unwrap_ok _ hvm)) in
      let eb' =
        laws.mul_ceil_value (x * scalar_9 / rate) rate scalar_9 vb (omega arith)
          (ground (arith, unwrap_ok _ hvb)) in
      rw (em', eb')
        (
          omega (arith, up_up x rate scalar_9 hr (omega arith)),
          omega (arith, down_up x rate scalar_9 hr (omega arith)),
        )
