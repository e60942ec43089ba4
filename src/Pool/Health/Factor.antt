-- ===== src/Pool/Health/Factor.antt =====
-- What the health factor weighs: pool/src/pool/health_factor.rs.
use native.Mathlib.Nat.{le-div_iff_mul-le, mul-div_cancel, le_of_mul-le-mul_left}
use blend_contracts.Base.{
  unwrap_ok, ℕ, zero, suc, >>=-eq-ok, ◌*◌, ◌/◌, ◌≤◌, ◌<◌, ◌≡◌, refl, Bool, false, Option, none,
  some, arith, ℤ, pos, eqb_ℤ, ltb_ℤ, ok, unwrap,
}
use blend_contracts.Base.FixedPoint.{FixedPoint, FixedPointLaws}
use blend_contracts.Pool.State.{scalar_7}
use blend_contracts.Pool.Health.{PositionData, as_health_factor, is_hf_under}

ok_same : {a b : Bool} → ok a ≡ ok b → a ≡ b
ok_same h = cc

cancel : (L m C k : ℕ) → 0 < k → k * m * L ≤ C * (10000000 * k) → L * m ≤ C * 10000000
cancel L m C k hk h = le_of_mul-le-mul_left {k = k} (omega arith) hk

scaled : (k m : ℕ) → 10000000 * k * m / 10000000 ≡ k * m
scaled k m =
    let e : 10000000 * k * m ≡ k * m * 10000000 = omega arith in
    rw e (mul-div_cancel (k * m) (omega arith))

module _ (math : FixedPoint) (laws : FixedPointLaws math) where
  -- the factor against a bound, whether the division gives a result or not
  bounded :
      (C L S n : ℕ) (o : Option ℤ)
      → 0 < L
      → math.div_floor (pos C) (pos L) (pos S) ≡ o
      → ltb_ℤ (elim o [ none ↦ pos 0 | some hf ↦ hf ]) (pos n) ≡ false
      → n * L ≤ C * S
  bounded C L S n none hL e h = let z : n ≡ 0 = ground arith in rw z (omega arith)
  bounded C L S n (some hf) hL e h =
      let v = laws.div_floor_value C L S hf hL e in
      let q : n ≤ C * S / L = ground (arith, v) in (le-div_iff_mul-le hL).0 q

  -- Where the scalar of the prices is a multiple of 10^7, positions that `is_hf_under` does not find
  -- under a minimum have effective collateral of at least the minimum (7 decimals) times the effective
  -- liabilities.
  pub is_hf_under_lem :
      (d : PositionData) (C L k m : ℕ)
      → d.collateral_base ≡ pos C
      → d.liability_base ≡ pos L
      → d.scalar ≡ pos (10000000 * k)
      → 0 < k
      → is_hf_under math (pos m) d ≡ ok false
      → L * m ≤ C * 10000000
  unfolding is_hf_under as_health_factor
  is_hf_under_lem d C zero k m eC eL eS hk h = omega arith
  is_hf_under_lem d C (suc L) k m eC eL eS hk h =
      let ne : eqb_ℤ d.liability_base (pos 0) ≡ false = rw eL (ground arith) in
      let r = >>=-eq-ok (unwrap (math.mul_floor d.scalar (pos m) (pos scalar_7))) _ (rw ne at h) in
      let em : math.mul_floor d.scalar (pos m) (pos scalar_7) ≡ some r.0 = unwrap_ok _ r.1 in
      let v = laws.mul_floor_value (10000000 * k) m scalar_7 r.0 (omega arith) (rw eS at em) in
      let e : math.div_floor (pos C) (pos (suc L)) (pos (10000000 * k))
          ≡ math.div_floor d.collateral_base d.liability_base d.scalar =
        rw (eC, eL, eS) refl in
      let b : ltb_ℤ
            (elim (math.div_floor d.collateral_base d.liability_base d.scalar) [
              | none ↦ pos 0
              | some hf ↦ hf
            ])
            r.0
          ≡ false =
        ok_same r.2 in
      cancel (suc L) m C k hk
        (bounded C (suc L) (10000000 * k) (k * m) _ (omega arith) e (rw (v, scaled k m) at b))
