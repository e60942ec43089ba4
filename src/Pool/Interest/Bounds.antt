-- ===== src/Pool/Interest/Bounds.antt =====
-- The rate modifier stays between its bounds, and interest is never negative: `calc_accrual` of
-- pool/src/pool/interest.rs.
use blend_contracts.Base.{
  unwrap_ok, ℕ, ◌<◌, ◌≡◌, refl, some, arith, if◌then◌else◌, ℤ, pos, negsuc, pos_part, neg_part,
  sub_ℕ, zero, suc, +ℤ_parts, ◌+ℤ◌, ◌≤ℤ◌, ◌<ℤ◌, leb_ℤ, ltb_ℤ, pos_of_nonneg, unwrap, add_i128,
  sub_i128, mul_i128, checked_ok, Ensures, Ensures-ok, Ensures-bind, Ensures-if,
}
use blend_contracts.Base.FixedPoint.{FixedPoint, FixedPointLaws}
use blend_contracts.Pool.State.{ReserveConfig, scalar_7, scalar_9}
use blend_contracts.Pool.Interest.{next_ir_mod, ir_mod_max, ir_mod_min}

-- A sum over the bound is cut down to it.
clamp_above :
    (m rate next : ℤ)
    → pos 0 ≤ℤ rate
    → ir_mod_min ≤ℤ m
    → next ≡ m +ℤ rate
    → (ir_mod_min ≤ℤ (if ltb_ℤ ir_mod_max next then ir_mod_max else next))
      × ((if ltb_ℤ ir_mod_max next then ir_mod_max else next) ≤ℤ ir_mod_max)
clamp_above m rate next h lo e = let s = +ℤ_parts m rate in rw e (ground (arith, s))

clamp_below :
    (m rate next : ℤ)
    → rate ≤ℤ pos 0
    → m ≤ℤ ir_mod_max
    → next ≡ m +ℤ rate
    → (ir_mod_min ≤ℤ (if ltb_ℤ next ir_mod_min then ir_mod_min else next))
      × ((if ltb_ℤ next ir_mod_min then ir_mod_min else next) ≤ℤ ir_mod_max)
clamp_below m rate next h hi e = let s = +ℤ_parts m rate in rw e (ground (arith, s))

neg_of_nonpos : (z : ℤ) → z ≤ℤ pos 0 → z ≡ sub_ℕ 0 (neg_part z)
neg_of_nonpos (pos zero) h = refl
neg_of_nonpos (pos (suc n)) h = absurd (omega arith)
neg_of_nonpos (negsuc n) h = ground arith

sub_ℕ_nonpos : (n : ℕ) → sub_ℕ 0 n ≤ℤ pos 0
sub_ℕ_nonpos n = ground arith

module _ (math : FixedPoint) (laws : FixedPointLaws math) where
  pub mul_floor_nonneg :
      (x y r : ℤ) (d : ℕ)
      → 0 < d
      → pos 0 ≤ℤ x
      → pos 0 ≤ℤ y
      → math.mul_floor x y (pos d) ≡ some r
      → pos 0 ≤ℤ r
  mul_floor_nonneg x y r d h hx hy e =
      rw (laws.mul_floor_value _ _ d r h (rw (pos_of_nonneg x hx, pos_of_nonneg y hy) at e))
        (omega arith)

  pub mul_ceil_nonneg :
      (x y r : ℤ) (d : ℕ)
      → 0 < d
      → pos 0 ≤ℤ x
      → pos 0 ≤ℤ y
      → math.mul_ceil x y (pos d) ≡ some r
      → pos 0 ≤ℤ r
  mul_ceil_nonneg x y r d h hx hy e =
      rw (laws.mul_ceil_value _ _ d r h (rw (pos_of_nonneg x hx, pos_of_nonneg y hy) at e))
        (omega arith)

  pub div_ceil_nonneg :
      (x y r : ℤ) (d : ℕ)
      → pos 0 <ℤ y
      → pos 0 ≤ℤ x
      → math.div_ceil x y (pos d) ≡ some r
      → pos 0 ≤ℤ r
  div_ceil_nonneg x y r d hy hx e =
      rw
        (laws.div_ceil_value _ (pos_part y) d r (omega arith)
          (rw (pos_of_nonneg x hx, pos_of_nonneg y (omega arith)) at e))
        (omega arith)

  mul_ceil_nonpos :
      (x y r : ℤ) (d : ℕ)
      → 0 < d
      → pos 0 ≤ℤ x
      → y ≤ℤ pos 0
      → math.mul_ceil x y (pos d) ≡ some r
      → r ≤ℤ pos 0
  mul_ceil_nonpos x y r d h hx hy e =
      rw (laws.mul_ceil_value_neg _ _ d r h (rw (pos_of_nonneg x hx, neg_of_nonpos y hy) at e))
        (sub_ℕ_nonpos _)

  mul_ceil_nonpos_left :
      (x y r : ℤ) (d : ℕ)
      → 0 < d
      → x ≤ℤ pos 0
      → pos 0 ≤ℤ y
      → math.mul_ceil x y (pos d) ≡ some r
      → r ≤ℤ pos 0
  mul_ceil_nonpos_left x y r d h hx hy e =
      rw (laws.mul_ceil_neg_value _ _ d r h (rw (pos_of_nonneg y hy, neg_of_nonpos x hx) at e))
        (sub_ℕ_nonpos _)

  -- Kept between 0.1 and 10, once it is there.
  pub next_ir_mod-bounds :
      (config : ReserveConfig) (cur_util ir_mod delta : ℤ)
      → pos 0 ≤ℤ delta
      → ir_mod_min ≤ℤ ir_mod
      → ir_mod ≤ℤ ir_mod_max
      → Ensures
          (λ r. (ir_mod_min ≤ℤ r) × (r ≤ℤ ir_mod_max))
          (next_ir_mod math config cur_util ir_mod delta)
  unfolding next_ir_mod
  next_ir_mod-bounds config cur_util ir_mod delta hd lo hi =
      Ensures-bind (sub_i128 cur_util (pos config.util)) _ λ dif _.
        Ensures-bind (mul_i128 dif (pos 100)) _ λ u _.
          Ensures-if (leb_ℤ (pos 0) u) _ _
            (λ up. Ensures-bind (unwrap (math.mul_floor delta u (pos scalar_9))) _ λ err ee.
              Ensures-bind (unwrap (math.mul_floor err (pos config.reactivity) (pos scalar_7))) _
                λ rate er. Ensures-bind (add_i128 ir_mod rate) _ λ next en.
                  let he =
                    mul_floor_nonneg delta u err _ (omega arith) hd (ground arith)
                      (unwrap_ok _ ee) in
                  let hr =
                    mul_floor_nonneg err _ rate _ (omega arith) he (omega arith) (unwrap_ok _ er) in
                  Ensures-ok _ (clamp_above ir_mod rate next hr lo (checked_ok _ en)))
            (λ down. Ensures-bind (unwrap (math.mul_ceil delta u (pos scalar_9))) _ λ err ee.
              Ensures-bind (unwrap (math.mul_ceil err (pos config.reactivity) (pos scalar_7))) _
                λ rate er. Ensures-bind (add_i128 ir_mod rate) _ λ next en.
                  let he =
                    mul_ceil_nonpos delta u err _ (omega arith) hd (ground arith)
                      (unwrap_ok _ ee) in
                  let hr =
                    mul_ceil_nonpos_left err _ rate _ (omega arith) he (omega arith)
                      (unwrap_ok _ er) in
                  Ensures-ok _ (clamp_below ir_mod rate next hr hi (checked_ok _ en)))
