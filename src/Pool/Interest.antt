-- ===== src/Pool/Interest.antt =====
-- The interest a reserve accrues: pool/src/pool/interest.rs.
use blend_contracts.Base.{
  ℕ, ◌+◌, ◌-◌, ◌*◌, Bool, true, false, if◌then◌else◌, ltb, ℤ, pos, leb_ℤ, ltb_ℤ, div_ℤ, Outcome, ok,
  panic, ◌>>=◌, unwrap, add_i128, sub_i128, mul_i128, add_u, sub_u,
}
use blend_contracts.Base.FixedPoint.{FixedPoint}
use blend_contracts.Base.Host.{Env}
use blend_contracts.Pool.State.{ReserveConfig, scalar_7, scalar_9, seconds_per_year}
pub mod Bounds
pub mod Accrual

-- 95 percent, 7 decimals.
abbrev pub util_limit : ℕ
util_limit = 9500000

abbrev pub ir_mod_max : ℤ
ir_mod_max = pos 10000000000

abbrev pub ir_mod_min : ℤ
ir_mod_min = pos 100000000

-- The time since the last update, 9 decimals. An update from the future counts as 500 seconds old.
unfoldable pub delta_time : Env → ℕ → Outcome ℤ
delta_time e last_time = do
  last_time' ← (if ltb e.timestamp last_time then sub_u e.timestamp 500 else ok last_time)
  seconds ← sub_u e.timestamp last_time'
  mul_i128 (pos seconds) (pos scalar_9)

module _ (math : FixedPoint) where
  -- The rate at a utilization: the three pieces of the curve.
  unfoldable pub current_ir : ReserveConfig → ℤ → ℤ → Outcome ℤ
  current_ir config cur_util ir_mod =
      let target_util = pos config.util in
      if leb_ℤ cur_util target_util
      then (do
        util_scalar ← unwrap (math.div_ceil cur_util target_util (pos scalar_7))
        slope ← unwrap (math.mul_ceil util_scalar (pos config.r_one) (pos scalar_7))
        base_rate ← add_i128 slope (pos config.r_base)
        unwrap (math.mul_ceil base_rate ir_mod (pos scalar_9)))
      else (if leb_ℤ cur_util (pos util_limit)
          then (do
            above ← sub_i128 cur_util target_util
            width ← sub_i128 (pos util_limit) target_util
            util_scalar ← unwrap (math.div_ceil above width (pos scalar_7))
            slope ← unwrap (math.mul_ceil util_scalar (pos config.r_two) (pos scalar_7))
            with_one ← add_i128 slope (pos config.r_one)
            base_rate ← add_i128 with_one (pos config.r_base)
            unwrap (math.mul_ceil base_rate ir_mod (pos scalar_9)))
          else (do
            above ← sub_i128 cur_util (pos util_limit)
            util_scalar ← unwrap (math.div_ceil above (pos 500000) (pos scalar_7))
            extra_rate ← unwrap (math.mul_ceil util_scalar (pos config.r_three) (pos scalar_7))
            two_one ← add_u 32 config.r_two config.r_one
            rates ← add_u 32 two_one config.r_base
            intersection ← unwrap (math.mul_ceil ir_mod (pos rates) (pos scalar_9))
            add_i128 extra_rate intersection))

  -- The next rate modifier, kept between its bounds.
  unfoldable pub next_ir_mod : ReserveConfig → ℤ → ℤ → ℤ → Outcome ℤ
  next_ir_mod config cur_util ir_mod delta_time_scaled = do
    dif ← sub_i128 cur_util (pos config.util)
    util_dif_scaled ← mul_i128 dif (pos 100)
    if leb_ℤ (pos 0) util_dif_scaled
        then (do
          util_error ← unwrap (math.mul_floor delta_time_scaled util_dif_scaled (pos scalar_9))
          rate_dif ← unwrap (math.mul_floor util_error (pos config.reactivity) (pos scalar_7))
          next ← add_i128 ir_mod rate_dif
          ok (if ltb_ℤ ir_mod_max next then ir_mod_max else next))
        else (do
          util_error ← unwrap (math.mul_ceil delta_time_scaled util_dif_scaled (pos scalar_9))
          rate_dif ← unwrap (math.mul_ceil util_error (pos config.reactivity) (pos scalar_7))
          next ← add_i128 ir_mod rate_dif
          ok (if ltb_ℤ next ir_mod_min then ir_mod_min else next))

  unfoldable pub calc_accrual : Env → ReserveConfig → ℤ → ℤ → ℕ → Outcome (ℤ × ℤ)
  calc_accrual e config cur_util ir_mod last_time = do
    cur_ir ← current_ir config cur_util ir_mod
    delta_time_scaled ← delta_time e last_time
    new_ir_mod ← next_ir_mod config cur_util ir_mod delta_time_scaled
    let time_weight = div_ℤ delta_time_scaled seconds_per_year
    cur_ir_scaled ← mul_i128 cur_ir (pos 100)
    weighted ← unwrap (math.mul_ceil time_weight cur_ir_scaled (pos scalar_9))
    accrual ← add_i128 (pos scalar_9) weighted
    ok (accrual, new_ir_mod)
