-- ===== src/Pool/Reserve.antt =====
-- A reserve of the pool: pool/src/pool/reserve.rs.
use blend_contracts.Base.{
  ℕ, ◌^◌, Bool, true, false, ltb, ◌==◌, if◌then◌else◌, ℤ, pos, eqb_ℤ, ltb_ℤ, Outcome, ok, panic,
  ◌>>=◌, ◌>>◌, panic_if, unwrap, pool_error, PoolError, add_i128, sub_i128, checked,
}
use blend_contracts.Base.FixedPoint.{FixedPoint}
use blend_contracts.Base.Host.{Address, Env}
use blend_contracts.Pool.State.{
  PoolConfig, ReserveConfig, ReserveData, Storage, scalar_7, scalar_9, get_res_config, get_res_data,
  set_res_data,
}
use blend_contracts.Pool.Interest.{calc_accrual}
pub mod Growth
pub mod Update
pub mod Quotients
pub mod Rounding
pub mod Same

pub record Reserve : Type 0 where
  pub asset : Address
  pub index : ℕ
  pub l_factor : ℕ
  pub c_factor : ℕ
  pub max_util : ℕ
  pub last_time : ℕ
  pub scalar : ℤ
  pub d_rate : ℤ
  pub b_rate : ℤ
  pub ir_mod : ℤ
  pub b_supply : ℤ
  pub d_supply : ℤ
  pub backstop_credit : ℤ

module _ (math : FixedPoint) (r : Reserve) where
  unfoldable pub to_asset_from_d_token : ℤ → Outcome ℤ
  to_asset_from_d_token d_tokens = unwrap (math.mul_ceil d_tokens r.d_rate (pos scalar_9))

  unfoldable pub to_asset_from_b_token : ℤ → Outcome ℤ
  to_asset_from_b_token b_tokens = unwrap (math.mul_floor b_tokens r.b_rate (pos scalar_9))

  unfoldable pub to_effective_asset_from_d_token : ℤ → Outcome ℤ
  to_effective_asset_from_d_token d_tokens = do
    assets ← to_asset_from_d_token d_tokens
    unwrap (math.div_ceil assets (pos r.l_factor) (pos scalar_7))

  unfoldable pub to_effective_asset_from_b_token : ℤ → Outcome ℤ
  to_effective_asset_from_b_token b_tokens = do
    assets ← to_asset_from_b_token b_tokens
    unwrap (math.mul_floor assets (pos r.c_factor) (pos scalar_7))

  unfoldable pub to_d_token_up : ℤ → Outcome ℤ
  to_d_token_up amount = unwrap (math.div_ceil amount r.d_rate (pos scalar_9))

  unfoldable pub to_d_token_down : ℤ → Outcome ℤ
  to_d_token_down amount = unwrap (math.div_floor amount r.d_rate (pos scalar_9))

  unfoldable pub to_b_token_up : ℤ → Outcome ℤ
  to_b_token_up amount = unwrap (math.div_ceil amount r.b_rate (pos scalar_9))

  unfoldable pub to_b_token_down : ℤ → Outcome ℤ
  to_b_token_down amount = unwrap (math.div_floor amount r.b_rate (pos scalar_9))

  unfoldable pub total_liabilities : Outcome ℤ
  total_liabilities = to_asset_from_d_token r.d_supply

  unfoldable pub total_supply : Outcome ℤ
  total_supply = to_asset_from_b_token r.b_supply

  unfoldable pub utilization : Outcome ℤ
  utilization = do
    liabilities ← total_liabilities
    supply ← total_supply
    unwrap (math.div_ceil liabilities supply (pos scalar_7))

  unfoldable pub require_utilization_below_max : Outcome (Unit {0})
  require_utilization_below_max = do
    util ← utilization
    panic_if (ltb_ℤ (pos r.max_util) util) (pool_error PoolError.invalid_util_rate)

-- The reserve as it is stored, before its update.
unfoldable pub from_stored : Address → ReserveConfig → ReserveData → ℤ → Reserve
from_stored asset config stored scalar = record {
  asset = asset;
  index = config.index;
  l_factor = config.l_factor;
  c_factor = config.c_factor;
  max_util = config.max_util;
  last_time = stored.last_time;
  scalar = scalar;
  d_rate = stored.d_rate;
  b_rate = stored.b_rate;
  ir_mod = stored.ir_mod;
  b_supply = stored.b_supply;
  d_supply = stored.d_supply;
  backstop_credit = stored.backstop_credit;
}

unfoldable pub to_stored : Reserve → ReserveData
to_stored r = record {
  d_rate = r.d_rate;
  b_rate = r.b_rate;
  ir_mod = r.ir_mod;
  b_supply = r.b_supply;
  d_supply = r.d_supply;
  backstop_credit = r.backstop_credit;
  last_time = r.last_time;
}

module _ (math : FixedPoint) (e : Env) where
  -- The backstop's part of the interest, and the new rate of the suppliers.
  unfoldable pub credit_interest : PoolConfig → ℤ → ℤ → Reserve → Outcome Reserve
  credit_interest pool_config pre_update_supply accrued_interest r = do
    new_backstop_credit ←
        (if ltb 0 pool_config.bstop_rate
          then unwrap (math.mul_floor accrued_interest (pos pool_config.bstop_rate) (pos scalar_7))
          else ok (pos 0))
    backstop_credit ←
        (if ltb 0 pool_config.bstop_rate
          then add_i128 r.backstop_credit new_backstop_credit
          else ok r.backstop_credit)
    grown ← add_i128 pre_update_supply accrued_interest
    kept ← sub_i128 grown new_backstop_credit
    b_rate ← unwrap (math.div_floor kept r.b_supply (pos scalar_9))
    ok (record r { backstop_credit = backstop_credit; b_rate = b_rate })

  -- The part of `load` that follows the check of the utilization.
  unfoldable pub accrue : PoolConfig → ReserveConfig → ℤ → Reserve → Outcome Reserve
  accrue pool_config reserve_config cur_util r = do
    accrual ← calc_accrual math e reserve_config cur_util r.ir_mod r.last_time
    pre_update_supply ← total_supply math r
    pre_update_liabilities ← total_liabilities math r
    d_rate ← unwrap (math.mul_ceil accrual.0 r.d_rate (pos scalar_9))
    let r₁ : Reserve = record r { ir_mod = accrual.1; d_rate = d_rate }
    liabilities ← total_liabilities math r₁
    accrued_interest ← sub_i128 liabilities pre_update_liabilities
    r₂ ←
        (if ltb_ℤ (pos 0) accrued_interest
          then credit_interest pool_config pre_update_supply accrued_interest r₁
          else ok r₁)
    ok (record r₂ { last_time = e.timestamp })

  -- `load` on a reserve that was read.
  unfoldable pub update : PoolConfig → ReserveConfig → Reserve → Outcome Reserve
  update pool_config reserve_config r =
      if e.timestamp == r.last_time
      then ok r
      else (if eqb_ℤ r.b_supply (pos 0) then ok (record r { last_time = e.timestamp }) else (do
        cur_util ← utilization math r
        if eqb_ℤ cur_util (pos 0)
            then ok (record r { last_time = e.timestamp })
            else accrue pool_config reserve_config cur_util r))

  unfoldable pub load : {Chain : Type 0} → PoolConfig → Address → Storage Chain → Outcome Reserve
  load pool_config asset s = do
    reserve_config ← get_res_config asset s
    reserve_data ← get_res_data asset s
    scalar ← checked (pos (10 ^ reserve_config.decimals))
    update pool_config reserve_config (from_stored asset reserve_config reserve_data scalar)

unfoldable pub store : {Chain : Type 0} → Reserve → Storage Chain → Storage Chain
store r s = set_res_data r.asset (to_stored r) s
