-- ===== src/Pool/Health.antt =====
-- The health of a user's positions: pool/src/pool/health_factor.rs, the event left out.
use blend_contracts.Base.{
  ℕ, ◌+◌, ◌^◌, ◌≡◌, Bool, true, false, ◌&&◌, Option, none, some, List, [], ◌∷◌, if◌then◌else◌, ℤ,
  pos, eqb_ℤ, ltb_ℤ, Outcome, ok, panic, ◌>>=◌, unwrap, add_i128, add_u, checked,
}
use blend_contracts.Base.Map.{nat_key, get_or}
use blend_contracts.Base.FixedPoint.{FixedPoint}
use blend_contracts.Base.Host.{Address, Env}
use blend_contracts.Pool.State.{Positions, Storage, scalar_7}
use blend_contracts.Pool.Reserve.{
  Reserve, to_asset_from_b_token, to_asset_from_d_token, to_effective_asset_from_b_token,
  to_effective_asset_from_d_token,
}
use blend_contracts.Pool.Cache.{
  Pool, PriceFeedClient, load_reserve, cache_reserve, load_price_decimals,
}
pub mod Factor

pub record PositionData : Type 0 where
  pub collateral_base : ℤ
  pub collateral_raw : ℤ
  pub liability_base : ℤ
  pub liability_raw : ℤ
  pub scalar : ℤ

-- The value of one unit of every asset, in the code.
abbrev pub asset_to_base : ℤ
asset_to_base = pos 1

module _ (math : FixedPoint) where
  unfoldable pub add_collateral_value : ℤ → Reserve → PositionData → Outcome PositionData
  add_collateral_value b_token_balance reserve d =
      if ltb_ℤ (pos 0) b_token_balance
      then (do
        asset_collateral ← to_effective_asset_from_b_token math reserve b_token_balance
        base ← unwrap (math.mul_floor asset_to_base asset_collateral reserve.scalar)
        collateral_base ← add_i128 d.collateral_base base
        assets ← to_asset_from_b_token math reserve b_token_balance
        raw ← unwrap (math.mul_floor asset_to_base assets reserve.scalar)
        collateral_raw ← add_i128 d.collateral_raw raw
        ok (record d { collateral_base = collateral_base; collateral_raw = collateral_raw }))
      else ok d

  unfoldable pub add_liability_value : ℤ → Reserve → PositionData → Outcome PositionData
  add_liability_value d_token_balance reserve d =
      if ltb_ℤ (pos 0) d_token_balance
      then (do
        asset_liability ← to_effective_asset_from_d_token math reserve d_token_balance
        base ← unwrap (math.mul_ceil asset_to_base asset_liability reserve.scalar)
        liability_base ← add_i128 d.liability_base base
        assets ← to_asset_from_d_token math reserve d_token_balance
        raw ← unwrap (math.mul_ceil asset_to_base assets reserve.scalar)
        liability_raw ← add_i128 d.liability_raw raw
        ok (record d { liability_base = liability_base; liability_raw = liability_raw }))
      else ok d

  -- The loop over the reserves, from index `i` on.
  unfoldable pub position_loop :
      {Chain : Type 0}
      → Env
      → Positions
      → Storage Chain
      → ℕ
      → List Address
      → Pool
      → PositionData
      → Outcome (PositionData × Pool)
  position_loop e positions s i [] pool d = ok (d, pool)
  position_loop e positions s i (asset ∷ assets) pool d =
      let b_token_balance = get_or i (pos 0) positions.collateral in
      let d_token_balance = get_or i (pos 0) positions.liabilities in
      elim (eqb_ℤ b_token_balance (pos 0) && eqb_ℤ d_token_balance (pos 0)) [
        | true ↦ position_loop e positions s (i + 1) assets pool d
        | false ↦ (do
          r ← load_reserve math e asset false s pool
          d₁ ← add_collateral_value b_token_balance r.0 d
          d₂ ← add_liability_value d_token_balance r.0 d₁
          position_loop e positions s (i + 1) assets (cache_reserve r.0 r.1) d₂)
      ]

  unfoldable pub calculate_from_positions :
      {Chain : Type 0}
      → PriceFeedClient Chain
      → Env
      → Positions
      → Storage Chain
      → Pool
      → Outcome (PositionData × Pool)
  calculate_from_positions oracle e positions s pool = do
    p ← load_price_decimals oracle s pool
    oracle_scalar ← checked (pos (10 ^ p.0))
    position_loop e positions s 0 s.res_list p.1 (record {
      collateral_base = pos 0;
      collateral_raw = pos 0;
      liability_base = pos 0;
      liability_raw = pos 0;
      scalar = oracle_scalar;
    })

  -- `unwrap_or(0)`: no factor is a factor of 0.
  unfoldable pub as_health_factor : PositionData → ℤ
  as_health_factor d = elim (math.div_floor d.collateral_base d.liability_base d.scalar) [
    | none ↦ pos 0
    | some hf ↦ hf
  ]

  unfoldable pub is_hf_over : ℤ → PositionData → Outcome Bool
  is_hf_over max d = if eqb_ℤ d.liability_base (pos 0) then ok true else (do
    min_health_factor ← unwrap (math.mul_ceil d.scalar max (pos scalar_7))
    ok (ltb_ℤ min_health_factor (as_health_factor d)))

  unfoldable pub is_hf_under : ℤ → PositionData → Outcome Bool
  is_hf_under min d = if eqb_ℤ d.liability_base (pos 0) then ok false else (do
    min_health_factor ← unwrap (math.mul_floor d.scalar min (pos scalar_7))
    ok (ltb_ℤ (as_health_factor d) min_health_factor))
