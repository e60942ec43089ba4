-- ===== src/Pool/Auction/Liquidation.antt =====
-- Auctions of a user's positions: pool/src/auctions/user_liquidation_auction.rs.
use blend_contracts.Base.{
  nth, ℕ, ◌==◌, ◌||◌, List, [], ◌∷◌, ltb, if◌then◌else◌, ℤ, pos, ltb_ℤ, div_ℤ, Outcome, ok, ◌>>=◌,
  ◌>>◌, panic_if, or_panic, unwrap, host, pool_error, PoolError, add_i128, sub_i128, mul_i128,
  add_u,
}
use blend_contracts.Base.Map.{Map, nat_key, insert}
use blend_contracts.Base.FixedPoint.{FixedPoint}
use blend_contracts.Base.Host.{Address, Env}
use blend_contracts.Pool.State.{AuctionData, Storage, has_auction}
use blend_contracts.Pool.Cache.{Pool, load_pool}
use blend_contracts.Pool.Health.{PositionData, calculate_from_positions, is_hf_over, is_hf_under}
use blend_contracts.Pool.User.{User, load_user, store_user}
use blend_contracts.Pool.User.Moves.{Working, rm_positions, add_positions}
use blend_contracts.Pool.Outside.{Outside}
use blend_contracts.Pool.Auction.Scale.{user_liquidation, as_u32}

-- What is sold and what is bid of every position: the part of it that `fraction` of `scalar` is,
-- rounded up, under the asset of the reserve.
unfoldable pub quote_loop :
    FixedPoint → List Address → ℤ → ℤ → Map ℕ ℤ → Map Address ℤ → Outcome (Map Address ℤ)
quote_loop math reserve_list fraction scalar [] quote = ok quote
quote_loop math reserve_list fraction scalar ((index, amount) ∷ rest) quote = do
  res_asset_address ← or_panic host (nth index reserve_list)
  removed ← unwrap (math.mul_ceil amount fraction scalar)
  quote_loop math reserve_list fraction scalar rest (insert res_asset_address removed quote)

-- The collateral a liquidation is to give, in the base asset, and the part of all of it that it is.
unfoldable pub withdrawn_collateral : FixedPoint → PositionData → ℤ → Outcome (ℤ × ℤ)
withdrawn_collateral math d percent_scaled = do
  avg_cf ← unwrap (math.div_floor d.collateral_base d.collateral_raw d.scalar)
  avg_lf ← unwrap (math.div_floor d.liability_base d.liability_raw d.scalar)
  ratio ← unwrap (math.div_ceil avg_cf avg_lf d.scalar)
  gap ← sub_i128 d.scalar ratio
  twice ← mul_i128 (pos 2) d.scalar
  half ← unwrap (math.div_ceil gap twice d.scalar)
  est_incentive ← add_i128 half d.scalar
  repaid ← unwrap (math.mul_floor d.liability_raw percent_scaled d.scalar)
  withdrawn ← unwrap (math.mul_floor repaid est_incentive d.scalar)
  withdrawn_pct ← unwrap (math.div_ceil withdrawn d.collateral_raw d.scalar)
  ok (withdrawn, if ltb_ℤ d.scalar withdrawn_pct then d.scalar else withdrawn_pct)

module _ {Chain : Type 0} (o : Outside Chain) (e : Env) where
  -- The user's health must end between 1.03 and 1.15 where only a part is liquidated.
  -- The positions are those of a copy of the user; of the storage the removal writes the emissions.
  unfoldable pub require_partial :
      AuctionData → User → Pool → Storage Chain → Outcome (Storage Chain)
  require_partial quote user_state pool s = do
    w ←
        rm_positions o.math e quote.lot quote.bid
          (record { user = user_state; pool = pool; storage = s })
    new_data ← calculate_from_positions o.math o.oracle e w.user.positions w.storage w.pool
    over ← is_hf_over o.math (pos 11500000) new_data.0
    panic_if over (pool_error PoolError.invalid_liq_too_large)
    under ← is_hf_under o.math (pos 10300000) new_data.0
    panic_if under (pool_error PoolError.invalid_liq_too_small)
    ok w.storage

  -- Where everything is liquidated, it must take all the collateral.
  unfoldable pub require_full : ℤ → PositionData → Storage Chain → Outcome (Storage Chain)
  require_full withdrawn d s = do
    panic_if (ltb_ℤ withdrawn d.collateral_raw) (pool_error PoolError.invalid_liq_too_large)
    ok s

  unfoldable pub create_user_liq_auction_data :
      Address → ℕ → Storage Chain → Outcome (AuctionData × Storage Chain)
  create_user_liq_auction_data user percent_liquidated s = do
    panic_if (has_auction (as_u32 user_liquidation) user s)
        (pool_error PoolError.auction_in_progress)
    panic_if (ltb 100 percent_liquidated || percent_liquidated == 0)
        (pool_error PoolError.invalid_liquidation)
    block ← add_u 32 e.sequence 1
    pool ← load_pool s
    let user_state = load_user user s
    p ← calculate_from_positions o.math o.oracle e user_state.positions s pool
    let d = p.0
    panic_if (ltb_ℤ d.liability_base d.collateral_base) (pool_error PoolError.invalid_liquidation)
    scaled ← mul_i128 (pos percent_liquidated) d.scalar
    let percent_scaled = div_ℤ scaled 100
    withdrawn ← withdrawn_collateral o.math d percent_scaled
    lot ← quote_loop o.math s.res_list withdrawn.1 d.scalar user_state.positions.collateral []
    bid ← quote_loop o.math s.res_list percent_scaled d.scalar user_state.positions.liabilities []
    let quote : AuctionData = record { bid = bid; lot = lot; block = block }
    s₁ ←
        (if percent_liquidated == 100
          then require_full withdrawn.0 d s
          else require_partial quote user_state p.1 s)
    ok (quote, s₁)

  -- The user's positions move to the filler, who is in `w`.
  unfoldable pub fill_user_liq_auction :
      AuctionData → Address → Working Chain → Outcome (Working Chain)
  fill_user_liq_auction auction_data user w = do
    from ←
        rm_positions o.math e auction_data.lot auction_data.bid
          (record w { user = load_user user w.storage })
    to ← add_positions o.math e auction_data.lot auction_data.bid (record from { user = w.user })
    ok (record to { storage = store_user from.user to.storage })
