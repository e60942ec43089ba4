-- ===== src/Pool/Auction/Scale.antt =====
-- The part of an auction that a fill takes, by its percentage and its age: `scale_auction` of
-- pool/src/auctions/auction.rs.
use blend_contracts.Base.{
  ℕ, ◌-◌, ◌*◌, Bool, true, false, ◌&&◌, ◌||◌, Option, none, some, [], ◌∷◌, ltb, ◌==◌, if◌then◌else◌,
  ℤ, pos, ltb_ℤ, Outcome, ok, panic, ◌>>=◌, ◌>>◌, panic_if, unwrap, pool_error, PoolError, sub_i128,
  sub_u,
}
use blend_contracts.Base.Map.{Map, nat_key, insert}
use blend_contracts.Base.FixedPoint.{FixedPoint}
use blend_contracts.Base.Host.{Address, Env}
use blend_contracts.Pool.State.{AuctionData, scalar_7}

pub data AuctionType : Type 0 where
  user_liquidation bad_debt_auction interest_auction : AuctionType

-- `AuctionType as u32`, and `from_u32`.
abbrev pub as_u32 : AuctionType → ℕ
as_u32 user_liquidation = 0
as_u32 bad_debt_auction = 1
as_u32 interest_auction = 2

unfoldable pub from_u32 : ℕ → Outcome AuctionType
from_u32 value =
    if value == 0
    then ok user_liquidation
    else (if value == 1
        then ok bad_debt_auction
        else (if value == 2 then ok interest_auction else panic (pool_error PoolError.bad_request)))

-- The modifiers move by half a percent every block.
abbrev pub per_block_scalar : ℕ
per_block_scalar = 50000

-- Full for 200 blocks, then down to 0 at 400. No difference here is below 0.
unfoldable pub bid_modifier : ℕ → ℕ
bid_modifier block_dif =
    if ltb 200 block_dif
    then (if ltb block_dif 400 then scalar_7 - (block_dif - 200) * per_block_scalar else 0)
    else scalar_7

-- From 0 up to full at 200 blocks.
unfoldable pub lot_modifier : ℕ → ℕ
lot_modifier block_dif = if ltb 200 block_dif then scalar_7 else block_dif * per_block_scalar

-- What is filled of an amount, and what remains of it.
unfoldable pub scale_amount : (ℤ → ℤ → ℤ → Option ℤ) → ℕ → ℕ → ℤ → Outcome (ℤ × ℤ)
scale_amount mul percent modifier amount = do
  to_fill_base ← unwrap (mul amount (pos percent) (pos scalar_7))
  remaining_base ← sub_i128 amount to_fill_base
  to_fill_scaled ← unwrap (mul to_fill_base (pos modifier) (pos scalar_7))
  ok (to_fill_scaled, remaining_base)

-- Amounts of 0 or less are not entered.
unfoldable pub enter : Address → ℤ → Map Address ℤ → Map Address ℤ
enter asset amount m = if ltb_ℤ (pos 0) amount then insert asset amount m else m

-- The loop over one side of the auction: the filled side, then the remaining one.
unfoldable pub scale_loop :
    (ℤ → ℤ → ℤ → Option ℤ)
    → ℕ
    → ℕ
    → Map Address ℤ
    → Map Address ℤ × Map Address ℤ
    → Outcome (Map Address ℤ × Map Address ℤ)
scale_loop mul percent modifier [] sides = ok sides
scale_loop mul percent modifier ((asset, amount) ∷ rest) sides = do
  r ← scale_amount mul percent modifier amount
  scale_loop mul percent modifier rest (enter asset r.0 sides.0, enter asset r.1 sides.1)

abbrev pub is_empty : Map Address ℤ → Bool
is_empty [] = true
is_empty (entry ∷ m) = false

-- Bids round up and lots down.
unfoldable pub scale_auction :
    FixedPoint → Env → AuctionData → ℕ → Outcome (AuctionData × Option AuctionData)
scale_auction math e auction_data percent_filled = do
  panic_if (ltb 100 percent_filled || percent_filled == 0) (pool_error PoolError.bad_request)
  block_dif ← sub_u e.sequence auction_data.block
  let percent = percent_filled * 100000
  bids ← scale_loop math.mul_ceil percent (bid_modifier block_dif) auction_data.bid ([], [])
  lots ← scale_loop math.mul_floor percent (lot_modifier block_dif) auction_data.lot ([], [])
  let to_fill : AuctionData = record auction_data { bid = bids.0; lot = lots.0 }
  ok (
    to_fill,
    if is_empty lots.1 && is_empty bids.1
        then none
        else some (record auction_data { bid = bids.1; lot = lots.1 }),
  )
