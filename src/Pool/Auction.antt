-- ===== src/Pool/Auction.antt =====
-- The auctions of the pool: pool/src/auctions/auction.rs. The lists of `AuctionResult`, which no caller
-- reads, are left out; the calls of the price feed that fill them are not.
use blend_contracts.Base.{
  ℕ, ◌==◌, ◌||◌, not, Option, none, some, List, [], ◌∷◌, if◌then◌else◌, ℤ, Outcome, ok, panic,
  ◌>>=◌, ◌>>◌, panic_if, pool_error, PoolError,
}
use blend_contracts.Base.Map.{Map}
use blend_contracts.Base.Host.{Address, Env}
use blend_contracts.Pool.State.{
  AuctionData, Storage, get_backstop, get_auction, has_auction, set_auction, del_auction,
}
use blend_contracts.Pool.User.Moves.{Working}
use blend_contracts.Pool.Outside.{Outside, get_token_amount_in_usdc_value}
use blend_contracts.Pool.Auction.Scale.{
  AuctionType, user_liquidation, bad_debt_auction, interest_auction, as_u32, from_u32,
  scale_auction,
}
use blend_contracts.Pool.Auction.Liquidation.{create_user_liq_auction_data, fill_user_liq_auction}
use blend_contracts.Pool.Auction.BadDebt.{create_bad_debt_auction_data, fill_bad_debt_auction}
use blend_contracts.Pool.Auction.Interest.{create_interest_auction_data, fill_interest_auction}
pub mod Scale
pub mod Liquidation
pub mod BadDebt
pub mod Interest
pub mod Modifiers
pub mod Parts
pub mod Terms
pub mod Returns

module _ {Chain : Type 0} where
  unfoldable pub delete_liquidation : Address → Storage Chain → Outcome (Storage Chain)
  delete_liquidation user s = do
    panic_if (not (has_auction (as_u32 user_liquidation) user s)) (pool_error PoolError.bad_request)
    ok (del_auction (as_u32 user_liquidation) user s)

  -- What remains of an auction is stored, and an auction of which nothing remains is removed.
  unfoldable pub store_remaining : ℕ → Address → Option AuctionData → Storage Chain → Storage Chain
  store_remaining auction_type user remaining s = elim remaining [
    | some auction_to_store ↦ set_auction auction_type user auction_to_store s
    | none ↦ del_auction auction_type user s
  ]

module _ {Chain : Type 0} (o : Outside Chain) (e : Env) where
  unfoldable pub create_bad_debt_auction : Storage Chain → Outcome (AuctionData × Storage Chain)
  create_bad_debt_auction s = do
    backstop ← get_backstop s
    auction_data ← create_bad_debt_auction_data o e backstop s
    ok (auction_data, set_auction (as_u32 bad_debt_auction) backstop auction_data s)

  unfoldable pub create_interest_auction :
      List Address → Storage Chain → Outcome (AuctionData × Storage Chain)
  create_interest_auction assets s = do
    backstop ← get_backstop s
    auction_data ← create_interest_auction_data o e backstop assets s
    ok (auction_data, set_auction (as_u32 interest_auction) backstop auction_data s)

  unfoldable pub create_liquidation :
      Address → ℕ → Storage Chain → Outcome (AuctionData × Storage Chain)
  create_liquidation user percent_liquidated s =
      if user == e.current_contract_address
      then panic (pool_error PoolError.invalid_liquidation)
      else (do
        backstop ← get_backstop s
        panic_if (user == backstop) (pool_error PoolError.invalid_liquidation)
        r ← create_user_liq_auction_data o e user percent_liquidated s
        ok (r.0, set_auction (as_u32 user_liquidation) user r.0 r.1))

  -- The call on the kind of auction. The filler is in `w`.
  unfoldable pub fill_kind :
      AuctionType → AuctionData → Address → Working Chain → Outcome (Working Chain)
  fill_kind user_liquidation to_fill user w = fill_user_liq_auction o e to_fill user w
  fill_kind bad_debt_auction to_fill user w = do r ← fill_bad_debt_auction o e to_fill w; ok r.1
  fill_kind interest_auction to_fill user w = do
    r ← fill_interest_auction o e to_fill w.user.address w.pool w.storage
    ok (record w { pool = r.1.0; storage = r.1.1 })

  -- The values in USDC of one side of an auction.
  unfoldable pub usdc_amounts : Map Address ℤ → Storage Chain → Outcome (List ℤ)
  usdc_amounts [] s = ok []
  usdc_amounts ((asset, amount) ∷ rest) s = do
    usdc_amount ← get_token_amount_in_usdc_value o.reflector s.chain asset amount
    others ← usdc_amounts rest s
    ok (usdc_amount ∷ others)

  unfoldable pub remaining_or_empty : AuctionData → Option AuctionData → AuctionData
  remaining_or_empty auction_data none = record auction_data { bid = []; lot = [] }
  remaining_or_empty auction_data (some remaining) = remaining

  unfoldable pub fill : ℕ → Address → ℕ → Working Chain → Outcome (Working Chain)
  fill auction_type user percent_filled w = do
    panic_if (user == w.user.address) (pool_error PoolError.invalid_liquidation)
    auction_data ← get_auction auction_type user w.storage
    parts ← scale_auction o.math e auction_data percent_filled
    kind ← from_u32 auction_type
    w₁ ← fill_kind kind parts.0 user w
    let s = store_remaining auction_type user parts.1 w₁.storage
    let remaining = remaining_or_empty auction_data parts.1
    filled_bids ← usdc_amounts parts.0.bid s
    filled_lots ← usdc_amounts parts.0.lot s
    remaining_bids ← usdc_amounts remaining.bid s
    remaining_lots ← usdc_amounts remaining.lot s
    ok (record w₁ { storage = s })
