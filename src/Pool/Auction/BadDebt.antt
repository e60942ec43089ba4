-- ===== src/Pool/Auction/BadDebt.antt =====
-- Auctions of the backstop's bad debt: pool/src/auctions/bad_debt_auction.rs.
use blend_contracts.Base.{
  nth, ℕ, ◌^◌, ◌==◌, ◌||◌, false, List, [], ◌∷◌, if◌then◌else◌, ℤ, pos, ltb_ℤ, leb_ℤ, eqb_ℤ,
  Outcome, ok, ◌>>=◌, ◌>>◌, panic_if, or_panic, unwrap, host, pool_error, PoolError, add_i128,
  mul_i128, add_u, checked,
}
use blend_contracts.Base.Map.{Map, nat_key, insert, lookup}
use blend_contracts.Base.FixedPoint.{FixedPoint}
use blend_contracts.Base.Host.{Address, Env}
use blend_contracts.Pool.State.{
  AuctionData, Storage, scalar_7, has_auction, get_backstop, get_user_positions,
}
use blend_contracts.Pool.Reserve.{to_asset_from_d_token}
use blend_contracts.Pool.Cache.{Pool, load_pool, load_reserve, load_price_decimals, load_price}
use blend_contracts.Pool.Status.{PoolBackstopData, calc_pool_backstop_threshold}
use blend_contracts.Pool.User.{load_user, store_user, is_empty}
use blend_contracts.Pool.User.Moves.{Working, rm_positions, add_positions}
use blend_contracts.Pool.Outside.{Outside}
use blend_contracts.Pool.Auction.Scale.{bad_debt_auction, as_u32}

-- The value of one backstop token in the base asset: five times its USDC.
unfoldable pub backstop_token_to_base : FixedPoint → PoolBackstopData → ℤ → Outcome ℤ
backstop_token_to_base math d oracle_scalar = do
  usdc ← unwrap (math.mul_floor d.usdc oracle_scalar (pos scalar_7))
  backstop_value_base ← mul_i128 usdc (pos 5)
  unwrap (math.div_floor backstop_value_base d.tokens (pos scalar_7))

-- The amount of backstop tokens of 1.4 times a value.
unfoldable pub backstop_tokens_for : FixedPoint → ℤ → ℤ → Outcome ℤ
backstop_tokens_for math value token_to_base = do
  scaled ← unwrap (math.mul_floor value (pos 14000000) (pos scalar_7))
  unwrap (math.div_floor scaled token_to_base (pos scalar_7))

-- The entries of a map of positions under the assets of their reserves.
unfoldable pub by_asset : List Address → Map ℕ ℤ → Map Address ℤ → Outcome (Map Address ℤ)
by_asset reserve_list [] m = ok m
by_asset reserve_list ((reserve_index, balance) ∷ rest) m = do
  res_asset_address ← or_panic host (nth reserve_index reserve_list)
  by_asset reserve_list rest (insert res_asset_address balance m)

module _ {Chain : Type 0} (o : Outside Chain) (e : Env) where
  -- The loop over the backstop's liabilities: the pool, the value of the debt and the bid.
  unfoldable pub debt_loop :
      Storage Chain → Map ℕ ℤ → Pool × (ℤ × Map Address ℤ) → Outcome (Pool × (ℤ × Map Address ℤ))
  debt_loop s [] found = ok found
  debt_loop s ((reserve_index, liability_balance) ∷ rest) (pool, (debt_value, bid)) = do
    res_asset_address ← or_panic host (nth reserve_index s.res_list)
    found ←
        (if ltb_ℤ (pos 0) liability_balance
          then (do
            r ← load_reserve o.math e res_asset_address false s pool
            p ← load_price o.oracle res_asset_address s r.1
            asset_balance ← to_asset_from_d_token o.math r.0 liability_balance
            added ← unwrap (o.math.mul_floor p.0 asset_balance r.0.scalar)
            value ← add_i128 debt_value added
            ok (p.1, (value, insert res_asset_address liability_balance bid)))
          else ok (pool, (debt_value, bid)))
    debt_loop s rest found

  unfoldable pub create_bad_debt_auction_data : Address → Storage Chain → Outcome AuctionData
  create_bad_debt_auction_data backstop s = do
    panic_if (has_auction (as_u32 bad_debt_auction) backstop s)
        (pool_error PoolError.auction_in_progress)
    block ← add_u 32 e.sequence 1
    pool ← load_pool s
    p ← load_price_decimals o.oracle s pool
    oracle_scalar ← checked (pos (10 ^ p.0))
    found ← debt_loop s (get_user_positions backstop s).liabilities (p.1, (pos 0, []))
    let debt_value = found.1.0
    let bid = found.1.1
    panic_if (is_empty bid || eqb_ℤ debt_value (pos 0)) (pool_error PoolError.bad_request)
    backstop_token ← or_panic host (o.backstop.backstop_token s.chain backstop)
    d ← or_panic host (o.backstop.pool_data s.chain backstop e.current_contract_address)
    token_to_base ← backstop_token_to_base o.math d oracle_scalar
    lot_amount ← backstop_tokens_for o.math debt_value token_to_base
    let least = if leb_ℤ d.tokens lot_amount then d.tokens else lot_amount
    ok (record { bid = bid; lot = insert backstop_token least []; block = block })

  -- The debt that the backstop, in `w`, is left with is written off where less than 3 * 10^-7 of its
  -- threshold is met.
  unfoldable pub burn_bad_debt : Address → Working Chain → Outcome (Working Chain)
  burn_bad_debt backstop_address w = if is_empty w.user.positions.liabilities then ok w else (do
    d ←
        or_panic host
          (o.backstop.pool_data w.storage.chain backstop_address e.current_contract_address)
    if ltb_ℤ (calc_pool_backstop_threshold d) (pos 3)
        then (do
          rm_liabilities ← by_asset w.storage.res_list w.user.positions.liabilities []
          rm_positions o.math e [] rm_liabilities w)
        else ok w)

  -- The debt moves to the filler, who is in `w`, and the backstop pays: what it pays, and the rest.
  unfoldable pub fill_bad_debt_auction : AuctionData → Working Chain → Outcome (ℤ × Working Chain)
  fill_bad_debt_auction auction_data w = do
    backstop_address ← get_backstop w.storage
    panic_if (w.user.address == backstop_address) (pool_error PoolError.bad_request)
    from ←
        rm_positions o.math e [] auction_data.bid
          (record w { user = load_user backstop_address w.storage })
    to ← add_positions o.math e [] auction_data.bid (record from { user = w.user })
    backstop_token_id ← or_panic host (o.backstop.backstop_token to.storage.chain backstop_address)
    lot_amount ← unwrap (lookup backstop_token_id auction_data.lot)
    c ← or_panic host (
        o.backstop.draw to.storage.chain backstop_address e.current_contract_address lot_amount
          w.user.address)
    left ←
        burn_bad_debt backstop_address
          (record to { user = from.user; storage = record to.storage { chain = c } })
    ok (lot_amount, record left { user = to.user; storage = store_user left.user left.storage })
