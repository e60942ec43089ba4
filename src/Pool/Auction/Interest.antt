-- ===== src/Pool/Auction/Interest.antt =====
-- Auctions of the interest that the reserves owe to the backstop:
-- pool/src/auctions/backstop_interest_auction.rs.
use blend_contracts.Base.{
  ◌^◌, ◌==◌, ◌||◌, true, false, List, [], ◌∷◌, if◌then◌else◌, ℤ, pos, ltb_ℤ, leb_ℤ, eqb_ℤ, Outcome,
  ok, ◌>>=◌, ◌>>◌, panic_if, or_panic, unwrap, host, pool_error, PoolError, add_i128, sub_i128,
  mul_i128, add_u, checked,
}
use blend_contracts.Base.Map.{Map, nat_key, insert, lookup}
use blend_contracts.Base.Host.{Address, Env}
use blend_contracts.Pool.State.{AuctionData, Storage, has_auction, get_backstop}
use blend_contracts.Pool.Cache.{
  Pool, load_pool, load_reserve, cache_reserve, load_price_decimals, load_price,
}
use blend_contracts.Pool.User.{is_empty}
use blend_contracts.Pool.Outside.{Outside}
use blend_contracts.Pool.Auction.Scale.{interest_auction, as_u32}
use blend_contracts.Pool.Auction.BadDebt.{backstop_token_to_base, backstop_tokens_for}

module _ {Chain : Type 0} (o : Outside Chain) (e : Env) where
  -- The loop over the assets: the pool, the value of the interest and the lot.
  unfoldable pub interest_loop :
      Storage Chain
      → List Address
      → Pool × (ℤ × Map Address ℤ)
      → Outcome (Pool × (ℤ × Map Address ℤ))
  interest_loop s [] found = ok found
  interest_loop s (res_asset_address ∷ rest) (pool, (interest_value, lot)) = do
    r ← load_reserve o.math e res_asset_address false s pool
    let credit = r.0.backstop_credit
    found ←
        (if ltb_ℤ (pos 0) credit
          then (do
            p ← load_price o.oracle res_asset_address s r.1
            added ← unwrap (o.math.mul_floor p.0 credit r.0.scalar)
            value ← add_i128 interest_value added
            ok (p.1, (value, insert res_asset_address credit lot)))
          else ok (r.1, (interest_value, lot)))
    interest_loop s rest found

  unfoldable pub create_interest_auction_data :
      Address → List Address → Storage Chain → Outcome AuctionData
  create_interest_auction_data backstop assets s = do
    panic_if (has_auction (as_u32 interest_auction) backstop s)
        (pool_error PoolError.auction_in_progress)
    pool ← load_pool s
    p ← load_price_decimals o.oracle s pool
    oracle_scalar ← checked (pos (10 ^ p.0))
    block ← add_u 32 e.sequence 1
    found ← interest_loop s assets (p.1, (pos 0, []))
    let interest_value = found.1.0
    let lot = found.1.1
    decimals ← load_price_decimals o.oracle s found.0
    unit ← checked (pos (10 ^ decimals.0))
    least ← mul_i128 (pos 200) unit
    panic_if (leb_ℤ interest_value least) (pool_error PoolError.interest_too_small)
    panic_if (is_empty lot || eqb_ℤ interest_value (pos 0)) (pool_error PoolError.bad_request)
    backstop_id ← get_backstop s
    d ← or_panic host (o.backstop.pool_data s.chain backstop_id e.current_contract_address)
    token_to_base ← backstop_token_to_base o.math d oracle_scalar
    bid_amount ← backstop_tokens_for o.math interest_value token_to_base
    backstop_token ← or_panic host (o.backstop.backstop_token s.chain backstop_id)
    ok (record { bid = insert backstop_token bid_amount []; lot = lot; block = block })

  -- The loop over the lot: each reserve owes that much less, and the filler is sent it.
  unfoldable pub pay_loop :
      Address → Map Address ℤ → Pool × Storage Chain → Outcome (Pool × Storage Chain)
  pay_loop filler [] state = ok state
  pay_loop filler ((res_asset_address, lot_amount) ∷ rest) (pool, s) = do
    r ← load_reserve o.math e res_asset_address true s pool
    backstop_credit ← sub_i128 r.0.backstop_credit lot_amount
    c ←
        or_panic host
          (o.tokens.transfer s.chain res_asset_address e.current_contract_address filler lot_amount)
    pay_loop filler rest (
      cache_reserve (record r.0 { backstop_credit = backstop_credit }) r.1,
      record s { chain = c },
    )

  -- The filler gives the bid to the backstop and is sent the lot: the bid, the pool and the storage.
  unfoldable pub fill_interest_auction :
      AuctionData → Address → Pool → Storage Chain → Outcome (ℤ × (Pool × Storage Chain))
  fill_interest_auction auction_data filler pool s = do
    backstop ← get_backstop s
    panic_if (filler == backstop) (pool_error PoolError.bad_request)
    backstop_token ← or_panic host (o.backstop.backstop_token s.chain backstop)
    bid_amount ← or_panic host (lookup backstop_token auction_data.bid)
    c ←
        or_panic host
          (o.backstop.donate s.chain backstop filler e.current_contract_address bid_amount)
    state ← pay_loop filler auction_data.lot (pool, record s { chain = c })
    ok (bid_amount, state)
