-- ===== src/Pool/Auction/Terms.antt =====
-- The terms of a fill over time: pool/src/auctions/auction.rs.
use blend_contracts.Base.{ℕ, ◌*◌, ◌≤◌, ◌≡◌, refl, ok, arith, ℤ, pos, ◌≤ℤ◌}
use blend_contracts.Base.FixedPoint.{FixedPoint, FixedPointLaws}
use blend_contracts.Pool.State.{scalar_7}
use blend_contracts.Pool.Reserve.Quotients.{div_mono, owed_mono}
use blend_contracts.Pool.Auction.Scale.{bid_modifier, lot_modifier, scale_amount}
use blend_contracts.Pool.Auction.Modifiers.{
  modifiers_mono, bid_base, lot_base, bid_value, lot_value,
}

-- For the same percentage of the same amount, a fill in a later block pays no more of a bid and gets
-- no less of a lot, and leaves the same.
pub later_fill :
    (math : FixedPoint) (laws : FixedPointLaws math) (percent a d d' : ℕ)
    (bid bid' lot lot' : ℤ × ℤ)
    → percent ≤ scalar_7
    → d ≤ d'
    → scale_amount math.mul_ceil percent (bid_modifier d) (pos a) ≡ ok bid
    → scale_amount math.mul_ceil percent (bid_modifier d') (pos a) ≡ ok bid'
    → scale_amount math.mul_floor percent (lot_modifier d) (pos a) ≡ ok lot
    → scale_amount math.mul_floor percent (lot_modifier d') (pos a) ≡ ok lot'
    → (bid'.0 ≤ℤ bid.0) × (lot.0 ≤ℤ lot'.0) × (bid'.1 ≡ bid.1) × (lot'.1 ≡ lot.1)
later_fill math laws percent a d d' bid bid' lot lot' hp h eb eb' el el' =
    let vb = (bid_value math laws percent (bid_modifier d) a hp).at bid eb in
    let vb' = (bid_value math laws percent (bid_modifier d') a hp).at bid' eb' in
    let vl = (lot_value math laws percent (lot_modifier d) a hp).at lot el in
    let vl' = (lot_value math laws percent (lot_modifier d') a hp).at lot' el' in
    let m = modifiers_mono d d' h in
    let mb =
      owed_mono (bid_base a percent) (bid_modifier d') (bid_modifier d) scalar_7 (omega arith)
        m.1 in
    let ml =
      div_mono (lot_base a percent * lot_modifier d) (lot_base a percent * lot_modifier d') scalar_7
        (omega arith) (times (lot_base a percent) (lot_modifier d) (lot_modifier d') m.0) in
    (
      rw (vb.0, vb'.0) (omega arith),
      rw (vl.0, vl'.0) (omega arith),
      rw (vb.1, vb'.1) refl,
      rw (vl.1, vl'.1) refl,
    )
  where
    times : (x m m' : ℕ) → m ≤ m' → x * m ≤ x * m'
    times x m m' h = grind arith
