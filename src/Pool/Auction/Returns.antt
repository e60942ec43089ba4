-- ===== src/Pool/Auction/Returns.antt =====
-- A fill of an auction goes through: `scale_auction` of pool/src/auctions/auction.rs.
use native.Mathlib.Nat.{div-eq_of_lt}
use blend_contracts.Base.{
  ℕ, ◌+◌, ◌-◌, ◌*◌, ◌/◌, ◌^◌, ◌≤◌, ◌<◌, ◌≡◌, ◌⊎◌, inl, inr, Bool-cases, refl, ap, ◌∙◌, true, false,
  ◌&&◌, ◌||◌, Option, none, some, [], ◌∷◌, arith, ltb, leb, ◌==◌, if◌then◌else◌, ℤ, pos, pos--ℤ, ok,
  checked, fits_i128, sub_i128, sub_u,
}
use blend_contracts.Base.Map.{Map}
use blend_contracts.Base.FixedPoint.{FixedPoint, FixedPointLaws, ceil_div}
use blend_contracts.Base.Host.{Address, Env}
use blend_contracts.Pool.State.{AuctionData, scalar_7}
use blend_contracts.Pool.Auction.Scale.{
  bid_modifier, lot_modifier, scale_amount, enter, is_empty, scale_loop, scale_auction,
}
use blend_contracts.Pool.Auction.Modifiers.{modifiers_bounds, floor-le, ceil-le, bid_base, lot_base}

-- Amounts that are not negative and below 2^100.
pub data AllSmall : Map Address ℤ → Type 0 where
  empty : AllSmall []
  entry :
      (a : Address) (n : ℕ) (m : Map Address ℤ)
      → n < 2 ^ 100
      → AllSmall m
      → AllSmall ((a, pos n) ∷ m)

small_product : (n p : ℕ) → n < 2 ^ 100 → p ≤ scalar_7 → n * p < 2 ^ 127
small_product n p h k = let l : n * p ≤ n * scalar_7 = grind arith in omega arith

small_checked : (n b : ℕ) → n < 2 ^ 100 → b ≤ n → sub_i128 (pos n) (pos b) ≡ ok (pos (n - b))
unfolding checked fits_i128
small_checked n b h k = rw (pos--ℤ n b k) (ground arith)

module _ (math : FixedPoint) (laws : FixedPointLaws math) (percent modifier n : ℕ)
    (hp : percent ≤ scalar_7) (hm : modifier ≤ scalar_7) (h : n < 2 ^ 100) where
  bid_returns :
      scale_amount math.mul_ceil percent modifier (pos n)
      ≡ ok (pos (ceil_div (bid_base n percent * modifier) scalar_7), pos (n - bid_base n percent))
  unfolding scale_amount
  bid_returns =
      let b = ceil-le n percent scalar_7 (omega arith) hp in
      let e = laws.mul_ceil_total n percent scalar_7 (omega arith) (small_product n percent h hp) in
      let f =
        laws.mul_ceil_total (bid_base n percent) modifier scalar_7 (omega arith)
          (small_product (bid_base n percent) modifier (omega arith) hm) in
      rw (e, small_checked n (bid_base n percent) h b, f) refl

  lot_returns :
      scale_amount math.mul_floor percent modifier (pos n)
      ≡ ok (pos (lot_base n percent * modifier / scalar_7), pos (n - lot_base n percent))
  unfolding scale_amount
  lot_returns =
      let b = floor-le n percent scalar_7 hp in
      let e =
        laws.mul_floor_total n percent scalar_7 (omega arith) (small_product n percent h hp) in
      let f =
        laws.mul_floor_total (lot_base n percent) modifier scalar_7 (omega arith)
          (small_product (lot_base n percent) modifier (omega arith) hm) in
      rw (e, small_checked n (lot_base n percent) h b, f) refl

-- A free amount is not entered.
free_bid : (b : ℕ) → ceil_div (b * 0) scalar_7 ≡ 0
free_bid b = div-eq_of_lt {n = b * 0 + scalar_7 - 1} {m = scalar_7} (omega arith)

enter_zero : (a : Address) (m : Map Address ℤ) → enter a (pos 0) m ≡ m
unfolding enter
enter_zero a m = refl

module _ (math : FixedPoint) (laws : FixedPointLaws math) (percent modifier : ℕ)
    (hp : percent ≤ scalar_7) (hm : modifier ≤ scalar_7) where
  bids_return :
      (m : Map Address ℤ) (sides : Map Address ℤ × Map Address ℤ)
      → AllSmall m
      → (r : Map Address ℤ × Map Address ℤ) × (scale_loop math.mul_ceil percent modifier m sides
          ≡ ok r)
        × (modifier ≡ 0 → r.0 ≡ sides.0)
  unfolding scale_loop
  bids_return [] sides s = (sides, refl, λ z. refl)
  bids_return ((a, x) ∷ rest) sides (entry _ n _ h s) =
      let f = pos (ceil_div (bid_base n percent * modifier) scalar_7) in
      let k = pos (n - bid_base n percent) in
      let q = bids_return rest (enter a f sides.0, enter a k sides.1) s in
      (
        q.0,
        rw (bid_returns math laws percent modifier n hp hm h) q.1,
        λ z.
            let v : f ≡ pos 0 =
              ap (λ y. pos (ceil_div (bid_base n percent * y) scalar_7)) z
              ∙ ap pos (free_bid (bid_base n percent)) in
            q.2 z ∙ ap (λ y. enter a y sides.0) v ∙ enter_zero a sides.0,
      )

  lots_return :
      (m : Map Address ℤ) (sides : Map Address ℤ × Map Address ℤ)
      → AllSmall m
      → (r : Map Address ℤ × Map Address ℤ) × (scale_loop math.mul_floor percent modifier m sides
          ≡ ok r)
  unfolding scale_loop
  lots_return [] sides s = (sides, refl)
  lots_return ((a, x) ∷ rest) sides (entry _ n _ h s) =
      let f = pos (lot_base n percent * modifier / scalar_7) in
      let k = pos (n - lot_base n percent) in
      let q = lots_return rest (enter a f sides.0, enter a k sides.1) s in
      (q.0, rw (lot_returns math laws percent modifier n hp hm h) q.1)

late_free : (d : ℕ) → 400 ≤ d → bid_modifier d ≡ 0
unfolding bid_modifier
late_free d h = ground arith

-- From the block of an auction on, whose amounts are not negative and below 2^100, a fill of 1 to 100
-- percent is scaled without a panic; from 400 blocks on it has no bid to pay.
pub scale_auction_returns :
    (math : FixedPoint) (laws : FixedPointLaws math) (e : Env) (a : AuctionData) (percent : ℕ)
    → AllSmall a.bid
    → AllSmall a.lot
    → 0 < percent
    → percent ≤ 100
    → a.block ≤ e.sequence
    → (r : AuctionData × Option AuctionData) × (scale_auction math e a percent ≡ ok r)
      × ((e.sequence < a.block + 400) ⊎ (r.0.bid ≡ []))
unfolding scale_auction sub_u
scale_auction_returns math laws e a percent sb sl lo hi hb =
    let d = e.sequence - a.block in
    let p = percent * 100000 in
    let hp : p ≤ scalar_7 = omega arith in
    let m = modifiers_bounds d in
    let q = bids_return math laws p (bid_modifier d) hp m.1 a.bid ([], []) sb in
    let l = lots_return math laws p (lot_modifier d) hp m.0 a.lot ([], []) sl in
    let valid : ltb 100 percent || percent == 0 ≡ false = ground arith in
    let after : leb a.block e.sequence ≡ true = ground arith in
    let bids = q.0 in
    let lots = l.0 in
    let r : AuctionData × Option AuctionData = (
      record a { bid = bids.0; lot = lots.0 },
      if is_empty lots.1 && is_empty bids.1
          then none
          else some (record a { bid = bids.1; lot = lots.1 }),
    ) in
    let rest : (e.sequence < a.block + 400) ⊎ (bids.0 ≡ []) =
      elim (Bool-cases (ltb e.sequence (a.block + 400))) [
        | inl t ↦ inl (ground arith)
        | inr f ↦ inr (q.2 (late_free d (ground arith)))
      ] in
    (r, rw (valid, after, q.1, l.1) refl, rest)
