-- ===== src/Pool/Auction/Modifiers.antt =====
-- The age of an auction and what a fill takes of an amount: pool/src/auctions/auction.rs.
use native.Mathlib.Nat.{div-le_of_le-mul}
use blend_contracts.Base.{
  unwrap_ok, ℕ, ◌-◌, ◌*◌, ◌/◌, ◌≤◌, ◌<◌, ◌≡◌, arith, ltb, if◌then◌else◌, ℤ, pos, ◌+ℤ◌, ◌≤ℤ◌,
  int_laws, ok, unwrap, sub_i128, checked_ok, Ensures, Ensures-ok, Ensures-bind,
}
use blend_contracts.Base.FixedPoint.{FixedPoint, FixedPointLaws, ceil_div}
use blend_contracts.Pool.State.{scalar_7}
use blend_contracts.Pool.Reserve.Rounding.{ceil_div-le_of_le-mul}
use blend_contracts.Pool.Auction.Scale.{bid_modifier, lot_modifier, scale_amount, per_block_scalar}

-- The smaller of two numbers.
abbrev pub min : ℕ → ℕ → ℕ
min a b = if ltb a b then a else b

-- In every block the lot modifier is half a percent for each block that has passed, up to the whole,
-- and the bid modifier is what is left of twice the whole, up to the whole: 0 from 400 blocks on.
pub modifiers_lem :
    (block_dif : ℕ)
    → (lot_modifier block_dif ≡ min scalar_7 (block_dif * per_block_scalar))
      × (bid_modifier block_dif ≡ min scalar_7 (2 * scalar_7 - block_dif * per_block_scalar))
unfolding lot_modifier bid_modifier
modifiers_lem block_dif = (ground arith, ground arith)

pub modifiers_bounds : (d : ℕ) → (lot_modifier d ≤ scalar_7) × (bid_modifier d ≤ scalar_7)
unfolding lot_modifier bid_modifier
modifiers_bounds d = (ground arith, ground arith)

pub modifiers_mono :
    (d d' : ℕ) → d ≤ d' → (lot_modifier d ≤ lot_modifier d') × (bid_modifier d' ≤ bid_modifier d)
unfolding lot_modifier bid_modifier
modifiers_mono d d' h = (ground arith, ground arith)

pub floor-le : (a m S : ℕ) → m ≤ S → a * m / S ≤ a
floor-le a m S h = div-le_of_le-mul S (let k : a * m ≤ a * S = grind arith in omega arith)

pub ceil-le : (a m S : ℕ) → 0 < S → m ≤ S → ceil_div (a * m) S ≤ a
ceil-le a m S h k = ceil_div-le_of_le-mul (a * m) S a h (grind arith)

-- What a bid or a lot of `a` gives: the filled part of the base, and the rest of the base.
abbrev pub bid_base : ℕ → ℕ → ℕ
bid_base a percent = ceil_div (a * percent) scalar_7

abbrev pub lot_base : ℕ → ℕ → ℕ
lot_base a percent = a * percent / scalar_7

module _ (math : FixedPoint) (laws : FixedPointLaws math) (percent modifier a : ℕ)
    (hp : percent ≤ scalar_7) where
  pub bid_value :
      Ensures
        (λ r.
          (r.0 ≡ pos (ceil_div (bid_base a percent * modifier) scalar_7))
          × (r.1 ≡ pos (a - bid_base a percent)))
        (scale_amount math.mul_ceil percent modifier (pos a))
  unfolding scale_amount
  bid_value = Ensures-bind (unwrap (math.mul_ceil (pos a) (pos percent) (pos scalar_7))) _ λ b eb.
      Ensures-bind (sub_i128 (pos a) b) _ λ k ek.
        Ensures-bind (unwrap (math.mul_ceil b (pos modifier) (pos scalar_7))) _ λ f ef.
          let vb = laws.mul_ceil_value a percent scalar_7 b (omega arith) (unwrap_ok _ eb) in
          let ef' : unwrap (math.mul_ceil (pos (bid_base a percent)) (pos modifier) (pos scalar_7))
              ≡ ok f =
            rw vb at ef in
          let vf =
            laws.mul_ceil_value (bid_base a percent) modifier scalar_7 f (omega arith)
              (unwrap_ok _ ef') in
          let vk = checked_ok _ ek in
          let le = ceil-le a percent scalar_7 (omega arith) hp in Ensures-ok _ (vf, omega int_laws)

  pub lot_value :
      Ensures
        (λ r.
          (r.0 ≡ pos (lot_base a percent * modifier / scalar_7))
          × (r.1 ≡ pos (a - lot_base a percent)))
        (scale_amount math.mul_floor percent modifier (pos a))
  unfolding scale_amount
  lot_value = Ensures-bind (unwrap (math.mul_floor (pos a) (pos percent) (pos scalar_7))) _ λ b eb.
      Ensures-bind (sub_i128 (pos a) b) _ λ k ek.
        Ensures-bind (unwrap (math.mul_floor b (pos modifier) (pos scalar_7))) _ λ f ef.
          let vb = laws.mul_floor_value a percent scalar_7 b (omega arith) (unwrap_ok _ eb) in
          let ef' : unwrap (math.mul_floor (pos (lot_base a percent)) (pos modifier) (pos scalar_7))
              ≡ ok f =
            rw vb at ef in
          let vf =
            laws.mul_floor_value (lot_base a percent) modifier scalar_7 f (omega arith)
              (unwrap_ok _ ef') in
          let vk = checked_ok _ ek in
          let le = floor-le a percent scalar_7 hp in Ensures-ok _ (vf, omega int_laws)

-- Both parts are amounts, and together at most the whole.
pub record IsPart (a : ℤ) (r : ℤ × ℤ) : Type 0 where
  pub filled : pos 0 ≤ℤ r.0
  pub left : pos 0 ≤ℤ r.1
  pub within : r.0 +ℤ r.1 ≤ℤ a

module _ (math : FixedPoint) (laws : FixedPointLaws math) (percent modifier a : ℕ)
    (hp : percent ≤ scalar_7) (hm : modifier ≤ scalar_7) where
  pub bid-IsPart : Ensures (IsPart (pos a)) (scale_amount math.mul_ceil percent modifier (pos a))
  bid-IsPart = record {
    at = λ r e.
        let v = (bid_value math laws percent modifier a hp).at r e in
        let v₀ = v.0 in
        let v₁ = v.1 in
        let b = ceil-le a percent scalar_7 (omega arith) hp in
        let f = ceil-le (bid_base a percent) modifier scalar_7 (omega arith) hm in
        record { filled = omega int_laws; left = omega int_laws; within = omega int_laws };
  }

  pub lot-IsPart : Ensures (IsPart (pos a)) (scale_amount math.mul_floor percent modifier (pos a))
  lot-IsPart = record {
    at = λ r e.
        let v = (lot_value math laws percent modifier a hp).at r e in
        let v₀ = v.0 in
        let v₁ = v.1 in
        let b = floor-le a percent scalar_7 hp in
        let f = floor-le (lot_base a percent) modifier scalar_7 hm in
        record { filled = omega int_laws; left = omega int_laws; within = omega int_laws };
  }
