-- ===== src/Pool/Auction/Parts.antt =====
-- The two parts of an auction that a fill gives: `scale_auction` of pool/src/auctions/auction.rs.
use blend_contracts.Base.{
  ℕ, ◌*◌, ◌≤◌, ◌≡◌, ◌⊎◌, inl, inr, refl, Bool, true, false, Bool-cases, ◌&&◌, ◌||◌, Option, none,
  some, [], ◌∷◌, arith, ltb, ◌==◌, if◌then◌else◌, ℤ, pos, negsuc, ltb_ℤ, ◌+ℤ◌, ◌≤ℤ◌, int_laws,
  sub_u, Ensures, Ensures-ok, Ensures-bind, Ensures-panic_if,
}
use mathlib.Core.Path.{subst}
use blend_contracts.Base.Map.{Map, nat_key, lookup, insert, get_or, get_or-cons}
use blend_contracts.Base.FixedPoint.{FixedPoint, FixedPointLaws}
use blend_contracts.Base.Host.{Address, Env}
use blend_contracts.Pool.State.{AuctionData, scalar_7}
use blend_contracts.Pool.User.Balance.{balance, insert-balance, balance-cons, balance-empty}
use blend_contracts.Pool.Auction.Scale.{
  bid_modifier, lot_modifier, scale_amount, enter, scale_loop, scale_auction, is_empty,
}
use blend_contracts.Pool.Auction.Modifiers.{IsPart, bid-IsPart, lot-IsPart, modifiers_bounds}

-- No amount is negative.
pub data AllNonneg : Map Address ℤ → Type 0 where
  empty : AllNonneg []
  entry :
      (a : Address) (x : ℤ) (m : Map Address ℤ) → pos 0 ≤ℤ x → AllNonneg m → AllNonneg ((a, x) ∷ m)

-- The two parts of one side, each with no negative amount, and together at most `whole` of any asset.
pub record AreParts (whole : Address → ℤ) (sides : Map Address ℤ × Map Address ℤ) : Type 0 where
  pub filled : AllNonneg sides.0
  pub left : AllNonneg sides.1
  pub within : (asset : Address) → balance asset sides.0 +ℤ balance asset sides.1 ≤ℤ whole asset

insert-AllNonneg :
    (k : Address) (v : ℤ) (m : Map Address ℤ) → pos 0 ≤ℤ v → AllNonneg m → AllNonneg (insert k v m)
unfolding insert
insert-AllNonneg k v [] h n = entry k v [] h empty
insert-AllNonneg k v ((i, u) ∷ m) h (entry _ _ _ z n) = elim (Bool-cases (i == k)) [
  | inl t ↦ rw t (entry i v m h n)
  | inr f ↦ rw f (entry i u (insert k v m) z (insert-AllNonneg k v m h n))
]

get_or-nonneg : (k : Address) (m : Map Address ℤ) → AllNonneg m → pos 0 ≤ℤ get_or k (pos 0) m
unfolding get_or lookup
get_or-nonneg k [] n = omega arith
get_or-nonneg k ((i, u) ∷ m) (entry _ _ _ z n) =
    let c = get_or-cons k i (pos 0) u m in
    elim (Bool-cases (i == k)) [ inl t ↦ rw (c, t) z | inr f ↦ rw (c, f) (get_or-nonneg k m n) ]

enter-AllNonneg :
    (k : Address) (v : ℤ) (m : Map Address ℤ) → pos 0 ≤ℤ v → AllNonneg m → AllNonneg (enter k v m)
unfolding enter
enter-AllNonneg k v m h n = elim (Bool-cases (ltb_ℤ (pos 0) v)) [
  | inl t ↦ rw t (insert-AllNonneg k v m h n)
  | inr f ↦ rw f n
]

enter-balance :
    (i k : Address) (v : ℤ) (m : Map Address ℤ)
    → pos 0 ≤ℤ v
    → AllNonneg m
    → balance i (enter k v m) ≤ℤ balance i m +ℤ (if i == k then v else pos 0)
unfolding enter
enter-balance i k v m h n =
    let b = insert-balance i k v m in
    let g = get_or-nonneg k m n in
    elim (Bool-cases (ltb_ℤ (pos 0) v)) [
      | inl t ↦ rw t (elim (Bool-cases (i == k)) [
        | inl s ↦ rw s (let c = rw s at b in omega int_laws)
        | inr s ↦ rw s (let c = rw s at b in omega int_laws)
      ])
      | inr f ↦ rw f (elim (Bool-cases (i == k)) [
        | inl s ↦ rw s (omega int_laws)
        | inr s ↦ rw s (omega int_laws)
      ])
    ]

module _ (mul : ℤ → ℤ → ℤ → Option ℤ) (percent modifier : ℕ)
    (part : (a : ℤ) → pos 0 ≤ℤ a → Ensures (IsPart a) (scale_amount mul percent modifier a)) where
  scale_step :
      (whole : Address → ℤ) (k : Address) (x : ℤ) (rest : Map Address ℤ)
      (sides : Map Address ℤ × Map Address ℤ) (r : ℤ × ℤ)
      → IsPart x r
      → AreParts (λ i. whole i) sides
      → AreParts
          (λ i. whole i +ℤ (if i == k then x else pos 0))
          (enter k r.0 sides.0, enter k r.1 sides.1)
  scale_step whole k x rest sides r p a = record {
    filled = enter-AllNonneg k r.0 sides.0 p.filled a.filled;
    left = enter-AllNonneg k r.1 sides.1 p.left a.left;
    within = λ i.
        let f = enter-balance i k r.0 sides.0 p.filled a.filled in
        let l = enter-balance i k r.1 sides.1 p.left a.left in
        let w = a.within i in
        let q = p.within in
        elim (Bool-cases (i == k)) [
          | inl s ↦ rw s (let f' = rw s at f in let l' = rw s at l in omega int_laws)
          | inr s ↦ rw s (let f' = rw s at f in let l' = rw s at l in omega int_laws)
        ];
  }

  loop-AreParts :
      (m : Map Address ℤ) (whole : Address → ℤ) (sides : Map Address ℤ × Map Address ℤ)
      → AllNonneg m
      → AreParts whole sides
      → Ensures (AreParts (λ i. whole i +ℤ balance i m)) (scale_loop mul percent modifier m sides)
  unfolding scale_loop
  loop-AreParts [] whole sides n a = Ensures-ok sides (record {
    filled = a.filled;
    left = a.left;
    within = λ i. let w = a.within i in let e = balance-empty i in omega int_laws;
  })
  loop-AreParts ((k, x) ∷ rest) whole sides (entry _ _ _ h n) a =
      Ensures-bind (scale_amount mul percent modifier x) _ λ r er. record {
        at = λ z ez.
            let s = scale_step whole k x rest sides r ((part x h).at r er) a in
            let q = (loop-AreParts rest _ _ n s).at z ez in
            record {
              filled = q.filled;
              left = q.left;
              within = λ i. let w = q.within i in let e = balance-cons i k x rest in omega int_laws;
            };
      }

-- The remaining auction, with nothing on either side where there is none.
abbrev pub remaining_bid : Option AuctionData → Map Address ℤ
remaining_bid none = []
remaining_bid (some a) = a.bid

abbrev pub remaining_lot : Option AuctionData → Map Address ℤ
remaining_lot none = []
remaining_lot (some a) = a.lot

abbrev pub remaining_block : Option AuctionData → ℕ
remaining_block none = 0
remaining_block (some a) = a.block

-- What is filled and what remains.
pub record IsSplit (auction_data : AuctionData) (r : AuctionData × Option AuctionData)
    : Type 0 where
  pub bids : AreParts (λ i. balance i auction_data.bid) (r.0.bid, remaining_bid r.1)
  pub lots : AreParts (λ i. balance i auction_data.lot) (r.0.lot, remaining_lot r.1)
  pub same_block : r.0.block ≡ auction_data.block
  pub block_left : (r.1 ≡ none) ⊎ (remaining_block r.1 ≡ auction_data.block)

is_empty-nil : (m : Map Address ℤ) → is_empty m ≡ true → m ≡ []
is_empty-nil [] h = refl
is_empty-nil (x ∷ m) h = absurd (cc h)

split :
    (a : AuctionData) (bids lots : Map Address ℤ × Map Address ℤ) (b : Bool)
    → is_empty lots.1 && is_empty bids.1 ≡ b
    → AreParts (λ i. balance i a.bid) bids
    → AreParts (λ i. balance i a.lot) lots
    → IsSplit a (
      record a { bid = bids.0; lot = lots.0 },
      if b then none else some (record a { bid = bids.1; lot = lots.1 }),
    )
split a bids lots false e p q = record {
  bids = p;
  lots = q;
  same_block = refl;
  block_left = inr refl;
}
split a bids lots true e p q = record {
  bids =
      subst (λ m. AreParts (λ i. balance i a.bid) (bids.0, m)) (is_empty-nil bids.1 (ground arith))
        p;
  lots =
      subst (λ m. AreParts (λ i. balance i a.lot) (lots.0, m)) (is_empty-nil lots.1 (ground arith))
        q;
  same_block = refl;
  block_left = inl refl;
}

weaken :
    (w w' : Address → ℤ) (sides : Map Address ℤ × Map Address ℤ)
    → ((i : Address) → w i ≤ℤ w' i)
    → AreParts w sides
    → AreParts w' sides
weaken w w' sides h a = record {
  filled = a.filled;
  left = a.left;
  within = λ i. let k = a.within i in let l = h i in omega int_laws;
}

nothing-AreParts : AreParts (λ i. pos 0) ([], [])
nothing-AreParts = record {
  filled = empty;
  left = empty;
  within = λ i. let e = balance-empty i in omega int_laws;
}

module _ (math : FixedPoint) (laws : FixedPointLaws math) (percent modifier : ℕ)
    (hp : percent ≤ scalar_7) (hm : modifier ≤ scalar_7) where
  any_bid-IsPart :
      (a : ℤ) → pos 0 ≤ℤ a → Ensures (IsPart a) (scale_amount math.mul_ceil percent modifier a)
  any_bid-IsPart (pos a) h = bid-IsPart math laws percent modifier a hp hm
  any_bid-IsPart (negsuc a) h = absurd (omega arith)

  any_lot-IsPart :
      (a : ℤ) → pos 0 ≤ℤ a → Ensures (IsPart a) (scale_amount math.mul_floor percent modifier a)
  any_lot-IsPart (pos a) h = lot-IsPart math laws percent modifier a hp hm
  any_lot-IsPart (negsuc a) h = absurd (omega arith)

  sides-AreParts :
      (m : Map Address ℤ)
      → AllNonneg m
      → Ensures (AreParts (λ i. balance i m)) (scale_loop math.mul_ceil percent modifier m ([], []))
        × Ensures
            (AreParts (λ i. balance i m))
            (scale_loop math.mul_floor percent modifier m ([], []))
  sides-AreParts m n = (
    record {
      at = λ r er.
          weaken (λ i. pos 0 +ℤ balance i m) (λ i. balance i m) r (λ i. omega int_laws)
            ((loop-AreParts math.mul_ceil percent modifier any_bid-IsPart m (λ i. pos 0) ([], []) n
                nothing-AreParts).at
              r er);
    },
    record {
      at = λ r er.
          weaken (λ i. pos 0 +ℤ balance i m) (λ i. balance i m) r (λ i. omega int_laws)
            ((loop-AreParts math.mul_floor percent modifier any_lot-IsPart m (λ i. pos 0) ([], []) n
                nothing-AreParts).at
              r er);
    },
  )

-- For an auction without negative amounts, and for each asset on either side: the fill takes no
-- negative amount and leaves none, and what it takes and what it leaves are together at most what was
-- there. The block of the auction stays.
pub scale_auction-IsSplit :
    (math : FixedPoint) (laws : FixedPointLaws math) (e : Env) (auction_data : AuctionData)
    (percent : ℕ)
    → AllNonneg auction_data.bid
    → AllNonneg auction_data.lot
    → Ensures (IsSplit auction_data) (scale_auction math e auction_data percent)
unfolding scale_auction
scale_auction-IsSplit math laws e a percent nb nl =
    Ensures-panic_if (ltb 100 percent || percent == 0) _ _ λ valid.
      Ensures-bind (sub_u e.sequence a.block) _ λ d _.
        let p = percent * 100000 in
        let hp : p ≤ scalar_7 = ground arith in
        let m = modifiers_bounds d in
        Ensures-bind (scale_loop math.mul_ceil p (bid_modifier d) a.bid ([], [])) _ λ bids eb.
          Ensures-bind (scale_loop math.mul_floor p (lot_modifier d) a.lot ([], [])) _ λ lots el.
            Ensures-ok _ (
              split a bids lots (is_empty lots.1 && is_empty bids.1) refl
                ((sides-AreParts math laws p (bid_modifier d) hp m.1 a.bid nb).0.at bids eb)
                ((sides-AreParts math laws p (lot_modifier d) hp m.0 a.lot nl).1.at lots el))
