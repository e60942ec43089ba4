-- ===== src/Pool/Ledger/Auctions.antt =====
-- Every fill of an auction, and the removal of one, in the books: pool/src/auctions/auction.rs.
use blend_contracts.Base.{
  ℕ, ◌≡◌, refl, false, not, Option, none, some, ◌==◌, Ensures, Ensures-ok, Ensures-bind,
  Ensures-panic_if,
}
use blend_contracts.Base.Map.{nat_key}
use blend_contracts.Base.Host.{Address, Env}
use blend_contracts.Pool.State.{
  AuctionData, Storage, get_auction, has_auction, set_auction, del_auction,
}
use blend_contracts.Pool.Emissions.Frame.{Kept}
use blend_contracts.Pool.User.Moves.{Working}
use blend_contracts.Pool.Outside.{Outside}
use blend_contracts.Pool.Auction.Scale.{
  AuctionType, as_u32, user_liquidation, bad_debt_auction, interest_auction, scale_auction,
}
use blend_contracts.Pool.Auction.Scale.{from_u32 as auction_type_from_u32}
use blend_contracts.Pool.Auction.BadDebt.{fill_bad_debt_auction}
use blend_contracts.Pool.Auction.Interest.{fill_interest_auction}
use blend_contracts.Pool.Auction.{
  delete_liquidation, store_remaining, fill_kind, usdc_amounts, remaining_or_empty, fill,
}
use blend_contracts.Pool.Ledger.Step.{keep-IsStep}
use blend_contracts.Pool.Ledger.Pending.{IsPending, step-IsPending}
use blend_contracts.Pool.Ledger.Fill.{user_liq-IsPending, bad_debt-IsPending, interest-IsPending}

module _ {Chain : Type 0} where
  remaining-Kept :
      (auction_type : ℕ) (user : Address) (remaining : Option AuctionData) (s : Storage Chain)
      → Kept s (store_remaining auction_type user remaining s)
  unfolding store_remaining set_auction del_auction
  remaining-Kept auction_type user none s = record {
    res_configs = refl;
    res_data = refl;
    res_list = refl;
    positions = refl;
  }
  remaining-Kept auction_type user (some a) s = record {
    res_configs = refl;
    res_data = refl;
    res_list = refl;
    positions = refl;
  }

  pub delete-Kept :
      (user : Address) (s : Storage Chain) → Ensures (Kept s) (delete_liquidation user s)
  unfolding delete_liquidation del_auction
  delete-Kept user s =
      Ensures-panic_if (not (has_auction (as_u32 user_liquidation) user s)) _ _ λ _.
        Ensures-ok _
          (record { res_configs = refl; res_data = refl; res_list = refl; positions = refl })

module _ {Chain : Type 0} (o : Outside Chain) (e : Env) where
  fill_kind-IsPending :
      (kind : AuctionType) (to_fill : AuctionData) (user : Address) (w : Working Chain)
      → (user == w.user.address) ≡ false
      → IsPending w
      → Ensures IsPending (fill_kind o e kind to_fill user w)
  unfolding fill_kind
  fill_kind-IsPending user_liquidation to_fill user w ne p =
      user_liq-IsPending o e to_fill user w ne p
  fill_kind-IsPending bad_debt_auction to_fill user w ne p =
      Ensures-bind (fill_bad_debt_auction o e to_fill w) _
        λ r er. Ensures-ok _ ((bad_debt-IsPending o e to_fill w p).at r er)
  fill_kind-IsPending interest_auction to_fill user w ne p =
      Ensures-bind (fill_interest_auction o e to_fill w.user.address w.pool w.storage) _
        λ r er. Ensures-ok _ ((interest-IsPending o e to_fill w.user.address w p).at r er)

  pub fill-IsPending :
      (auction_type : ℕ) (user : Address) (percent : ℕ) (w : Working Chain)
      → IsPending w
      → Ensures IsPending (fill o e auction_type user percent w)
  unfolding fill
  fill-IsPending auction_type user percent w p = Ensures-panic_if (user == w.user.address) _ _ λ ne.
      Ensures-bind (get_auction auction_type user w.storage) _ λ a _.
        Ensures-bind (scale_auction o.math e a percent) _ λ parts _.
          Ensures-bind (auction_type_from_u32 auction_type) _ λ kind _.
            Ensures-bind (fill_kind o e kind parts.0 user w) _ λ w₁ e₁.
              let s = store_remaining auction_type user parts.1 w₁.storage in
              let rest = remaining_or_empty o e a parts.1 in
              Ensures-bind (usdc_amounts o e parts.0.bid s) _ λ _ _.
                Ensures-bind (usdc_amounts o e parts.0.lot s) _ λ _ _.
                  Ensures-bind (usdc_amounts o e rest.bid s) _ λ _ _.
                    Ensures-bind (usdc_amounts o e rest.lot s) _ λ _ _. Ensures-ok _ (
                      step-IsPending w₁ _
                        (keep-IsStep w₁ w₁.pool s
                          (remaining-Kept auction_type user parts.1 w₁.storage) refl refl)
                        ((fill_kind-IsPending kind parts.0 user w ne p).at w₁ e₁))
