-- ===== src/Pool/Ledger/Created.antt =====
-- New auctions in the books: pool/src/auctions.
use blend_contracts.Base.{
  ℕ, ◌||◌, ◌==◌, ltb, if◌then◌else◌, List, [], ℤ, pos, ltb_ℤ, div_ℤ, mul_i128, add_u, Ensures,
  Ensures-ok, Ensures-panic, Ensures-bind, Ensures-if, Ensures-panic_if,
}
use blend_contracts.Base.Host.{Address, Env}
use blend_contracts.Pool.State.{AuctionData, Storage, get_backstop, has_auction}
use blend_contracts.Pool.Cache.{Pool, load_pool}
use blend_contracts.Pool.Health.{PositionData, calculate_from_positions, is_hf_over, is_hf_under}
use blend_contracts.Pool.Emissions.Frame.{Kept, same-Kept, trans-Kept}
use blend_contracts.Pool.User.{User, load_user}
use blend_contracts.Pool.User.Moves.{Working, rm_positions}
use blend_contracts.Pool.Outside.{Outside}
use blend_contracts.Pool.Auction.Scale.{
  user_liquidation, bad_debt_auction, interest_auction, as_u32,
}
use blend_contracts.Pool.Auction.Liquidation.{
  quote_loop, withdrawn_collateral, require_partial, require_full, create_user_liq_auction_data,
}
use blend_contracts.Pool.Auction.BadDebt.{create_bad_debt_auction_data}
use blend_contracts.Pool.Auction.Interest.{create_interest_auction_data}
use blend_contracts.Pool.Auction.{
  create_liquidation, create_bad_debt_auction, create_interest_auction,
}
use blend_contracts.Pool.Ledger.Step.{rm_positions-IsStep}
use blend_contracts.Pool.Ledger.Others.{auction-Kept}

module _ {Chain : Type 0} (o : Outside Chain) (e : Env) where
  partial-Kept :
      (quote : AuctionData) (u : User) (pool : Pool) (s : Storage Chain)
      → Ensures (Kept s) (require_partial o e quote u pool s)
  unfolding require_partial
  partial-Kept quote u pool s =
      let w₀ : Working Chain = record { user = u; pool = pool; storage = s } in
      Ensures-bind (rm_positions o.math e quote.lot quote.bid w₀) _ λ w ew.
        Ensures-bind (calculate_from_positions o.math o.oracle e w.user.positions w.storage w.pool)
          _
          λ d _. Ensures-bind (is_hf_over o.math (pos 11500000) d.0) _ λ over _.
            Ensures-panic_if over _ _ λ _.
              Ensures-bind (is_hf_under o.math (pos 10300000) d.0) _ λ under _.
                Ensures-panic_if under _ _ λ _.
                  let t = (rm_positions-IsStep o.math e quote.lot quote.bid w₀).at w ew in
                  Ensures-ok _ t.kept

  full-Kept :
      (x : ℤ) (d : PositionData) (s : Storage Chain) → Ensures (Kept s) (require_full o e x d s)
  unfolding require_full
  full-Kept x d s = Ensures-panic_if (ltb_ℤ x d.collateral_raw) _ _ λ _. Ensures-ok _ (same-Kept s)

  liq_data-Kept :
      (user : Address) (percent : ℕ) (s : Storage Chain)
      → Ensures (λ r. Kept s r.1) (create_user_liq_auction_data o e user percent s)
  unfolding create_user_liq_auction_data
  liq_data-Kept user percent s =
      Ensures-panic_if (has_auction (as_u32 user_liquidation) user s) _ _ λ _.
        Ensures-panic_if (ltb 100 percent || percent == 0) _ _ λ _.
          Ensures-bind (add_u 32 e.sequence 1) _ λ block _. Ensures-bind (load_pool s) _ λ pool _.
            let u = load_user user s in
            Ensures-bind (calculate_from_positions o.math o.oracle e u.positions s pool) _ λ p _.
              let d = p.0 in
              Ensures-panic_if (ltb_ℤ d.liability_base d.collateral_base) _ _ λ _.
                Ensures-bind (mul_i128 (pos percent) d.scalar) _ λ scaled _.
                  let pct = div_ℤ scaled 100 in
                  Ensures-bind (withdrawn_collateral o.math d pct) _ λ x _.
                    Ensures-bind
                      (quote_loop o.math s.res_list x.1 d.scalar u.positions.collateral []) _
                      λ lot _.
                        Ensures-bind
                          (quote_loop o.math s.res_list pct d.scalar u.positions.liabilities []) _
                          λ bid _.
                            let quote : AuctionData = record {
                              bid = bid;
                              lot = lot;
                              block = block;
                            } in
                            Ensures-bind
                              (if percent == 100
                                then require_full o e x.0 d s
                                else require_partial o e quote u p.1 s)
                              _
                              λ s₁ e₁. Ensures-ok _ (
                                (Ensures-if (percent == 100) _ _ (λ _. full-Kept x.0 d s)
                                    (λ _. partial-Kept quote u p.1 s)).at
                                  s₁ e₁)

  pub liquidation-Kept :
      (user : Address) (percent : ℕ) (s : Storage Chain)
      → Ensures (λ r. Kept s r.1) (create_liquidation o e user percent s)
  unfolding create_liquidation
  liquidation-Kept user percent s =
      Ensures-if (user == e.current_contract_address) _ _ (λ _. Ensures-panic _)
        (λ _. Ensures-bind (get_backstop s) _ λ k _. Ensures-panic_if (user == k) _ _ λ _.
          Ensures-bind (create_user_liq_auction_data o e user percent s) _ λ r er. Ensures-ok _ (
            trans-Kept s r.1 _ ((liq_data-Kept user percent s).at r er)
              (auction-Kept (as_u32 user_liquidation) user r.0 r.1)))

  pub new_bad_debt-Kept :
      (s : Storage Chain) → Ensures (λ r. Kept s r.1) (create_bad_debt_auction o e s)
  unfolding create_bad_debt_auction
  new_bad_debt-Kept s = Ensures-bind (get_backstop s) _ λ k _.
      Ensures-bind (create_bad_debt_auction_data o e k s) _
        λ a _. Ensures-ok _ (auction-Kept (as_u32 bad_debt_auction) k a s)

  pub new_interest-Kept :
      (assets : List Address) (s : Storage Chain)
      → Ensures (λ r. Kept s r.1) (create_interest_auction o e assets s)
  unfolding create_interest_auction
  new_interest-Kept assets s = Ensures-bind (get_backstop s) _ λ k _.
      Ensures-bind (create_interest_auction_data o e k assets s) _
        λ a _. Ensures-ok _ (auction-Kept (as_u32 interest_auction) k a s)
