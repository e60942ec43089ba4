-- ===== src/Pool/Ledger/Health.antt =====
-- The health of a user leaves the books as they are: pool/src/pool/health_factor.rs.
use blend_contracts.Base.{
  ℕ, ◌+◌, ◌^◌, inr, refl, false, ◌&&◌, List, [], ◌∷◌, ℤ, pos, eqb_ℤ, or_panic, host, checked,
  Ensures, Ensures-ok, Ensures-bind, Ensures-option, Ensures-bool,
}
use blend_contracts.Base.Map.{nat_key, get_or}
use blend_contracts.Base.FixedPoint.{FixedPoint}
use blend_contracts.Base.Host.{Address, Env}
use blend_contracts.Pool.State.{Positions, Storage}
use blend_contracts.Pool.Cache.{
  Pool, PriceFeedClient, load_reserve, cache_reserve, load_price_decimals,
}
use blend_contracts.Pool.Health.{
  PositionData, add_collateral_value, add_liability_value, position_loop, calculate_from_positions,
}
use blend_contracts.Pool.Emissions.Frame.{same-Kept}
use blend_contracts.Pool.Ledger.{Matches}
use blend_contracts.Pool.Ledger.Keep.{keep-Matches}
use blend_contracts.Pool.Ledger.Load.{load_reserve-IsCached}
use blend_contracts.Pool.Ledger.Change.{cache-Matches}

module _ {Chain : Type 0} (owed held : ℕ → ℤ) (s : Storage Chain) where
  decimals-Matches :
      (oracle : PriceFeedClient Chain) (pool : Pool)
      → Matches owed held s pool
      → Ensures (λ r. Matches owed held s r.1) (load_price_decimals oracle s pool)
  unfolding load_price_decimals
  decimals-Matches oracle pool m =
      Ensures-option pool.price_decimals _ _
        (λ _. Ensures-bind (or_panic host (oracle.decimals s.chain pool.config.oracle)) _ λ d _.
          Ensures-ok _ (
            keep-Matches owed held owed held (λ i. refl) (λ i. refl) s s pool _ refl refl refl refl
              refl m))
        (λ d _. Ensures-ok _ m)

  module _ (math : FixedPoint) (e : Env) (positions : Positions) where
    loop-Matches :
        (i : ℕ) (assets : List Address) (pool : Pool) (d : PositionData)
        → Matches owed held s pool
        → Ensures (λ r. Matches owed held s r.1) (position_loop math e positions s i assets pool d)
    unfolding position_loop
    loop-Matches i [] pool d m = Ensures-ok _ m
    loop-Matches i (asset ∷ assets) pool d m =
        let b = get_or i (pos 0) positions.collateral in
        let l = get_or i (pos 0) positions.liabilities in
        Ensures-bool (eqb_ℤ b (pos 0) && eqb_ℤ l (pos 0)) _ _
          (λ t. loop-Matches (i + 1) assets pool d m)
          (λ f. Ensures-bind (load_reserve math e asset false s pool) _ λ r er.
            Ensures-bind (add_collateral_value math b r.0 d) _ λ d₁ _.
              Ensures-bind (add_liability_value math l r.0 d₁) _ λ d₂ _.
                let c = (load_reserve-IsCached math e owed held asset false s pool m).at r er in
                loop-Matches (i + 1) assets (cache_reserve r.0 r.1) d₂ (
                  cache-Matches owed held owed held s s asset r.0 r.0 m.places c.0 (same-Kept s)
                    (record {
                      same_asset = refl;
                      same_index = refl;
                      debts = refl;
                      claims = refl;
                      others = λ i ne. (refl, refl);
                    })
                    false pool r.1 m c.1 (inr (λ i. (refl, refl)))))

    pub calculate-Matches :
        (oracle : PriceFeedClient Chain) (pool : Pool)
        → Matches owed held s pool
        → Ensures
            (λ r. Matches owed held s r.1)
            (calculate_from_positions math oracle e positions s pool)
    unfolding calculate_from_positions
    calculate-Matches oracle pool m = Ensures-bind (load_price_decimals oracle s pool) _ λ p ep.
        Ensures-bind (checked (pos (10 ^ p.0))) _
          λ scalar _. loop-Matches 0 s.res_list p.1 _ ((decimals-Matches oracle pool m).at p ep)
