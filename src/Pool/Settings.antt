-- ===== src/Pool/Settings.antt =====
-- The configuration that a call holds in memory through all requests: pool/src/pool/pool.rs,
-- pool/src/pool/user.rs and pool/src/auctions.
use blend_contracts.Base.{
  ℕ, ◌≡◌, sym, ◌∙◌, Bool, true, [], ◌∷◌, arith, ◌==◌, ltb_ℤ, ℤ, pos, Outcome, ok, or_panic, unwrap,
  host, sub_i128, Ensures, Ensures-ok, Ensures-bind, Ensures-panic_if, Ensures-if, Ensures-option,
}
use blend_contracts.Base.Map.{Map, nat_key, lookup}
use blend_contracts.Base.FixedPoint.{FixedPoint}
use blend_contracts.Base.Host.{Address, Env}
use blend_contracts.Pool.State.{
  Storage, AuctionData, PoolConfig, get_pool_config, get_backstop, get_auction,
}
use blend_contracts.Pool.Reserve.{Reserve, load}
use blend_contracts.Pool.Status.{calc_pool_backstop_threshold}
use blend_contracts.Pool.Cache.{Pool, load_pool, mark, load_reserve, cache_reserve}
use blend_contracts.Pool.User.{
  User, Changed, load_user, is_empty, add_liabilities, remove_liabilities, add_collateral,
  remove_collateral,
}
use blend_contracts.Pool.User.Moves.{
  Working, change_position, change_positions, rm_positions, add_positions,
}
use blend_contracts.Pool.Outside.{Outside}
use blend_contracts.Pool.Auction.{
  fill_kind, store_remaining, usdc_amounts, remaining_or_empty, fill,
}
use blend_contracts.Pool.Auction.Scale.{
  AuctionType, user_liquidation, bad_debt_auction, interest_auction, scale_auction,
}
use blend_contracts.Pool.Auction.Scale.{from_u32 as auction_type_from_u32}
use blend_contracts.Pool.Auction.Liquidation.{fill_user_liq_auction}
use blend_contracts.Pool.Auction.BadDebt.{by_asset, burn_bad_debt, fill_bad_debt_auction}
use blend_contracts.Pool.Auction.Interest.{pay_loop, fill_interest_auction}

-- The pool in memory has this configuration.
abbrev pub IsConfigured : PoolConfig → Pool → Type 0
IsConfigured c pool = pool.config ≡ c

mark-IsConfigured :
    (asset : Address) (to_store : Bool) (pool : Pool)
    → IsConfigured pool.config (mark asset to_store pool)
unfolding mark
mark-IsConfigured asset to_store pool = ground arith

pub load_pool-IsConfigured :
    {Chain : Type 0} (s : Storage Chain) (c : PoolConfig)
    → get_pool_config s ≡ ok c
    → Ensures (IsConfigured c) (load_pool s)
unfolding load_pool
load_pool-IsConfigured s c h =
    Ensures-bind (get_pool_config s) _
      λ k ek. let same : ok k ≡ ok c = sym ek ∙ h in Ensures-ok _ (cc)

module _ {Chain : Type 0} (math : FixedPoint) (e : Env) (k : PoolConfig) where
  pub load_reserve-IsConfigured :
      (asset : Address) (to_store : Bool) (s : Storage Chain) (pool : Pool)
      → IsConfigured k pool
      → Ensures (λ r. IsConfigured k r.1) (load_reserve math e asset to_store s pool)
  unfolding load_reserve
  load_reserve-IsConfigured asset to_store s pool h =
      Ensures-option (lookup asset pool.reserves) _ _
        (λ _.
          Ensures-bind (load math e pool.config asset s) _
            λ r _. Ensures-ok _ (mark-IsConfigured asset to_store pool ∙ h))
        (λ r _. Ensures-ok _ (mark-IsConfigured asset to_store pool ∙ h))

  change_positions-IsConfigured :
      (change : ℤ → Reserve → User → Storage Chain → Outcome (Changed Chain))
      (amounts : Map Address ℤ) (w : Working Chain)
      → IsConfigured k w.pool
      → Ensures (λ w'. IsConfigured k w'.pool) (change_positions math e change amounts w)
  unfolding change_positions change_position cache_reserve
  change_positions-IsConfigured change [] w h = Ensures-ok w h
  change_positions-IsConfigured change ((asset, amount) ∷ amounts) w h =
      Ensures-bind (change_position math e (change amount) asset w) _ λ w₁ e₁.
        change_positions-IsConfigured change amounts w₁ (
          (Ensures-bind (load_reserve math e asset true w.storage w.pool) _ λ r er.
              Ensures-bind (change amount r.0 w.user w.storage) _ λ c _.
                Ensures-ok {P = λ w'. IsConfigured k w'.pool} _
                  ((load_reserve-IsConfigured asset true w.storage w.pool h).at r er)).at
            w₁ e₁)

  pub rm_positions-IsConfigured :
      (collateral liabilities : Map Address ℤ) (w : Working Chain)
      → IsConfigured k w.pool
      → Ensures (λ w'. IsConfigured k w'.pool) (rm_positions math e collateral liabilities w)
  unfolding rm_positions
  rm_positions-IsConfigured collateral liabilities w h =
      Ensures-bind (change_positions math e (remove_collateral math e) collateral w) _ λ w₁ e₁.
        change_positions-IsConfigured (remove_liabilities math e) liabilities w₁
          ((change_positions-IsConfigured (remove_collateral math e) collateral w h).at w₁ e₁)

  pub add_positions-IsConfigured :
      (collateral liabilities : Map Address ℤ) (w : Working Chain)
      → IsConfigured k w.pool
      → Ensures (λ w'. IsConfigured k w'.pool) (add_positions math e collateral liabilities w)
  unfolding add_positions
  add_positions-IsConfigured collateral liabilities w h =
      Ensures-bind (change_positions math e (add_collateral math e) collateral w) _ λ w₁ e₁.
        change_positions-IsConfigured (add_liabilities math e) liabilities w₁
          ((change_positions-IsConfigured (add_collateral math e) collateral w h).at w₁ e₁)

module _ {Chain : Type 0} (o : Outside Chain) (e : Env) (k : PoolConfig) where
  user_liq-IsConfigured :
      (auction_data : AuctionData) (user : Address) (w : Working Chain)
      → IsConfigured k w.pool
      → Ensures (λ w'. IsConfigured k w'.pool) (fill_user_liq_auction o e auction_data user w)
  unfolding fill_user_liq_auction
  user_liq-IsConfigured a user w h =
      let w₀ : Working Chain = record w { user = load_user user w.storage } in
      Ensures-bind (rm_positions o.math e a.lot a.bid w₀) _ λ from ef.
        let w₁ : Working Chain = record from { user = w.user } in
        let h₁ = (rm_positions-IsConfigured o.math e k a.lot a.bid w₀ h).at from ef in
        Ensures-bind (add_positions o.math e a.lot a.bid w₁) _
          λ to et. Ensures-ok _ ((add_positions-IsConfigured o.math e k a.lot a.bid w₁ h₁).at to et)

  burn-IsConfigured :
      (backstop_address : Address) (w : Working Chain)
      → IsConfigured k w.pool
      → Ensures (λ w'. IsConfigured k w'.pool) (burn_bad_debt o e backstop_address w)
  unfolding burn_bad_debt
  burn-IsConfigured backstop_address w h =
      Ensures-if (is_empty w.user.positions.liabilities) _ _ (λ _. Ensures-ok w h)
        (λ _.
          Ensures-bind
            (or_panic host
              (o.backstop.pool_data w.storage.chain backstop_address e.current_contract_address))
            _
            λ d _.
              Ensures-if (ltb_ℤ (calc_pool_backstop_threshold d) (pos 3)) _ _
                (λ _.
                  Ensures-bind (by_asset w.storage.res_list w.user.positions.liabilities []) _
                    λ liabilities _. rm_positions-IsConfigured o.math e k [] liabilities w h)
                (λ _. Ensures-ok w h))

  bad_debt-IsConfigured :
      (auction_data : AuctionData) (w : Working Chain)
      → IsConfigured k w.pool
      → Ensures (λ r. IsConfigured k r.1.pool) (fill_bad_debt_auction o e auction_data w)
  unfolding fill_bad_debt_auction
  bad_debt-IsConfigured a w h = Ensures-bind (get_backstop w.storage) _ λ b _.
      Ensures-panic_if (w.user.address == b) _ _ λ _.
        let w₀ : Working Chain = record w { user = load_user b w.storage } in
        Ensures-bind (rm_positions o.math e [] a.bid w₀) _ λ from ef.
          let w₁ : Working Chain = record from { user = w.user } in
          let h₁ = (rm_positions-IsConfigured o.math e k [] a.bid w₀ h).at from ef in
          Ensures-bind (add_positions o.math e [] a.bid w₁) _ λ to et.
            let h₂ = (add_positions-IsConfigured o.math e k [] a.bid w₁ h₁).at to et in
            Ensures-bind (or_panic host (o.backstop.backstop_token to.storage.chain b)) _ λ token _.
              Ensures-bind (unwrap (lookup token a.lot)) _ λ lot_amount _.
                Ensures-bind
                  (or_panic host (
                    o.backstop.draw to.storage.chain b e.current_contract_address lot_amount
                      w.user.address))
                  _
                  λ c _.
                    let st = to.storage in
                    let w₂ : Working Chain = record to {
                      user = from.user;
                      storage = record st { chain = c };
                    } in
                    Ensures-bind (burn_bad_debt o e b w₂) _
                      λ left el. Ensures-ok _ ((burn-IsConfigured b w₂ h₂).at left el)

  pay_loop-IsConfigured :
      (filler : Address) (lot : Map Address ℤ) (pool : Pool) (s : Storage Chain)
      → IsConfigured k pool
      → Ensures (λ r. IsConfigured k r.0) (pay_loop o e filler lot (pool, s))
  unfolding pay_loop cache_reserve
  pay_loop-IsConfigured filler [] pool s h = Ensures-ok _ h
  pay_loop-IsConfigured filler ((asset, amount) ∷ rest) pool s h =
      Ensures-bind (load_reserve o.math e asset true s pool) _ λ r er.
        Ensures-bind (sub_i128 r.0.backstop_credit amount) _ λ credit _.
          Ensures-bind
            (or_panic host
              (o.tokens.transfer s.chain asset e.current_contract_address filler amount))
            _
            λ c _.
              let q = r.0 in
              pay_loop-IsConfigured filler rest
                (cache_reserve (record q { backstop_credit = credit }) r.1) (record s { chain = c })
                ((load_reserve-IsConfigured o.math e k asset true s pool h).at r er)

  interest-IsConfigured :
      (auction_data : AuctionData) (filler : Address) (pool : Pool) (s : Storage Chain)
      → IsConfigured k pool
      → Ensures (λ r. IsConfigured k r.1.0) (fill_interest_auction o e auction_data filler pool s)
  unfolding fill_interest_auction
  interest-IsConfigured a filler pool s h = Ensures-bind (get_backstop s) _ λ b _.
      Ensures-panic_if (filler == b) _ _ λ _.
        Ensures-bind (or_panic host (o.backstop.backstop_token s.chain b)) _ λ token _.
          Ensures-bind (or_panic host (lookup token a.bid)) _ λ amount _.
            Ensures-bind
              (or_panic host (o.backstop.donate s.chain b filler e.current_contract_address amount))
              _
              λ c _.
                let s' : Storage Chain = record s { chain = c } in
                Ensures-bind (pay_loop o e filler a.lot (pool, s')) _
                  λ r er. Ensures-ok _ ((pay_loop-IsConfigured filler a.lot pool s' h).at r er)

  fill_kind-IsConfigured :
      (kind : AuctionType) (to_fill : AuctionData) (user : Address) (w : Working Chain)
      → IsConfigured k w.pool
      → Ensures (λ w'. IsConfigured k w'.pool) (fill_kind o e kind to_fill user w)
  unfolding fill_kind
  fill_kind-IsConfigured user_liquidation to_fill user w h = user_liq-IsConfigured to_fill user w h
  fill_kind-IsConfigured bad_debt_auction to_fill user w h =
      Ensures-bind (fill_bad_debt_auction o e to_fill w) _
        λ r er. Ensures-ok _ ((bad_debt-IsConfigured to_fill w h).at r er)
  fill_kind-IsConfigured interest_auction to_fill user w h =
      Ensures-bind (fill_interest_auction o e to_fill w.user.address w.pool w.storage) _ λ r er.
        Ensures-ok _ ((interest-IsConfigured to_fill w.user.address w.pool w.storage h).at r er)

  pub fill-IsConfigured :
      (auction_type : ℕ) (user : Address) (percent : ℕ) (w : Working Chain)
      → IsConfigured k w.pool
      → Ensures (λ w'. IsConfigured k w'.pool) (fill o e auction_type user percent w)
  unfolding fill
  fill-IsConfigured auction_type user percent w h =
      Ensures-panic_if (user == w.user.address) _ _ λ _.
        Ensures-bind (get_auction auction_type user w.storage) _ λ a _.
          Ensures-bind (scale_auction o.math e a percent) _ λ parts _.
            Ensures-bind (auction_type_from_u32 auction_type) _ λ kind _.
              Ensures-bind (fill_kind o e kind parts.0 user w) _ λ w₁ e₁.
                let s = store_remaining auction_type user parts.1 w₁.storage in
                let rest = remaining_or_empty o e a parts.1 in
                Ensures-bind (usdc_amounts o e parts.0.bid s) _ λ _ _.
                  Ensures-bind (usdc_amounts o e parts.0.lot s) _ λ _ _.
                    Ensures-bind (usdc_amounts o e rest.bid s) _ λ _ _.
                      Ensures-bind (usdc_amounts o e rest.lot s) _ λ _ _.
                        Ensures-ok _ ((fill_kind-IsConfigured kind parts.0 user w h).at w₁ e₁)
