-- ===== src/Pool/Ledger/Build.antt =====
-- Every request in the books: `build_actions_from_request` of pool/src/pool/actions.rs.
use blend_contracts.Base.{
  ℕ, ◌≡◌, ◌⊎◌, inl, inr, refl, Bool, true, false, List, [], ◌∷◌, if◌then◌else◌, ok, Ensures,
  Ensures-ok, Ensures-bind,
}
use blend_contracts.Base.Map.{nat_key}
use blend_contracts.Base.Host.{Address, Env}
use blend_contracts.Pool.State.{require_nonnegative}
use blend_contracts.Pool.Reserve.{
  Reserve, to_b_token_down, to_d_token_up, to_d_token_down, require_utilization_below_max,
}
use blend_contracts.Pool.Cache.{Pool, load_reserve, cache_reserve, require_action_allowed}
use blend_contracts.Pool.User.{
  Changed, get_supply, get_collateral, get_liabilities, add_supply, remove_supply, add_collateral,
  remove_collateral, add_liabilities, remove_liabilities,
}
use blend_contracts.Pool.User.Ledger.{Together, changes_Together}
use blend_contracts.Pool.User.Moves.{Working}
use blend_contracts.Pool.Outside.{Outside}
use blend_contracts.Pool.Report.{ActionType, collateral_action_info, borrow_action_info}
use blend_contracts.Pool.Auction.{delete_liquidation, fill}
use blend_contracts.Pool.Actions.{
  Request, RequestType, Building, from_u32, as_u64, add_for_spender_transfer, add_for_pool_transfer,
  burn_for, after, build_supply, build_withdraw, build_supply_collateral, build_withdraw_collateral,
  build_borrow, refund, build_repay, build_fill, build_delete, build, build_request, build_loop,
}
use blend_contracts.Pool.Settings.{IsConfigured, load_reserve-IsConfigured, fill-IsConfigured}
use blend_contracts.Pool.Ledger.Step.{keep-IsStep, change-IsStep}
use blend_contracts.Pool.Ledger.Pending.{IsPending, step-IsPending}
use blend_contracts.Pool.Ledger.Auctions.{fill-IsPending, delete-Kept}

-- The requests after which the user's health is checked.
abbrev pub sets_check : RequestType → Bool
sets_check RequestType.supply = false
sets_check RequestType.withdraw = false
sets_check RequestType.supply_collateral = false
sets_check RequestType.withdraw_collateral = true
sets_check RequestType.borrow = true
sets_check RequestType.repay = false
sets_check RequestType.fill_user_liquidation_auction = true
sets_check RequestType.fill_bad_debt_auction = true
sets_check RequestType.fill_interest_auction = false
sets_check RequestType.delete_liquidation_auction = true

-- What a request does to the books and to the check that is to come.
pub record IsBuilt {Chain : Type 0} (sets : Bool) (b b' : Building Chain) : Type 0 where
  pub pending : IsPending b.w → IsPending b'.w
  pub checks : (b.check_health ≡ true) ⊎ (sets ≡ true) → b'.check_health ≡ true
  pub config : IsConfigured b.w.pool.config b'.w.pool

kept_check : (x : Bool) → (x ≡ true) ⊎ (false ≡ true) → x ≡ true
kept_check x (inl h) = h
kept_check x (inr h) = absurd (cc h)

fill_check : (sets x : Bool) → (x ≡ true) ⊎ (sets ≡ true) → (if sets then true else x) ≡ true
fill_check true x h = refl
fill_check false x h = kept_check x h

module _ {Chain : Type 0} (o : Outside Chain) (e : Env) where
  -- The end of a request that has changed one position.
  changed-IsPending :
      (asset : Address) (w : Working Chain) (r : Reserve × Pool) (c : Changed Chain)
      → load_reserve o.math e asset true w.storage w.pool ≡ ok r
      → Together w.user r.0 w.storage c
      → IsPending w
      → IsPending (after o e c r.1)
  unfolding after
  changed-IsPending asset w r c er t p =
      step-IsPending w _ (change-IsStep o.math e asset w r c er t) p

  changed-IsConfigured :
      (asset : Address) (w : Working Chain) (r : Reserve × Pool) (c : Changed Chain)
      → load_reserve o.math e asset true w.storage w.pool ≡ ok r
      → IsConfigured w.pool.config (after o e c r.1).pool
  unfolding after cache_reserve
  changed-IsConfigured asset w r c er =
      (load_reserve-IsConfigured o.math e w.pool.config asset true w.storage w.pool refl).at r er

  module _ (request : Request) (b : Building Chain) where
    supply-IsBuilt : Ensures (IsBuilt false b) (build_supply o e request b)
    unfolding build_supply
    supply-IsBuilt =
        Ensures-bind (load_reserve o.math e request.address true b.w.storage b.w.pool) _ λ r er.
          Ensures-bind (to_b_token_down o.math r.0 request.amount) _ λ x _.
            Ensures-bind (add_supply o.math e x r.0 b.w.user b.w.storage) _ λ c ec.
              Ensures-bind (add_for_spender_transfer c.reserve.asset request.amount b.actions) _
                λ a _. Ensures-ok _ (record {
                  pending =
                      changed-IsPending request.address b.w r c er
                        ((changes_Together o.math e x r.0 b.w.user b.w.storage).4.at c ec);
                  checks = kept_check _;
                  config = changed-IsConfigured request.address b.w r c er;
                })

    withdraw-IsBuilt : Ensures (IsBuilt false b) (build_withdraw o e request b)
    unfolding build_withdraw
    withdraw-IsBuilt =
        Ensures-bind (load_reserve o.math e request.address true b.w.storage b.w.pool) _ λ r er.
          Ensures-bind (burn_for o e r.0 request.amount (get_supply r.0.index b.w.user)) _ λ x _.
            Ensures-bind (remove_supply o.math e x.0 r.0 b.w.user b.w.storage) _ λ c ec.
              Ensures-bind (add_for_pool_transfer c.reserve.asset x.1 b.actions) _ λ a _.
                Ensures-ok _ (record {
                  pending =
                      changed-IsPending request.address b.w r c er
                        ((changes_Together o.math e x.0 r.0 b.w.user b.w.storage).5.at c ec);
                  checks = kept_check _;
                  config = changed-IsConfigured request.address b.w r c er;
                })

    supply_collateral-IsBuilt : Ensures (IsBuilt false b) (build_supply_collateral o e request b)
    unfolding build_supply_collateral
    supply_collateral-IsBuilt =
        Ensures-bind (load_reserve o.math e request.address true b.w.storage b.w.pool) _ λ r er.
          Ensures-bind (to_b_token_down o.math r.0 request.amount) _ λ x _.
            Ensures-bind (add_collateral o.math e x r.0 b.w.user b.w.storage) _ λ c ec.
              Ensures-bind (add_for_spender_transfer c.reserve.asset request.amount b.actions) _
                λ a _.
                  Ensures-bind
                    (collateral_action_info o e ActionType.supply request.address request.amount x
                      c.emissions c.user c.reserve c.storage)
                    _
                    λ _ _. Ensures-ok _ (record {
                      pending =
                          changed-IsPending request.address b.w r c er
                            ((changes_Together o.math e x r.0 b.w.user b.w.storage).2.at c ec);
                      checks = kept_check _;
                      config = changed-IsConfigured request.address b.w r c er;
                    })

    withdraw_collateral-IsBuilt : Ensures (IsBuilt true b) (build_withdraw_collateral o e request b)
    unfolding build_withdraw_collateral
    withdraw_collateral-IsBuilt =
        Ensures-bind (load_reserve o.math e request.address true b.w.storage b.w.pool) _ λ r er.
          Ensures-bind (burn_for o e r.0 request.amount (get_collateral r.0.index b.w.user)) _
            λ x _. Ensures-bind (remove_collateral o.math e x.0 r.0 b.w.user b.w.storage) _ λ c ec.
              Ensures-bind (add_for_pool_transfer c.reserve.asset x.1 b.actions) _ λ a _.
                Ensures-bind
                  (collateral_action_info o e ActionType.withdraw request.address x.1 x.0
                    c.emissions c.user c.reserve c.storage)
                  _
                  λ _ _. Ensures-ok _ (record {
                    pending =
                        changed-IsPending request.address b.w r c er
                          ((changes_Together o.math e x.0 r.0 b.w.user b.w.storage).3.at c ec);
                    checks = λ h. refl;
                    config = changed-IsConfigured request.address b.w r c er;
                  })

    borrow-IsBuilt : Ensures (IsBuilt true b) (build_borrow o e request b)
    unfolding build_borrow
    borrow-IsBuilt =
        Ensures-bind (load_reserve o.math e request.address true b.w.storage b.w.pool) _ λ r er.
          Ensures-bind (to_d_token_up o.math r.0 request.amount) _ λ x _.
            Ensures-bind (add_liabilities o.math e x r.0 b.w.user b.w.storage) _ λ c ec.
              Ensures-bind (require_utilization_below_max o.math c.reserve) _ λ _ _.
                Ensures-bind (add_for_pool_transfer c.reserve.asset request.amount b.actions) _
                  λ a _.
                    Ensures-bind
                      (borrow_action_info o e ActionType.borrow request.address request.amount x
                        c.emissions c.user c.reserve c.storage)
                      _
                      λ _ _. Ensures-ok _ (record {
                        pending =
                            changed-IsPending request.address b.w r c er
                              ((changes_Together o.math e x r.0 b.w.user b.w.storage).0.at c ec);
                        checks = λ h. refl;
                        config = changed-IsConfigured request.address b.w r c er;
                      })

    repay-IsBuilt : Ensures (IsBuilt false b) (build_repay o e request b)
    unfolding build_repay
    repay-IsBuilt =
        Ensures-bind (load_reserve o.math e request.address true b.w.storage b.w.pool) _ λ r er.
          Ensures-bind (to_d_token_down o.math r.0 request.amount) _ λ x _.
            Ensures-bind (add_for_spender_transfer r.0.asset request.amount b.actions) _ λ a _.
              Ensures-bind (refund o e request r.0 x (get_liabilities r.0.index b.w.user) a) _
                λ burned _.
                  Ensures-bind (remove_liabilities o.math e burned.0 r.0 b.w.user b.w.storage) _
                    λ c ec.
                      Ensures-bind
                        (borrow_action_info o e ActionType.repay request.address request.amount
                          burned.0 c.emissions c.user c.reserve c.storage)
                        _
                        λ _ _. Ensures-ok _ (record {
                          pending = changed-IsPending request.address b.w r c er (
                              (changes_Together o.math e burned.0 r.0 b.w.user b.w.storage).1.at c
                                ec);
                          checks = kept_check _;
                          config = changed-IsConfigured request.address b.w r c er;
                        })

    build_fill-IsBuilt :
        (auction_type : ℕ) (checks : Bool)
        → Ensures (IsBuilt checks b) (build_fill o e auction_type checks request b)
    unfolding build_fill
    build_fill-IsBuilt auction_type checks =
        Ensures-bind (fill o e auction_type request.address (as_u64 request.amount) b.w) _ λ w ew.
          Ensures-ok _ (record {
            pending = λ p.
                (fill-IsPending o e auction_type request.address (as_u64 request.amount) b.w p).at w
                  ew;
            checks = fill_check checks b.check_health;
            config =
                (fill-IsConfigured o e b.w.pool.config auction_type request.address
                    (as_u64 request.amount) b.w refl).at
                  w ew;
          })

    delete-IsBuilt : Ensures (IsBuilt true b) (build_delete o e b)
    unfolding build_delete
    delete-IsBuilt = Ensures-bind (delete_liquidation b.w.user.address b.w.storage) _ λ s es.
        Ensures-ok _ (record {
          pending = step-IsPending b.w _ (
              keep-IsStep b.w b.w.pool s ((delete-Kept b.w.user.address b.w.storage).at s es) refl
                refl);
          checks = λ h. refl;
          config = refl;
        })

    build-IsBuilt : (t : RequestType) → Ensures (IsBuilt (sets_check t) b) (build o e t request b)
    unfolding build
    build-IsBuilt RequestType.supply = supply-IsBuilt
    build-IsBuilt RequestType.withdraw = withdraw-IsBuilt
    build-IsBuilt RequestType.supply_collateral = supply_collateral-IsBuilt
    build-IsBuilt RequestType.withdraw_collateral = withdraw_collateral-IsBuilt
    build-IsBuilt RequestType.borrow = borrow-IsBuilt
    build-IsBuilt RequestType.repay = repay-IsBuilt
    build-IsBuilt RequestType.fill_user_liquidation_auction = build_fill-IsBuilt 0 true
    build-IsBuilt RequestType.fill_bad_debt_auction = build_fill-IsBuilt 1 true
    build-IsBuilt RequestType.fill_interest_auction = build_fill-IsBuilt 2 false
    build-IsBuilt RequestType.delete_liquidation_auction = delete-IsBuilt

    pub request-IsBuilt :
        Ensures
          (λ b'.
            (t : RequestType) × (from_u32 request.request_type ≡ ok t)
            × IsBuilt (sets_check t) b b')
          (build_request o e request b)
    unfolding build_request
    request-IsBuilt = Ensures-bind (require_nonnegative request.amount) _ λ _ _.
        Ensures-bind (require_action_allowed request.request_type b.w.pool) _ λ _ _.
          Ensures-bind (from_u32 request.request_type) _
            λ t et. record { at = λ b' eb. (t, et, (build-IsBuilt t).at b' eb) }

  pub loop-IsPending :
      (requests : List Request) (b : Building Chain)
      → IsPending b.w
      → Ensures (λ b'. IsPending b'.w) (build_loop o e requests b)
  unfolding build_loop
  loop-IsPending [] b p = Ensures-ok b p
  loop-IsPending (request ∷ requests) b p = Ensures-bind (build_request o e request b) _ λ b₁ e₁.
      let q = (request-IsBuilt request b).at b₁ e₁ in loop-IsPending requests b₁ (q.2.pending p)
