-- ===== src/Pool/CallTests.antt =====
-- The theorems on the pool's calls at concrete inputs, and runs of the calls (pool/src).
use blend_contracts.Base.{
  inl, Panic, panic, ◌+◌, ◌-◌, ◌*◌, ◌≤◌, ◌<◌, Option, ◌≡◌, ◌⊎◌, refl, none, some, List, [], ◌∷◌,
  arith, ℤ, pos, ◌≤ℤ◌, ok, Ensures, fits_i128, checked, settle, saturating_mul, div_ℤ, ◌+ℤ◌, ◌-ℤ◌,
  ◌*ℤ◌, add_u, sub_u, mul_u,
}
use blend_contracts.Base.Map.{nat_key, lookup, insert, remove, get_or}
use blend_contracts.Samples.{exact, exact_laws, env_at, free_tokens, floor_of, ceil_of}
use blend_contracts.Pool.State.{
  require_nonnegative, set_is_init, get_admin, set_admin, set_backstop, get_blnd_token,
  set_blnd_token, set_res_config, has_res, get_queued_reserve_set, has_queued_reserve_set,
  set_queued_reserve_set, del_queued_reserve_set, push_res_list, set_res_emis_config,
  set_pool_emissions, get_auction, has_auction, set_auction, del_auction, get_backstop,
  get_pool_config, set_pool_config, get_res_config, get_res_data, set_res_data, get_res_emis_config,
  get_res_emis_data, set_res_emis_data, get_user_emissions, set_user_emissions, get_user_positions,
  set_user_positions,
}
use blend_contracts.Pool.Cache.{
  effective_count, load_pool, mark, load_reserve, cache_reserve, store_loop, store_cached_reserves,
  require_action_allowed, require_under_max, load_price_decimals, load_price,
}
use blend_contracts.Pool.Reserve.{
  to_asset_from_d_token, to_asset_from_b_token, to_effective_asset_from_d_token,
  to_effective_asset_from_b_token, to_d_token_up, to_d_token_down, to_b_token_up, to_b_token_down,
  total_liabilities, total_supply, utilization, require_utilization_below_max, from_stored,
  to_stored, credit_interest, accrue, update, load, store,
}
use blend_contracts.Pool.Health.{
  add_collateral_value, add_liability_value, position_loop, calculate_from_positions,
  as_health_factor, is_hf_over, is_hf_under,
}
use blend_contracts.Pool.User.{
  load_user, store_user, has_liabilities, get_liabilities, get_collateral, get_supply,
  get_total_supply, set_balance, update_d_emissions, update_b_emissions, add_liabilities,
  remove_liabilities, add_collateral, remove_collateral, add_supply, remove_supply,
}
use blend_contracts.Pool.User.Moves.{change_position, change_positions, rm_positions, add_positions}
use blend_contracts.Pool.Emissions.{set_user_emissions as emissions_set_user_emissions}
use blend_contracts.Pool.Emissions.{
  accrual, update_user_emissions, additional_index, update_emission_data_with_config,
  update_emission_data, emissions_call, update_emissions, claim_emissions,
}
use blend_contracts.Pool.Status.{
  saturating_pool_pc, calc_pool_backstop_threshold, updated_status, admin_status,
  execute_update_pool_status, execute_set_pool_status,
}
use blend_contracts.Pool.Outside.{listed, get_token_amount_in_usdc_value, try_transfer}
use blend_contracts.Pool.Report.{collateral_action_info, borrow_action_info}
use blend_contracts.Pool.Actions.{
  from_u32, as_u64, add_for_spender_transfer, add_for_pool_transfer, burn_for, after, build_supply,
  build_withdraw, build_supply_collateral, build_withdraw_collateral, build_borrow, refund,
  build_repay, build_fill, build_delete, build, build_request, build_loop,
  build_actions_from_request,
}
use blend_contracts.Pool.Submit.{
  transfer_loop, require_healthy, execute_submit, submit, bad_debt_loop,
  transfer_bad_debt_to_backstop,
}
use blend_contracts.Pool.Config.{
  require_valid_reserve_metadata, same_curve, execute_initialize, execute_update_pool,
  execute_cancel_queued_set_reserve, execute_queue_set_reserve, create_reserve, accrue_reserve,
  initialize_reserve, execute_set_reserve,
}
use blend_contracts.Pool.Contract.{set_admin as contract_set_admin}
use blend_contracts.Pool.Contract.{
  initialize, update_pool, queue_set_reserve, cancel_set_reserve, set_status, set_emissions_config,
  claim,
}
use blend_contracts.Pool.Calls.{second, execute_call, step, run}
use blend_contracts.Pool.State.{
  AuctionData, PoolConfig, ReserveConfig, ReserveData, Storage, scalar_7,
}
use blend_contracts.Pool.Status.{PoolBackstopData}
use blend_contracts.Pool.Outside.{Outside, usdc}
use blend_contracts.Pool.Actions.{Request, RequestType}
use blend_contracts.Pool.Calls.{
  Step, called, deployed, initialize_call, set_reserve_call, queue_set_reserve_call, submit_call,
  set_status_call,
}
use blend_contracts.Pool.Ledger.Totals.{all_debts, all_claims}
use blend_contracts.Pool.Ledger.Run.{run_supplies}
use blend_contracts.Pool.Safety.{IsHealthy, here, there, submit-IsHealthy}
use blend_contracts.Pool.Refusals.{IsRefused, HasRefused, submit_refused}
use blend_contracts.Pool.Auction.Scale.{
  bid_modifier, lot_modifier, per_block_scalar, scale_amount, enter, scale_loop, scale_auction,
}
use blend_contracts.Pool.Auction.Modifiers.{min, modifiers_lem}
use blend_contracts.Pool.Auction.Parts.{empty, entry, IsSplit, scale_auction-IsSplit}
use blend_contracts.Pool.Auction.Terms.{later_fill}
use blend_contracts.Pool.Auction.Returns
use blend_contracts.Pool.Auction.Returns.{scale_auction_returns}
use blend_contracts.Pool.Config.Lock.{queued_reserve_lock}
use blend_contracts.Pool.Emissions.Manager.{set_emissions}
use blend_contracts.Pool.Emissions.Shares.{total_shares, set_emissions-bounded}

abbrev healthy : PoolBackstopData
healthy = record {
  tokens = pos 1000;
  q4w_pct = pos 2000000;
  blnd = pos 3000000000000;
  usdc = pos 500000000000;
}

-- Contracts that answer every call: prices of one, and no effect of a transfer.
abbrev outside : Outside (Unit {0})
outside = record {
  math = exact;
  oracle = record { decimals = λ c a. some 7; lastprice = λ c a b. some (some (pos 10000000)) };
  tokens = free_tokens;
  transfer_from = λ c token spender from to x. some c;
  reflector = record {
    symbol = λ c a. some usdc;
    offchain_price = λ c a. some (some (pos 100000000000000));
    pubnet_price = λ c a. some none;
    fixed_mul_ceil = exact.mul_ceil;
  };
  backstop = record {
    pool_data = λ c backstop pool. some healthy;
    backstop_token = λ c backstop. some 3;
    draw = λ c backstop pool x to. some c;
    donate = λ c backstop from pool x. some c;
    gulp_pool_emissions = λ c backstop pool. some (pos 10000000, c);
  };
  deployment_seq = 0;
}

abbrev reserve_config : ReserveConfig
reserve_config = record {
  index = 0;
  decimals = 7;
  c_factor = 7500000;
  l_factor = 7500000;
  util = 7500000;
  max_util = 9500000;
  r_base = 100000;
  r_one = 500000;
  r_two = 5000000;
  r_three = 15000000;
  reactivity = 200;
}

-- A pool is set up with one reserve, and a user supplies 1000 tokens as collateral and borrows 300.
abbrev requests : List Request
requests =
    record { request_type = 2; address = 30; amount = pos 10000000000 }
    ∷ record { request_type = 4; address = 30; amount = pos 3000000000 }
    ∷ []

abbrev set_up : List (Step (Unit {0}))
set_up =
    called (env_at 1000) (initialize_call 7 8 1000000 4 2 4)
    ∷ called (env_at 1000) (queue_set_reserve_call 30 reserve_config)
    ∷ called (env_at 1000) (set_reserve_call 30)
    ∷ called (env_at 1000) (set_status_call 0)
    ∷ []

abbrev steps : List (Step (Unit {0}))
steps =
    called (env_at 1000) (initialize_call 7 8 1000000 4 2 4)
    ∷ called (env_at 1000) (queue_set_reserve_call 30 reserve_config)
    ∷ called (env_at 1000) (set_reserve_call 30)
    ∷ called (env_at 1000) (set_status_call 0)
    ∷ called (env_at 1000) (submit_call 40 40 40 requests)
    ∷ []

abbrev lent : ReserveData
lent = record {
  d_rate = pos 1000000000;
  b_rate = pos 1000000000;
  ir_mod = pos 1000000000;
  b_supply = pos 10000000000;
  d_supply = pos 3000000000;
  backstop_credit = pos 0;
  last_time = 1000;
}

run_supplies_example :
    (pos 3000000000 ≡ all_debts (run outside steps (deployed tt)).positions 0)
    × (pos 10000000000 ≡ all_claims (run outside steps (deployed tt)).positions 0)
unfolding require_nonnegative set_is_init get_admin set_admin set_backstop get_blnd_token
    set_blnd_token set_res_config has_res get_queued_reserve_set has_queued_reserve_set
    set_queued_reserve_set del_queued_reserve_set push_res_list set_res_emis_config
    set_pool_emissions get_auction has_auction set_auction del_auction get_backstop get_pool_config
    set_pool_config get_res_config get_res_data set_res_data get_res_emis_config get_res_emis_data
    set_res_emis_data get_user_emissions set_user_emissions get_user_positions set_user_positions
    effective_count load_pool mark load_reserve cache_reserve store_loop store_cached_reserves
    require_action_allowed require_under_max load_price_decimals load_price to_asset_from_d_token
    to_asset_from_b_token to_effective_asset_from_d_token to_effective_asset_from_b_token
    to_d_token_up to_d_token_down to_b_token_up to_b_token_down total_liabilities total_supply
    utilization require_utilization_below_max from_stored to_stored credit_interest accrue update
    load store add_collateral_value add_liability_value position_loop calculate_from_positions
    as_health_factor is_hf_over is_hf_under load_user store_user has_liabilities get_liabilities
    get_collateral get_supply get_total_supply set_balance update_d_emissions update_b_emissions
    add_liabilities remove_liabilities add_collateral remove_collateral add_supply remove_supply
    change_position change_positions rm_positions add_positions emissions_set_user_emissions accrual
    update_user_emissions additional_index update_emission_data_with_config update_emission_data
    emissions_call update_emissions claim_emissions saturating_pool_pc calc_pool_backstop_threshold
    updated_status admin_status execute_update_pool_status execute_set_pool_status listed
    get_token_amount_in_usdc_value try_transfer collateral_action_info borrow_action_info from_u32
    as_u64 add_for_spender_transfer add_for_pool_transfer burn_for after build_supply build_withdraw
    build_supply_collateral build_withdraw_collateral build_borrow refund build_repay build_fill
    build_delete build build_request build_loop build_actions_from_request transfer_loop
    require_healthy execute_submit submit bad_debt_loop transfer_bad_debt_to_backstop
    require_valid_reserve_metadata same_curve execute_initialize execute_update_pool
    execute_cancel_queued_set_reserve execute_queue_set_reserve create_reserve accrue_reserve
    initialize_reserve execute_set_reserve initialize contract_set_admin update_pool
    queue_set_reserve cancel_set_reserve set_status set_emissions_config claim second execute_call
    step run lookup insert remove get_or fits_i128 checked settle saturating_mul div_ℤ ◌+ℤ◌ ◌-ℤ◌
    ◌*ℤ◌ add_u sub_u mul_u floor_of ceil_of
run_supplies_example = run_supplies outside steps tt 30 reserve_config lent refl refl

submit-IsHealthy_example :
    Ensures
      (λ r.
        (r.0.liabilities ≡ [])
        ⊎ IsHealthy outside (env_at 1000) 40 requests (run outside set_up (deployed tt)) r.0)
      (submit outside (env_at 1000) 40 40 40 requests (run outside set_up (deployed tt)))
unfolding from_u32
submit-IsHealthy_example =
    submit-IsHealthy outside (env_at 1000) 40 40 40 requests (run outside set_up (deployed tt))
      (there _ _ (here _ [] RequestType.borrow refl refl)) (omega arith)

-- Half of the way to its full lot, 50 blocks later.
abbrev auction : AuctionData
auction = record { bid = (30, pos 1001) ∷ []; lot = (3, pos 501) ∷ []; block = 50 }

scale_auction-IsSplit_example :
    Ensures (IsSplit auction) (scale_auction exact (env_at 1000) auction 40)
scale_auction-IsSplit_example =
    scale_auction-IsSplit exact exact_laws (env_at 1000) auction 40
      (entry 30 (pos 1001) [] (omega arith) empty) (entry 3 (pos 501) [] (omega arith) empty)

-- 40 percent of the bid, rounded up, and a quarter of 40 percent of the lot, rounded down.
scaled :
    scale_auction exact (env_at 1000) auction 40
    ≡ ok (
      record { bid = (30, pos 401) ∷ []; lot = (3, pos 50) ∷ []; block = 50 },
      some (record { bid = (30, pos 600) ∷ []; lot = (3, pos 301) ∷ []; block = 50 }),
    )
unfolding scale_auction scale_loop scale_amount enter bid_modifier lot_modifier insert fits_i128
    checked sub_u ◌-ℤ◌ ◌*ℤ◌ floor_of ceil_of
scaled = refl

scale_auction_returns_example :
    (r : AuctionData × Option AuctionData) × (scale_auction exact (env_at 1000) auction 40 ≡ ok r)
    × ((100 < 50 + 400) ⊎ (r.0.bid ≡ []))
scale_auction_returns_example =
    scale_auction_returns exact exact_laws (env_at 1000) auction 40
      (Returns.entry 30 1001 [] (omega arith) Returns.empty)
      (Returns.entry 3 501 [] (omega arith) Returns.empty) (omega arith) (omega arith) (omega arith)

later_fill_example :
    (pos 251 ≤ℤ pos 1001)
    × (pos 250 ≤ℤ pos 1001)
    × (◌≡◌ {A = ℤ} (pos 0) (pos 0))
    × (◌≡◌ {A = ℤ} (pos 0) (pos 0))
unfolding scale_amount bid_modifier lot_modifier fits_i128 checked ◌-ℤ◌ ◌*ℤ◌ floor_of ceil_of
later_fill_example =
    later_fill exact exact_laws 10000000 1001 50 350 (pos 1001, pos 0) (pos 251, pos 0)
      (pos 250, pos 0) (pos 1001, pos 0) (omega arith) (omega arith) refl refl refl refl

modifiers_lem_example :
    (lot_modifier 300 ≡ min scalar_7 (300 * per_block_scalar))
    × (bid_modifier 300 ≡ min scalar_7 (2 * scalar_7 - 300 * per_block_scalar))
modifiers_lem_example = modifiers_lem 300

abbrev start : Storage (Unit {0})
start = deployed tt

-- A pool that is frozen, with the reserve queued at 1000 seconds.
abbrev frozen : Storage (Unit {0})
frozen = record start {
  pool_config = some (record { oracle = 8; bstop_rate = 1000000; status = 4; max_positions = 4 });
}

abbrev frozen_queued : Storage (Unit {0})
frozen_queued = record frozen {
  queued_reserves = (30, record { new_config = reserve_config; unlock_time = 605800 }) ∷ [];
}

queued_reserve_lock_example :
    (1000 + 604800 ≤ 605800) ⊎ ((c : PoolConfig) × (get_pool_config frozen ≡ ok c) × (c.status ≡ 6))
unfolding has_queued_reserve_set execute_queue_set_reserve require_valid_reserve_metadata
    get_pool_config execute_set_reserve get_queued_reserve_set del_queued_reserve_set
    set_queued_reserve_set initialize_reserve create_reserve has_res push_res_list set_res_data
    set_res_config add_u lookup insert remove checked
queued_reserve_lock_example =
    queued_reserve_lock (env_at 1000) (env_at 605800) exact 30 reserve_config frozen frozen_queued
      frozen_queued _ refl refl refl

-- A repayment, and a supply that the frozen pool refuses.
abbrev supply_late : List Request
supply_late =
    record { request_type = 5; address = 30; amount = pos 10 }
    ∷ record { request_type = 0; address = 30; amount = pos 10 }
    ∷ []

submit_refused_example :
    ((p : Panic) × (submit outside (env_at 1000) 40 40 40 supply_late frozen ≡ panic p))
    × (step outside (called (env_at 1000) (submit_call 40 40 40 supply_late)) frozen ≡ frozen)
unfolding get_pool_config
submit_refused_example =
    submit_refused outside (env_at 1000) 40 40 40 supply_late frozen _ refl
      (HasRefused.there _ _ (HasRefused.here _ [] (IsRefused.frozen (omega arith) (inl refl))))

set_emissions-bounded_example :
    Ensures
      (λ s'. total_shares s'.pool_emissions ≤ scalar_7)
      (set_emissions
        (record { res_index = 0; res_type = 1; share = 6000000 }
          ∷ record { res_index = 0; res_type = 0; share = 4000000 }
          ∷ [])
        (run outside set_up (deployed tt)))
set_emissions-bounded_example =
    set_emissions-bounded
      (record { res_index = 0; res_type = 1; share = 6000000 }
        ∷ record { res_index = 0; res_type = 0; share = 4000000 }
        ∷ [])
      (run outside set_up (deployed tt))
