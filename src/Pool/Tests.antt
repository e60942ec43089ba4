-- ===== src/Pool/Tests.antt =====
-- The pool's theorems at concrete inputs, and runs of its code (pool/src/pool).
use blend_contracts.Base.{
  ℕ, ◌*◌, ◌/◌, ◌^◌, ◌≤◌, ◌≡◌, ◌↔◌, inl, inr, refl, true, false, none, some, [], ◌∷◌, arith, pos,
  ◌+ℤ◌, ◌-ℤ◌, ◌*ℤ◌, ◌≤ℤ◌, ◌<ℤ◌, ltb_ℤ, div_ℤ, saturating_mul, ok, fits_i128, checked, Ensures,
  add_u, sub_u, mul_u,
}
use blend_contracts.Base.Map.{nat_key, lookup, remove, get_or}
use blend_contracts.Samples.{exact, exact_laws, env_at, floor_of, ceil_of}
use blend_contracts.Pool.State.{
  PoolConfig, ReserveConfig, Storage, env_default, scalar_7, get_pool_config, set_pool_config,
  get_backstop, get_res_emis_config, require_nonnegative,
}
use blend_contracts.Pool.Interest.{
  calc_accrual, current_ir, next_ir_mod, delta_time, ir_mod_max, ir_mod_min,
}
use blend_contracts.Pool.Interest.Accrual.{calc_accrual-bounds}
use blend_contracts.Pool.Reserve.{
  Reserve, update, accrue, credit_interest, utilization, total_supply, total_liabilities,
  to_asset_from_b_token, to_asset_from_d_token, to_b_token_up, to_b_token_down, to_d_token_up,
  to_d_token_down,
}
use blend_contracts.Pool.Reserve.Growth.{IsSound, Grows}
use blend_contracts.Pool.Reserve.Update.{update-Grows}
use blend_contracts.Pool.Reserve.Rounding.{b_token_rounding, d_token_rounding}
use blend_contracts.Pool.Status.{
  PoolBackstopData, calc_pool_backstop_threshold, saturating_pool_pc, updated_status,
  execute_update_pool_status,
}
use blend_contracts.Pool.Status.Threshold.{calc_threshold_iff}
use blend_contracts.Pool.Status.Actions.{
  updated_status_settles, updated_status_mono, update-borrow_iff,
}
use blend_contracts.Pool.Cache.{load_pool, require_action_allowed}
use blend_contracts.Pool.Health.{PositionData, as_health_factor, is_hf_under}
use blend_contracts.Pool.Health.Factor.{is_hf_under_lem}
use blend_contracts.Pool.Emissions.Index.{index_growth}
use blend_contracts.Pool.State.{get_res_emis_data}
use blend_contracts.Pool.Emissions.{
  update_emission_data_with_config, update_emissions, emissions_call, update_emission_data,
}
use blend_contracts.Pool.User.{
  get_liabilities, set_balance, update_d_emissions, User, add_liabilities, remove_liabilities,
  add_collateral, remove_collateral, add_supply, remove_supply,
}
use blend_contracts.Pool.User.Ledger.{Together, changes_Together}

-- 300 000 BLND and 50 000 USDC.
abbrev healthy : PoolBackstopData
healthy = record {
  tokens = pos 1000;
  q4w_pct = pos 2000000;
  blnd = pos 3000000000000;
  usdc = pos 500000000000;
}

calc_threshold_iff_example :
    (ltb_ℤ (calc_pool_backstop_threshold healthy) (pos scalar_7) ≡ false)
    ↔ (200000 ^ 5 ≤ (3000000000000 / scalar_7) ^ 4 * (500000000000 / scalar_7))
calc_threshold_iff_example = calc_threshold_iff healthy 3000000000000 500000000000 refl refl

abbrev on_ice : ℕ
on_ice = 3

updated_status_settles_example :
    (updated_status 5 true (pos 7000000) ≡ ok 5) × ¬ (on_ice ≡ 4) × ¬ (on_ice ≡ 6)
unfolding updated_status
updated_status_settles_example = updated_status_settles 0 on_ice 5 true (pos 7000000) refl refl

updated_status_mono_example : 1 ≤ 3
unfolding updated_status
updated_status_mono_example =
    updated_status_mono 5 1 3 true false (pos 2000000) (pos 2500000) (inl refl) (omega arith) refl
      refl

abbrev config : PoolConfig
config = record { oracle = 8; bstop_rate = 1000000; status = 3; max_positions = 4 }

abbrev stored : Storage (Unit {0})
stored = record {
  backstop = some 2;
  pool_config = some config;
  res_configs = [];
  res_data = [];
  res_list = [];
  emis_configs = [];
  emis_data = [];
  user_emis = [];
  positions = [];
  auctions = [];
  queued_reserves = [];
  pool_emissions = [];
  is_init = true;
  admin = some 7;
  blnd_token = some 4;
  chain = tt;
}

abbrev active : PoolConfig
active = record config { status = 1 }

update-borrow_iff_example :
    (require_action_allowed 4 (record {
      config = active;
      reserves = [];
      reserves_to_store = [];
      price_decimals = none;
      prices = [];
    })
      ≡ ok tt)
    ↔ ((200000 ^ 5 ≤ (3000000000000 / scalar_7) ^ 4 * (500000000000 / scalar_7))
        × (pos 2000000 <ℤ pos 3000000))
unfolding execute_update_pool_status updated_status get_pool_config set_pool_config get_backstop
    load_pool calc_pool_backstop_threshold saturating_pool_pc saturating_mul div_ℤ ◌*ℤ◌
update-borrow_iff_example =
    update-borrow_iff (λ c backstop pool. some healthy) (env_at 1000) stored config 2 healthy
      3000000000000 500000000000
      (record {
        config = active;
        reserves = [];
        reserves_to_store = [];
        price_decimals = none;
        prices = [];
      })
      refl (inr (inl refl)) refl refl refl refl refl refl

abbrev reserve_config : ReserveConfig
reserve_config = record {
  index = 0;
  decimals = 7;
  c_factor = 7500000;
  l_factor = 7500000;
  util = 7500000;
  max_util = 9500000;
  r_base = 100000;
  r_one = 500000;
  r_two = 5000000;
  r_three = 15000000;
  reactivity = 200;
}

-- 65 percent lent out, and no update for a million seconds.
abbrev reserve : Reserve
reserve = record {
  asset = 30;
  index = 0;
  l_factor = 7500000;
  c_factor = 7500000;
  max_util = 9500000;
  last_time = 1000;
  scalar = pos 10000000;
  d_rate = pos 1000000000;
  b_rate = pos 1000000000;
  ir_mod = pos 1000000000;
  b_supply = pos 1000000000;
  d_supply = pos 650000000;
  backstop_credit = pos 0;
}

reserve-IsSound : IsSound reserve
reserve-IsSound = record {
  b_supply = omega arith;
  d_supply = omega arith;
  b_rate = omega arith;
  d_rate = omega arith;
  backstop_credit = omega arith;
  lower = omega arith;
  upper = omega arith;
}

calc_accrual-bounds_example :
    Ensures
      (λ r. (pos 1000000000 ≤ℤ r.0) × (ir_mod_min ≤ℤ r.1) × (r.1 ≤ℤ ir_mod_max))
      (calc_accrual exact (env_at 1001000) reserve_config (pos 6500000) (pos 1000000000) 1000)
calc_accrual-bounds_example =
    calc_accrual-bounds exact exact_laws (env_at 1001000) reserve_config (pos 6500000)
      (pos 1000000000) 1000 (omega arith) (omega arith) (omega arith)

update-Grows_example :
    Ensures (Grows reserve) (update exact (env_at 1001000) config reserve_config reserve)
update-Grows_example =
    update-Grows exact exact_laws (env_at 1001000) config reserve_config reserve reserve-IsSound
      (omega arith)

-- The borrowers owe more, and the rate of the suppliers grows.
update_rates :
    update exact (env_at 1001000) config reserve_config reserve
    ≡ ok (record reserve {
      last_time = 1001000;
      d_rate = pos 1001691191;
      b_rate = pos 1000989348;
      ir_mod = pos 100000000;
      backstop_credit = pos 109927;
    })
unfolding update accrue credit_interest utilization total_supply total_liabilities
    to_asset_from_b_token to_asset_from_d_token calc_accrual current_ir next_ir_mod delta_time
    checked fits_i128 ◌+ℤ◌ ◌-ℤ◌ ◌*ℤ◌ div_ℤ floor_of ceil_of add_u sub_u
update_rates = refl

b_token_rounding_example : (pos 999 ≤ℤ pos 1000) × (pos 1000 ≤ℤ pos 1001)
unfolding to_b_token_down to_b_token_up to_asset_from_b_token checked fits_i128 ◌*ℤ◌ floor_of
    ceil_of
b_token_rounding_example =
    b_token_rounding exact exact_laws (record reserve { b_rate = pos 1100000000 }) 1000 1100000000
      refl (omega arith) refl refl refl refl

d_token_rounding_example : (pos 1000 ≤ℤ pos 1001) × (pos 1000 ≤ℤ pos 1000)
unfolding to_d_token_down to_d_token_up to_asset_from_d_token checked fits_i128 ◌*ℤ◌ floor_of
    ceil_of
d_token_rounding_example =
    d_token_rounding exact exact_laws (record reserve { d_rate = pos 1100000000 }) 1000 1100000000
      refl (omega arith) refl refl refl refl

abbrev borrower : User
borrower = record {
  address = 40;
  positions = record env_default {
    collateral = (0, pos 700) ∷ [];
    liabilities = (0, pos 300) ∷ [];
  };
}

changes_Together_example :
    Ensures
      (Together borrower reserve stored)
      (add_liabilities exact (env_at 1000) (pos 300) reserve borrower stored)
    × Ensures
        (Together borrower reserve stored)
        (remove_liabilities exact (env_at 1000) (pos 300) reserve borrower stored)
    × Ensures
        (Together borrower reserve stored)
        (add_collateral exact (env_at 1000) (pos 300) reserve borrower stored)
    × Ensures
        (Together borrower reserve stored)
        (remove_collateral exact (env_at 1000) (pos 300) reserve borrower stored)
    × Ensures
        (Together borrower reserve stored)
        (add_supply exact (env_at 1000) (pos 300) reserve borrower stored)
    × Ensures
        (Together borrower reserve stored)
        (remove_supply exact (env_at 1000) (pos 300) reserve borrower stored)
changes_Together_example = changes_Together exact (env_at 1000) (pos 300) reserve borrower stored

-- A debt that is paid in full leaves no entry.
repaid :
    remove_liabilities exact (env_at 1000) (pos 300) reserve borrower stored
    ≡ ok (record {
      user = record borrower { positions = record env_default { collateral = (0, pos 700) ∷ [] } };
      reserve = record reserve { d_supply = pos 649999700 };
      storage = stored;
      emissions = pos 0;
    })
unfolding remove_liabilities get_liabilities set_balance update_d_emissions update_emissions
    emissions_call update_emission_data get_res_emis_config lookup remove get_or require_nonnegative
    mul_u checked fits_i128 ◌-ℤ◌
repaid = refl

abbrev emitting : Storage (Unit {0})
emitting = record stored { emis_data = (1, record { index = pos 500; last_time = 1000 }) ∷ [] }

index_growth_example :
    Ensures
      (λ r. (pos 500 ≤ℤ r.0.index) × (get_res_emis_data 1 r.1 ≡ some r.0))
      (update_emission_data_with_config exact
        (env_at 2000)
        1
        (pos 1000000000)
        (pos 10000000)
        (record { expiration = 100000; eps = 300000 })
        emitting)
unfolding get_res_emis_data lookup
index_growth_example =
    index_growth exact exact_laws (env_at 2000) 1 (pos 1000000000) (pos 10000000)
      (record { expiration = 100000; eps = 300000 }) emitting
      (record { index = pos 500; last_time = 1000 }) refl (omega arith) (omega arith)

-- A hundred and twenty of effective collateral against a hundred of liabilities.
abbrev covered_debt : PositionData
covered_debt = record {
  collateral_base = pos 120;
  collateral_raw = pos 160;
  liability_base = pos 100;
  liability_raw = pos 75;
  scalar = pos 10000000;
}

is_hf_under_lem_example : 100 * 10000100 ≤ 120 * 10000000
unfolding is_hf_under as_health_factor checked fits_i128 ◌*ℤ◌ floor_of
is_hf_under_lem_example =
    is_hf_under_lem exact exact_laws covered_debt 120 100 1 10000100 refl refl refl (omega arith)
      refl
