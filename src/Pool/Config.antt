-- ===== src/Pool/Config.antt =====
-- The configuration of the pool and of its reserves: pool/src/pool/config.rs. The name of the pool,
-- which no code reads, is left out.
use blend_contracts.Base.{
  ℕ, ◌+◌, ◌==◌, ◌||◌, ◌&&◌, Bool, true, false, not, ltb, leb, if◌then◌else◌, some, [], ℤ, pos,
  Outcome, ok, ◌>>=◌, ◌>>◌, panic_if, pool_error, PoolError, add_u,
}
use blend_contracts.Base.FixedPoint.{FixedPoint}
use blend_contracts.Base.Host.{Address, Env}
use blend_contracts.Pool.State.{
  PoolConfig, ReserveConfig, ReserveData, QueuedReserveInit, Storage, scalar_7, scalar_9,
  seconds_per_week, set_is_init, set_admin, set_backstop, set_pool_config, get_pool_config,
  set_blnd_token, has_res, get_res_config, set_res_config, set_res_data, get_queued_reserve_set,
  has_queued_reserve_set, set_queued_reserve_set, del_queued_reserve_set, push_res_list,
}
use blend_contracts.Pool.Reserve.{Reserve, store}
use blend_contracts.Pool.Cache.{load_pool, load_reserve}
pub mod Lock

unfoldable pub require_valid_reserve_metadata : ReserveConfig → Outcome (Unit {0})
require_valid_reserve_metadata metadata =
    panic_if
      (ltb 18 metadata.decimals
        || (ltb scalar_7 metadata.c_factor
            || (ltb scalar_7 metadata.l_factor
                || (ltb 9500000 metadata.util
                    || ((ltb scalar_7 metadata.max_util || leb metadata.max_util metadata.util)
                        || (leb 10000000 metadata.r_base
                            || (ltb metadata.r_base 1000
                                || ((ltb metadata.r_two metadata.r_one
                                      || ltb metadata.r_three metadata.r_two)
                                    || ltb 1000 metadata.reactivity))))))))
      (pool_error PoolError.invalid_reserve_metadata)

-- Whether no parameter of the interest curve differs.
unfoldable pub same_curve : ReserveConfig → ReserveConfig → Bool
same_curve a b =
    a.r_base == b.r_base
    && (a.r_one == b.r_one && (a.r_two == b.r_two && (a.r_three == b.r_three && a.util == b.util)))

module _ {Chain : Type 0} where
  unfoldable pub execute_initialize :
      Address → Address → ℕ → ℕ → Address → Address → Storage Chain → Outcome (Storage Chain)
  execute_initialize admin oracle bstop_rate max_positions backstop_address blnd_id s = do
    panic_if s.is_init (pool_error PoolError.already_initialized_error)
    panic_if (leb scalar_7 bstop_rate) (pool_error PoolError.invalid_pool_init_args)
    panic_if (ltb max_positions 2) (pool_error PoolError.invalid_pool_init_args)
    let config : PoolConfig = record {
      oracle = oracle;
      bstop_rate = bstop_rate;
      status = 6;
      max_positions = max_positions;
    }
    let s₁ = set_pool_config config (set_backstop backstop_address (set_admin admin s))
    ok (set_is_init (set_blnd_token blnd_id s₁))

  unfoldable pub execute_update_pool : ℕ → ℕ → Storage Chain → Outcome (Storage Chain)
  execute_update_pool backstop_take_rate max_positions s = do
    panic_if (leb scalar_7 backstop_take_rate) (pool_error PoolError.bad_request)
    pool_config ← get_pool_config s
    let config = record pool_config {
      bstop_rate = backstop_take_rate;
      max_positions = max_positions;
    }
    ok (set_pool_config config s)

  unfoldable pub execute_cancel_queued_set_reserve : Address → Storage Chain → Storage Chain
  execute_cancel_queued_set_reserve asset s = del_queued_reserve_set asset s

module _ {Chain : Type 0} (e : Env) where
  -- In setup (6) there is no lock.
  unfoldable pub execute_queue_set_reserve :
      Address → ReserveConfig → Storage Chain → Outcome (Storage Chain)
  execute_queue_set_reserve asset metadata s = do
    panic_if (has_queued_reserve_set asset s) (pool_error PoolError.bad_request)
    require_valid_reserve_metadata metadata
    pool_config ← get_pool_config s
    unlock_time ←
        (if pool_config.status == 6 then ok e.timestamp else add_u 64 e.timestamp seconds_per_week)
    let res_init : QueuedReserveInit = record { new_config = metadata; unlock_time = unlock_time }
    ok (set_queued_reserve_set res_init asset s)

  -- The reserve of a new asset: at the end of the list, with rates of 1 and no supply.
  unfoldable pub create_reserve : Address → Storage Chain → Outcome (ℕ × Storage Chain)
  create_reserve asset s = do
    r ← push_res_list asset s
    let init_data : ReserveData = record {
      d_rate = pos scalar_9;
      b_rate = pos scalar_9;
      ir_mod = pos scalar_9;
      b_supply = pos 0;
      d_supply = pos 0;
      backstop_credit = pos 0;
      last_time = e.timestamp;
    }
    ok (r.0, set_res_data asset init_data r.1)

  module _ (math : FixedPoint) where
    -- A reserve that exists is brought up to date under its old configuration. Its decimals stay, and
    -- its rate modifier is reset where the curve changes.
    unfoldable pub accrue_reserve :
        Address → ReserveConfig → Storage Chain → Outcome (ℕ × Storage Chain)
    accrue_reserve asset config s = do
      pool ← load_pool s
      r ← load_reserve math e asset false s pool
      reserve_config ← get_res_config asset s
      panic_if (not (reserve_config.decimals == config.decimals))
          (pool_error PoolError.invalid_reserve_metadata)
      let reserve =
          (if same_curve reserve_config config then r.0 else record r.0 { ir_mod = pos scalar_9 })
      ok (r.0.index, store reserve s)

    unfoldable pub initialize_reserve :
        Address → ReserveConfig → Storage Chain → Outcome (ℕ × Storage Chain)
    initialize_reserve asset config s = do
      r ← (if has_res asset s then accrue_reserve asset config s else create_reserve asset s)
      ok (r.0, set_res_config asset (record config { index = r.0 }) r.1)

    unfoldable pub execute_set_reserve : Address → Storage Chain → Outcome (ℕ × Storage Chain)
    execute_set_reserve asset s = do
      queued_init ← get_queued_reserve_set asset s
      panic_if (ltb e.timestamp queued_init.unlock_time) (pool_error PoolError.init_not_unlocked)
      initialize_reserve asset queued_init.new_config (del_queued_reserve_set asset s)
