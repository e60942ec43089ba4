-- ===== src/Base/Errors.antt =====
-- The ways in which a contract call ends without a result: the error enumerations of the four
-- contracts (emitter, backstop, pool, pool-factory: src/errors.rs of each), and the traps.

pub data EmitterError : Type 0 where
  internal_error already_initialized_error unauthorized_error : EmitterError
  insufficient_backstop_size bad_drop swap_not_queued : EmitterError
  swap_already_exists swap_not_unlocked swap_cannot_be_canceled : EmitterError

pub data BackstopError : Type 0 where
  internal_error already_initialized_error unauthorized_error : BackstopError
  negative_amount_error balance_error overflow_error : BackstopError
  bad_request not_expired invalid_reward_zone_entry insufficient_funds not_pool : BackstopError
  invalid_share_mint_amount invalid_token_withdraw_amount too_many_q4w_entries : BackstopError

pub data PoolFactoryError : Type 0 where
  internal_error already_initialized_error invalid_pool_init_args : PoolFactoryError

pub data PoolError : Type 0 where
  internal_error already_initialized_error unauthorized_error : PoolError
  negative_amount_error balance_error overflow_error : PoolError
  bad_request invalid_pool_init_args invalid_reserve_metadata : PoolError
  init_not_unlocked status_not_allowed : PoolError
  invalid_hf invalid_pool_status invalid_util_rate max_positions_exceeded : PoolError
  internal_reserve_not_found stale_price : PoolError
  invalid_liquidation auction_in_progress invalid_liq_too_large : PoolError
  invalid_liq_too_small interest_too_small : PoolError
  invalid_b_token_mint_amount invalid_b_token_burn_amount : PoolError
  invalid_d_token_mint_amount invalid_d_token_burn_amount : PoolError

-- `overflow` is the trap of a checked operation, `unwrapped` that of `unwrap_optimized` on `None`,
-- and `host` a failure of the host or of another contract.
pub data Panic : Type 0 where
  overflow unwrapped host : Panic
  emitter_error : EmitterError → Panic
  backstop_error : BackstopError → Panic
  factory_error : PoolFactoryError → Panic
  pool_error : PoolError → Panic
