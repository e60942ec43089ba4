-- ===== src/Pool/Status/Actions.antt =====
-- What an update of the status allows: pool/src/pool/status.rs with `require_action_allowed` of
-- pool/src/pool/pool.rs.
use blend_contracts.Base.{
  ℕ, ◌*◌, ◌/◌, ◌^◌, some, ◌≤◌, ◌≡◌, ◌↔◌, ◌⊎◌, Bool, true, false, not, arith, ℤ, pos, ltb_ℤ, ◌≤ℤ◌,
  ◌<ℤ◌, ok,
}
use blend_contracts.Base.Host.{Address, Env}
use blend_contracts.Pool.State.{
  PoolConfig, Storage, scalar_7, get_pool_config, set_pool_config, get_backstop,
}
use blend_contracts.Pool.Cache.{Pool, load_pool, require_action_allowed}
use blend_contracts.Pool.Status.{
  PoolBackstopData, BackstopClient, calc_pool_backstop_threshold, updated_status,
  execute_update_pool_status,
}
use blend_contracts.Pool.Status.Threshold.{calc_threshold_iff}

-- After two updates with the same backstop data a third one leaves the status as it is, and an
-- update never leads to setup (6) or to the admin's freeze (4).
pub updated_status_settles :
    (status a b : ℕ) (met : Bool) (q : ℤ)
    → updated_status status met q ≡ ok a
    → updated_status a met q ≡ ok b
    → (updated_status b met q ≡ ok b) × ¬ (a ≡ 4) × ¬ (a ≡ 6)
unfolding updated_status
updated_status_settles status a b met q h k = ground arith

-- A pool whose status the admin has not set lends after an update exactly where the backstop meets the
-- threshold and less than 30 percent of it are queued for withdrawal.
pub updated_status_active :
    (status a : ℕ) (met : Bool) (q : ℤ)
    → (status ≡ 1) ⊎ (status ≡ 3) ⊎ (status ≡ 5)
    → updated_status status met q ≡ ok a
    → (a ≤ 1) ↔ ((met ≡ true) × (q <ℤ pos 3000000))
unfolding updated_status
updated_status_active status a met q c h = ground arith

-- From the same status, a backstop with as much or more queued for withdrawal, that meets the
-- threshold only if the other does, never gives a smaller status than the other.
pub updated_status_mono :
    (status a b : ℕ) (met met' : Bool) (q q' : ℤ)
    → (met' ≡ false) ⊎ (met ≡ true)
    → q ≤ℤ q'
    → updated_status status met q ≡ ok a
    → updated_status status met' q' ≡ ok b
    → a ≤ b
unfolding updated_status
updated_status_mono status a b met met' q q' m l h k = ground arith

module _ {Chain : Type 0} (pool_data : BackstopClient Chain) (e : Env) where
  -- An update stores the status that the match gives.
  update_status_lem :
      (s : Storage Chain) (config : PoolConfig) (b : Address) (d : PoolBackstopData) (pool : Pool)
      {r : ℕ × Storage Chain}
      → s.pool_config ≡ some config
      → s.backstop ≡ some b
      → pool_data s.chain b e.current_contract_address ≡ some d
      → execute_update_pool_status pool_data e s ≡ ok r
      → load_pool r.1 ≡ ok pool
      → updated_status config.status
          (not (ltb_ℤ (calc_pool_backstop_threshold d) (pos scalar_7)))
          d.q4w_pct
        ≡ ok pool.config.status
  unfolding execute_update_pool_status get_pool_config set_pool_config get_backstop load_pool
  update_status_lem s config b d pool ec eb ed h k = ground arith

  -- After a successful update of a pool whose status is 1, 3 or 5, where the backstop holds
  -- amounts of BLND and USDC that are not negative, borrowing is allowed exactly where the whole
  -- tokens have BLND^4 * USDC of 200k^5 or more and less than 30 percent of the backstop are
  -- queued for withdrawal.
  pub update-borrow_iff :
      (s : Storage Chain) (config : PoolConfig) (b : Address) (d : PoolBackstopData) (blnd usdc : ℕ)
      (pool : Pool) {r : ℕ × Storage Chain}
      → s.pool_config ≡ some config
      → (config.status ≡ 1) ⊎ (config.status ≡ 3) ⊎ (config.status ≡ 5)
      → s.backstop ≡ some b
      → pool_data s.chain b e.current_contract_address ≡ some d
      → d.blnd ≡ pos blnd
      → d.usdc ≡ pos usdc
      → execute_update_pool_status pool_data e s ≡ ok r
      → load_pool r.1 ≡ ok pool
      → (require_action_allowed 4 pool ≡ ok tt)
        ↔ ((200000 ^ 5 ≤ (blnd / scalar_7) ^ 4 * (usdc / scalar_7)) × (d.q4w_pct <ℤ pos 3000000))
  unfolding require_action_allowed
  update-borrow_iff s config b d blnd usdc pool ec es eb ed ebl eus h k =
      let u = update_status_lem s config b d pool ec eb ed h k in
      let a = updated_status_active config.status pool.config.status _ d.q4w_pct es u in
      let t = calc_threshold_iff d blnd usdc ebl eus in ground (arith, a, t)
