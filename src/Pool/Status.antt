-- ===== src/Pool/Status.antt =====
-- The status of the pool: pool/src/pool/status.rs.
use blend_contracts.Base.{
  ℕ, Bool, true, false, not, ◌||◌, Option, ◌==◌, leb, if◌then◌else◌, ℤ, pos, ltb_ℤ, leb_ℤ, div_ℤ,
  saturating_mul, Outcome, ok, panic, ◌>>=◌, ◌>>◌, panic_if, or_panic, host, pool_error, PoolError,
}
use blend_contracts.Base.Host.{Address, Env}
use blend_contracts.Pool.State.{
  PoolConfig, Storage, scalar_7, get_pool_config, set_pool_config, get_backstop,
}
-- `PoolBackstopData` of the backstop contract (backstop/src/backstop/pool.rs).
pub mod Threshold
pub mod Actions

pub record PoolBackstopData : Type 0 where
  pub tokens : ℤ
  pub q4w_pct : ℤ
  pub blnd : ℤ
  pub usdc : ℤ

-- The backstop as the pool calls it: the backstop, then the pool.
abbrev pub BackstopClient : Type 0 → Type 0
BackstopClient Chain = Chain → Address → Address → Option PoolBackstopData

abbrev pub threshold_pc : ℕ
threshold_pc = 320000000000000000000000000

unfoldable pub saturating_pool_pc : ℤ → ℤ → ℤ
saturating_pool_pc bal_blnd bal_usdc =
    saturating_mul
      (saturating_mul
        (saturating_mul (saturating_mul (saturating_mul bal_blnd bal_blnd) bal_blnd) bal_blnd)
        bal_usdc)
      (pos scalar_7)

unfoldable pub calc_pool_backstop_threshold : PoolBackstopData → ℤ
calc_pool_backstop_threshold d =
    div_ℤ (saturating_pool_pc (div_ℤ d.blnd scalar_7) (div_ℤ d.usdc scalar_7)) threshold_pc

-- The match of `execute_update_pool_status` on the current status: 6 is setup, 4 frozen by the admin,
-- 2 on ice by the admin, 0 active by the admin; 5, 3 and 1 are frozen, on ice and active.
unfoldable pub updated_status : ℕ → Bool → ℤ → Outcome ℕ
updated_status status met_threshold q4w_pct =
    if status == 6 || status == 4
    then panic (pool_error PoolError.status_not_allowed)
    else (if status == 2
        then ok (if leb_ℤ (pos 7500000) q4w_pct then 5 else status)
        else (if status == 0
            then ok (if not met_threshold || leb_ℤ (pos 5000000) q4w_pct then 3 else status)
            else ok (
                if leb_ℤ (pos 6000000) q4w_pct
                then 5
                else (if leb_ℤ (pos 3000000) q4w_pct || not met_threshold then 3 else 1))))

-- The match of `execute_set_pool_status` on the status asked for.
unfoldable pub admin_status : ℕ → PoolBackstopData → Outcome ℕ
admin_status pool_status d =
    if pool_status == 0
    then (do
      panic_if
          (ltb_ℤ (calc_pool_backstop_threshold d) (pos scalar_7) || leb_ℤ (pos 5000000) d.q4w_pct)
          (pool_error PoolError.status_not_allowed)
      ok 0)
    else (if pool_status == 2
        then (do
          panic_if (leb_ℤ (pos 7500000) d.q4w_pct) (pool_error PoolError.status_not_allowed)
          ok 2)
        else (if pool_status == 3
            then (do
              panic_if (leb_ℤ (pos 7500000) d.q4w_pct) (pool_error PoolError.status_not_allowed)
              ok 3)
            else (if pool_status == 4 then ok 4 else panic (pool_error PoolError.bad_request))))

module _ {Chain : Type 0} (pool_data : BackstopClient Chain) (e : Env) where
  unfoldable pub execute_update_pool_status : Storage Chain → Outcome (ℕ × Storage Chain)
  execute_update_pool_status s = do
    pool_config ← get_pool_config s
    backstop_id ← get_backstop s
    d ← or_panic host (pool_data s.chain backstop_id e.current_contract_address)
    let met_threshold = not (ltb_ℤ (calc_pool_backstop_threshold d) (pos scalar_7))
    status ← updated_status pool_config.status met_threshold d.q4w_pct
    ok (status, set_pool_config (record pool_config { status = status }) s)

  unfoldable pub execute_set_pool_status : ℕ → Storage Chain → Outcome (Storage Chain)
  execute_set_pool_status pool_status s = do
    pool_config ← get_pool_config s
    backstop_id ← get_backstop s
    d ← or_panic host (pool_data s.chain backstop_id e.current_contract_address)
    status ← admin_status pool_status d
    ok (set_pool_config (record pool_config { status = status }) s)
