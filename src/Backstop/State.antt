-- ===== src/Backstop/State.antt =====
-- The backstop's storage: backstop/src/storage.rs, without the lifetime of entries (`extend_ttl`), and
-- the contracts that it calls: backstop/src/dependencies.
use blend_contracts.Base.{
  ℕ, Bool, Option, some, List, ℤ, pos, ltb_ℤ, Outcome, panic_if, backstop_error, BackstopError,
}
use blend_contracts.Base.Map.{Map, nat_key, pair_key, lookup, insert, get_or}
use blend_contracts.Base.Host.{Address}
use blend_contracts.Backstop.User.{UserBalance}
use blend_contracts.Backstop.User
use blend_contracts.Backstop.Pool.{PoolBalance}
use blend_contracts.Backstop.Pool

pub record BackstopEmissionConfig : Type 0 where
  pub expiration : ℕ
  pub eps : ℕ

pub record BackstopEmissionsData : Type 0 where
  pub index : ℤ
  pub last_time : ℕ

pub record UserEmissionData : Type 0 where
  pub index : ℤ
  pub accrued : ℤ

-- The entries of the storage. An instance entry is an `Option`; `unwrap_optimized` traps where it is
-- missing. `chain` is the state of the other contracts.
pub record Storage (Chain : Type 0) : Type 0 where
  pub pool_factory : Option Address
  pub backstop_token : Option Address
  pub blnd_token : Option Address
  pub user_balances : Map (Address × Address) UserBalance
  pub pool_balances : Map Address PoolBalance
  pub emis_configs : Map Address BackstopEmissionConfig
  pub emis_data : Map Address BackstopEmissionsData
  pub user_emis_data : Map (Address × Address) UserEmissionData
  pub lp_token_val : Option (ℤ × ℤ)
  pub emitter : Option Address
  pub reward_zone : List Address
  pub last_distribution_time : ℕ
  pub pool_emissions : Map Address ℤ
  pub chain : Chain

-- The pool factory and the Comet pool, each at an address: `PoolFactoryClient`, `CometClient`.
pub record Dependencies (Chain : Type 0) : Type 0 where
  pub is_pool : Chain → Address → Address → Bool
  pub get_total_supply : Chain → Address → ℤ
  -- LP tokens for an amount of one of the pool's tokens, minted to a recipient
  pub dep_tokn_amt_in_get_lp_tokns_out :
      Chain → Address → Address → ℤ → ℤ → Address → Option (ℤ × Chain)

module _ {Chain : Type 0} where
  unfoldable pub get_user_balance : Address → Address → Storage Chain → UserBalance
  get_user_balance pool user s = get_or (pool, user) User.env_default s.user_balances

  unfoldable pub set_user_balance : Address → Address → UserBalance → Storage Chain → Storage Chain
  set_user_balance pool user b s = record s {
    user_balances = insert (pool, user) b s.user_balances;
  }

  unfoldable pub get_pool_balance : Address → Storage Chain → PoolBalance
  get_pool_balance pool s = get_or pool Pool.env_default s.pool_balances

  unfoldable pub set_pool_balance : Address → PoolBalance → Storage Chain → Storage Chain
  set_pool_balance pool b s = record s { pool_balances = insert pool b s.pool_balances }

  unfoldable pub get_backstop_emis_config : Address → Storage Chain → Option BackstopEmissionConfig
  get_backstop_emis_config pool s = lookup pool s.emis_configs

  unfoldable pub set_backstop_emis_config :
      Address → BackstopEmissionConfig → Storage Chain → Storage Chain
  set_backstop_emis_config pool c s = record s { emis_configs = insert pool c s.emis_configs }

  unfoldable pub get_backstop_emis_data : Address → Storage Chain → Option BackstopEmissionsData
  get_backstop_emis_data pool s = lookup pool s.emis_data

  unfoldable pub set_backstop_emis_data :
      Address → BackstopEmissionsData → Storage Chain → Storage Chain
  set_backstop_emis_data pool d s = record s { emis_data = insert pool d s.emis_data }

  unfoldable pub get_user_emis_data : Address → Address → Storage Chain → Option UserEmissionData
  get_user_emis_data pool user s = lookup (pool, user) s.user_emis_data

  unfoldable pub set_user_emis_data :
      Address → Address → UserEmissionData → Storage Chain → Storage Chain
  set_user_emis_data pool user d s = record s {
    user_emis_data = insert (pool, user) d s.user_emis_data;
  }

  unfoldable pub set_lp_token_val : ℤ × ℤ → Storage Chain → Storage Chain
  set_lp_token_val v s = record s { lp_token_val = some v }

module _ {Chain : Type 0} where
  unfoldable pub set_reward_zone : List Address → Storage Chain → Storage Chain
  set_reward_zone reward_zone s = record s { reward_zone = reward_zone }

  unfoldable pub set_last_distribution_time : ℕ → Storage Chain → Storage Chain
  set_last_distribution_time timestamp s = record s { last_distribution_time = timestamp }

  unfoldable pub get_pool_emissions : Address → Storage Chain → ℤ
  get_pool_emissions pool s = get_or pool (pos 0) s.pool_emissions

  unfoldable pub set_pool_emissions : Address → ℤ → Storage Chain → Storage Chain
  set_pool_emissions pool emissions s = record s {
    pool_emissions = insert pool emissions s.pool_emissions;
  }

-- `require_nonnegative` of backstop/src/contract.rs.
abbrev pub require_nonnegative : ℤ → Outcome (Unit {0})
require_nonnegative amount =
    panic_if (ltb_ℤ amount (pos 0)) (backstop_error BackstopError.negative_amount_error)
