-- ===== src/Pool/Ledger.antt =====
-- The books of the pool: the supplies of the reserves (pool/src/pool/reserve.rs) against the positions
-- of all users (pool/src/pool/user.rs), in the storage and in the middle of a call.
use blend_contracts.Base.{
  nth, ℕ, ◌≡◌, ◌⊎◌, refl, true, false, Option, none, some, arith, ◌==◌, ℤ, pos, ◌+ℤ◌, int_laws,
}
use blend_contracts.Base.Map.{Map, nat_key, lookup, insert, total, total-insert}
use blend_contracts.Base.Host.{Address}
use blend_contracts.Pool.State.{
  Positions, ReserveConfig, ReserveData, Storage, env_default, get_user_positions,
}
use blend_contracts.Pool.Reserve.{Reserve}
use blend_contracts.Pool.Cache.{Pool, contains}
use blend_contracts.Pool.User.Balance.{balance}
pub mod Totals
pub mod Load
pub mod Change
pub mod Stored
pub mod Keep
pub mod Step
pub mod Pending
pub mod Fill
pub mod Auctions
pub mod Build
pub mod Health
pub mod Accounts
pub mod Submit
pub mod BadDebt
pub mod Places
pub mod Reserves
pub mod Others
pub mod Created
pub mod Admin
pub mod Run

-- A stored reserve, and a reserve in memory, agree with what is owed to and held of the pool.
pub record IsBooked (owed held : ℕ → ℤ) (config : ReserveConfig) (d : ReserveData) : Type 0 where
  pub debts : d.d_supply ≡ owed config.index
  pub claims : d.b_supply ≡ held config.index

pub record IsCached {Chain : Type 0} (owed held : ℕ → ℤ) (s : Storage Chain) (asset : Address)
    (r : Reserve) : Type 0 where
  pub config : ReserveConfig
  pub same_asset : r.asset ≡ asset
  pub stored_config : lookup asset s.res_configs ≡ some config
  pub same_index : r.index ≡ config.index
  pub debts : r.d_supply ≡ owed config.index
  pub claims : r.b_supply ≡ held config.index

-- Every reserve has its place in the list, and there are no positions beyond the list.
pub record IsListed {Chain : Type 0} (owed held : ℕ → ℤ) (s : Storage Chain) : Type 0 where
  pub listed :
      (asset : Address) (config : ReserveConfig)
      → lookup asset s.res_configs ≡ some config
      → nth config.index s.res_list ≡ some asset
  pub unlisted : (i : ℕ) → nth i s.res_list ≡ none → (owed i ≡ pos 0) × (held i ≡ pos 0)

-- In the middle of a call: each reserve in memory agrees with `owed` and `held`, and so does each
-- stored reserve that is not in memory or is not to be stored.
pub record Matches {Chain : Type 0} (owed held : ℕ → ℤ) (s : Storage Chain) (pool : Pool)
    : Type 0 where
  pub places : IsListed owed held s
  pub cached :
      (asset : Address) (r : Reserve)
      → lookup asset pool.reserves ≡ some r
      → IsCached owed held s asset r
  pub stored :
      (asset : Address) (config : ReserveConfig) (d : ReserveData)
      → lookup asset s.res_configs ≡ some config
      → lookup asset s.res_data ≡ some d
      → (lookup asset pool.reserves ≡ none) ⊎ (contains asset pool.reserves_to_store ≡ false)
      → IsBooked owed held config d
