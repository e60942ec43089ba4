-- ===== src/Backstop/Ledger/Frame.antt =====
-- The steps of backstop/src that leave all balances alone: the update of emissions and the calls of
-- other contracts.
use blend_contracts.Base.{◌≡◌, Bool, true, Option, arith, ℤ, ok}
use blend_contracts.Base.FixedPoint.{FixedPoint}
use blend_contracts.Base.Host.{Address, Env, TokenClient}
use blend_contracts.Backstop.User.{UserBalance}
use blend_contracts.Backstop.Pool.{PoolBalance}
use blend_contracts.Backstop.State.{
  Storage, BackstopEmissionConfig, BackstopEmissionsData, set_user_emis_data,
  set_backstop_emis_data,
}
use blend_contracts.Backstop.Emissions.{
  set_user_emissions, update_user_emissions, update_emission_data, update_emission_data_with_config,
  emissions_call, update_emissions, claim_emissions,
}
use blend_contracts.Backstop.Execute.{transfer_backstop_token}

-- The balances of users and pools are the same.
pub record SameBalances {Chain : Type 0} (s s' : Storage Chain) : Type 0 where
  pub users : s'.user_balances ≡ s.user_balances
  pub pools : s'.pool_balances ≡ s.pool_balances

module _ {Chain : Type 0} (tokens : TokenClient Chain) where
  pub transfer-SameBalances :
      (from to : Address) (x : ℤ) (s : Storage Chain) {s' : Storage Chain}
      → transfer_backstop_token tokens from to x s ≡ ok s'
      → SameBalances s s'
  unfolding transfer_backstop_token
  transfer-SameBalances from to x s h = ground arith

module _ {Chain : Type 0} (math : FixedPoint) (e : Env) where
  update_user_emissions-SameBalances :
      (pool user : Address) (d : BackstopEmissionsData) (ub : UserBalance) (c : Bool)
      (s : Storage Chain) {r : ℤ × Storage Chain}
      → update_user_emissions math e pool user d ub c s ≡ ok r
      → SameBalances s r.1
  unfolding update_user_emissions set_user_emissions set_user_emis_data
  update_user_emissions-SameBalances pool user d ub c s h = ground arith

  config-SameBalances :
      (pool : Address) (pb : PoolBalance) (c : BackstopEmissionConfig) (s : Storage Chain)
      {r : BackstopEmissionsData × Storage Chain}
      → update_emission_data_with_config math e pool pb c s ≡ ok r
      → SameBalances s r.1
  unfolding update_emission_data_with_config set_backstop_emis_data
  config-SameBalances pool pb c s h = ground arith

  update_emission_data-SameBalances :
      (pool : Address) (pb : PoolBalance) (s : Storage Chain)
      {r : Option BackstopEmissionsData × Storage Chain}
      → update_emission_data math e pool pb s ≡ ok r
      → SameBalances s r.1
  unfolding update_emission_data
  update_emission_data-SameBalances pool pb s h = grind (arith, config-SameBalances)

  emissions_call-SameBalances :
      (c : Bool) (pool : Address) (pb : PoolBalance) (user : Address) (ub : UserBalance)
      (s : Storage Chain) {r : ℤ × Storage Chain}
      → emissions_call math e c pool pb user ub s ≡ ok r
      → SameBalances s r.1
  unfolding emissions_call
  emissions_call-SameBalances c pool pb user ub s h =
      grind (arith, update_emission_data-SameBalances, update_user_emissions-SameBalances)

  -- An update of emissions changes no balance.
  pub update_emissions-SameBalances :
      (pool : Address) (pb : PoolBalance) (user : Address) (ub : UserBalance) (s : Storage Chain)
      {s' : Storage Chain}
      → update_emissions math e pool pb user ub s ≡ ok s'
      → SameBalances s s'
  unfolding update_emissions
  update_emissions-SameBalances pool pb user ub s h = grind (arith, emissions_call-SameBalances)

  -- Nor does a claim of emissions.
  pub claim_emissions-SameBalances :
      (pool : Address) (pb : PoolBalance) (user : Address) (ub : UserBalance) (s : Storage Chain)
      {r : ℤ × Storage Chain}
      → claim_emissions math e pool pb user ub s ≡ ok r
      → SameBalances s r.1
  unfolding claim_emissions
  claim_emissions-SameBalances pool pb user ub s h =
      emissions_call-SameBalances true pool pb user ub s h
