-- ===== src/Backstop/Emissions.antt =====
-- The emissions of a pool's backstop to its depositors: backstop/src/emissions/distributor.rs.
use blend_contracts.Base.{
  Bool, true, false, not, ◌||◌, Option, none, some, ltb, leb, ◌==◌, if◌then◌else◌, ℤ, pos, eqb_ℤ,
  Outcome, ok, ◌>>=◌, ◌>>◌, unwrap, add_i128, sub_i128, mul_i128, sub_u,
}
use blend_contracts.Base.FixedPoint.{FixedPoint}
use blend_contracts.Base.Host.{Address, Env}
use blend_contracts.Backstop.User.{UserBalance}
use blend_contracts.Backstop.Pool.{PoolBalance, scalar_7}
use blend_contracts.Backstop.State.{
  Storage, BackstopEmissionConfig, BackstopEmissionsData, UserEmissionData,
  get_backstop_emis_config, get_backstop_emis_data, set_backstop_emis_data, get_user_emis_data,
  set_user_emis_data, require_nonnegative,
}

module _ {Chain : Type 0} where
  -- What the caller has to send to the user, and the storage.
  unfoldable pub set_user_emissions :
      Address → Address → ℤ → ℤ → Bool → Storage Chain → ℤ × Storage Chain
  set_user_emissions pool_id user index accrued to_claim s =
      if to_claim
      then (accrued, set_user_emis_data pool_id user (record { index = index; accrued = pos 0 }) s)
      else (pos 0, set_user_emis_data pool_id user (record { index = index; accrued = accrued }) s)

module _ (math : FixedPoint) where
  -- what a user with an entry has accrued up to the pool's index
  unfoldable pub accrue : BackstopEmissionsData → UserBalance → UserEmissionData → Outcome ℤ
  accrue emis_data user_balance user_data =
      if eqb_ℤ user_balance.shares (pos 0) then ok user_data.accrued else (do
        delta_index ← sub_i128 emis_data.index user_data.index
        require_nonnegative delta_index
        to_accrue ← unwrap (math.mul_floor user_balance.shares delta_index (pos scalar_7))
        add_i128 user_data.accrued to_accrue)

module _ {Chain : Type 0} (math : FixedPoint) (e : Env) where
  unfoldable pub update_user_emissions :
      Address
      → Address
      → BackstopEmissionsData
      → UserBalance
      → Bool
      → Storage Chain
      → Outcome (ℤ × Storage Chain)
  unfolding accrue
  update_user_emissions pool user emis_data user_balance to_claim s =
      elim (get_user_emis_data pool user s) [
        | some user_data ↦
            if not (eqb_ℤ user_data.index emis_data.index) || to_claim
            then (do
              accrual ← accrue math emis_data user_balance user_data
              ok (set_user_emissions pool user emis_data.index accrual to_claim s))
            else ok (pos 0, s)
        | none ↦
            if eqb_ℤ user_balance.shares (pos 0)
            then ok (set_user_emissions pool user emis_data.index (pos 0) to_claim s)
            else (do
              to_accrue ← unwrap (math.mul_floor user_balance.shares emis_data.index (pos scalar_7))
              ok (set_user_emissions pool user emis_data.index to_accrue to_claim s))
      ]

  unfoldable pub update_emission_data_with_config :
      Address
      → PoolBalance
      → BackstopEmissionConfig
      → Storage Chain
      → Outcome (BackstopEmissionsData × Storage Chain)
  update_emission_data_with_config pool_id pool_balance emis_config s = do
    emis_data ← unwrap (get_backstop_emis_data pool_id s)
    if leb emis_config.expiration emis_data.last_time
          || (e.timestamp == emis_data.last_time
              || (emis_config.eps == 0 || eqb_ℤ pool_balance.shares (pos 0)))
        then ok (emis_data, s)
        else (do
          let max_timestamp =
              (if ltb emis_config.expiration e.timestamp
                then emis_config.expiration
                else e.timestamp)
          unqueued_shares ← sub_i128 pool_balance.shares pool_balance.q4w
          require_nonnegative unqueued_shares
          elapsed ← sub_u max_timestamp emis_data.last_time
          emitted ← mul_i128 (pos elapsed) (pos emis_config.eps)
          additional_idx ← unwrap (math.div_floor emitted unqueued_shares (pos scalar_7))
          index ← add_i128 additional_idx emis_data.index
          let new_data : BackstopEmissionsData = record { index = index; last_time = e.timestamp }
          ok (new_data, set_backstop_emis_data pool_id new_data s))

  unfoldable pub update_emission_data :
      Address → PoolBalance → Storage Chain → Outcome (Option BackstopEmissionsData × Storage Chain)
  update_emission_data pool_id pool_balance s = elim (get_backstop_emis_config pool_id s) [
    | some config ↦ (do
      r ← update_emission_data_with_config pool_id pool_balance config s
      ok (some r.0, r.1))
    | none ↦ ok (none, s)
  ]

  -- `claim_emissions` with `to_claim`, and `update_emissions` without it.
  unfoldable pub emissions_call :
      Bool
      → Address
      → PoolBalance
      → Address
      → UserBalance
      → Storage Chain
      → Outcome (ℤ × Storage Chain)
  emissions_call to_claim pool_id pool_balance user_id user_balance s = do
    r ← update_emission_data pool_id pool_balance s
    elim r.0 [
      | some emis_data ↦ update_user_emissions pool_id user_id emis_data user_balance to_claim r.1
      | none ↦ ok (pos 0, r.1)
    ]

  unfoldable pub claim_emissions :
      Address → PoolBalance → Address → UserBalance → Storage Chain → Outcome (ℤ × Storage Chain)
  claim_emissions = emissions_call true

  unfoldable pub update_emissions :
      Address → PoolBalance → Address → UserBalance → Storage Chain → Outcome (Storage Chain)
  update_emissions pool_id pool_balance user_id user_balance s = do
    r ← emissions_call false pool_id pool_balance user_id user_balance s
    ok r.1
