-- ===== src/Pool/Emissions.antt =====
-- The emissions of a reserve to its users: pool/src/emissions/distributor.rs, claims left out.
use blend_contracts.Base.{
  ℕ, Bool, true, false, not, ◌&&◌, ◌||◌, Option, none, some, ltb, leb, ◌==◌, if◌then◌else◌, ℤ, pos,
  eqb_ℤ, leb_ℤ, Outcome, ok, ◌>>=◌, ◌>>◌, unwrap, add_i128, sub_i128, mul_i128, sub_u, sub_i64,
  as_i64, ltb_ℤ,
}
use blend_contracts.Base.FixedPoint.{FixedPoint}
use blend_contracts.Base.Host.{Address, Env}
use blend_contracts.Pool.State.{
  Storage, ReserveEmissionsConfig, ReserveEmissionsData, UserEmissionData, get_res_emis_config,
  get_res_emis_data, set_res_emis_data, get_user_emissions, require_nonnegative,
}
use blend_contracts.Pool.State.{set_user_emissions as write_user_emissions}
pub mod Index
pub mod Manager
pub mod Frame
pub mod Shares

-- `set_user_emissions` of the distributor: what the user is to be sent, and the storage.
unfoldable pub set_user_emissions :
    {Chain : Type 0} → Address → ℕ → ℤ → ℤ → Bool → Storage Chain → ℤ × Storage Chain
set_user_emissions user res_token_id index accrued claim s =
    if claim
    then (
      accrued,
      write_user_emissions user res_token_id (record { index = index; accrued = pos 0 }) s,
    )
    else (
      pos 0,
      write_user_emissions user res_token_id (record { index = index; accrued = accrued }) s,
    )

module _ (math : FixedPoint) where
  -- What a user with an entry has accrued up to the index of the reserve. It is reset where the index
  -- of the reserve is behind that of the user.
  unfoldable pub accrual : ReserveEmissionsData → ℤ → ℤ → UserEmissionData → Outcome ℤ
  accrual res_emis_data supply_scalar balance user_data = do
    delta ← sub_i128 res_emis_data.index user_data.index
    if leb_ℤ (pos 0) delta
        then (if eqb_ℤ balance (pos 0) then ok user_data.accrued else (do
          require_nonnegative delta
          to_accrue ← unwrap (math.mul_floor balance delta supply_scalar)
          add_i128 user_data.accrued to_accrue))
        else ok (pos 0)

  unfoldable pub update_user_emissions :
      {Chain : Type 0}
      → ReserveEmissionsData
      → ℕ
      → ℤ
      → Address
      → ℤ
      → Bool
      → Storage Chain
      → Outcome (ℤ × Storage Chain)
  update_user_emissions res_emis_data res_token_id supply_scalar user balance claim s =
      elim (get_user_emissions user res_token_id s) [
        | some user_data ↦
            if not (eqb_ℤ user_data.index res_emis_data.index) || claim
            then (do
              accrued ← accrual res_emis_data supply_scalar balance user_data
              ok (set_user_emissions user res_token_id res_emis_data.index accrued claim s))
            else ok (pos 0, s)
        | none ↦
            if eqb_ℤ balance (pos 0)
            then ok (set_user_emissions user res_token_id res_emis_data.index (pos 0) claim s)
            else (do
              to_accrue ← unwrap (math.mul_floor balance res_emis_data.index supply_scalar)
              ok (set_user_emissions user res_token_id res_emis_data.index to_accrue claim s))
      ]

  -- What is emitted for one token between the last update and now, scaled.
  unfoldable pub additional_index : ℕ → ℕ → ℕ → ℤ → ℤ → Outcome ℤ
  additional_index ledger_timestamp last_time eps supply supply_scalar = do
    span ← sub_i64 (as_i64 ledger_timestamp) (as_i64 last_time)
    if ltb_ℤ (pos 0) span && (not (eqb_ℤ supply (pos 0)) && ltb 0 eps)
        then (do
          delta ← sub_u ledger_timestamp last_time
          emitted ← mul_i128 (pos delta) (pos eps)
          unwrap (math.div_floor emitted supply supply_scalar))
        else ok (pos 0)

  unfoldable pub update_emission_data_with_config :
      {Chain : Type 0}
      → Env
      → ℕ
      → ℤ
      → ℤ
      → ReserveEmissionsConfig
      → Storage Chain
      → Outcome (ReserveEmissionsData × Storage Chain)
  update_emission_data_with_config e res_token_id supply supply_scalar emis_config s = do
    old ← unwrap (get_res_emis_data res_token_id s)
    if leb emis_config.expiration old.last_time
          || (e.timestamp == old.last_time || (emis_config.eps == 0 || eqb_ℤ supply (pos 0)))
        then ok (old, s)
        else (do
          let ledger_timestamp =
              (if ltb emis_config.expiration e.timestamp
                then emis_config.expiration
                else e.timestamp)
          additional_idx ←
              additional_index ledger_timestamp old.last_time emis_config.eps supply supply_scalar
          index ← add_i128 additional_idx old.index
          let new_data : ReserveEmissionsData = record {
            index = index;
            last_time = ledger_timestamp;
          }
          ok (new_data, set_res_emis_data res_token_id new_data s))

  unfoldable pub update_emission_data :
      {Chain : Type 0}
      → Env
      → ℕ
      → ℤ
      → ℤ
      → Storage Chain
      → Outcome (Option ReserveEmissionsData × Storage Chain)
  update_emission_data e res_token_id supply supply_scalar s =
      elim (get_res_emis_config res_token_id s) [
        | some emis_config ↦ (do
          r ← update_emission_data_with_config e res_token_id supply supply_scalar emis_config s
          ok (some r.0, r.1))
        | none ↦ ok (none, s)
      ]

  -- `update_emissions` without `claim`, and `claim_emissions` with it.
  unfoldable pub emissions_call :
      {Chain : Type 0}
      → Bool
      → Env
      → ℕ
      → ℤ
      → ℤ
      → Address
      → ℤ
      → Storage Chain
      → Outcome (ℤ × Storage Chain)
  emissions_call claim e res_token_id supply supply_scalar user balance s = do
    r ← update_emission_data e res_token_id supply supply_scalar s
    elim r.0 [
      | some res_emis_data ↦
          update_user_emissions res_emis_data res_token_id supply_scalar user balance claim r.1
      | none ↦ ok (pos 0, r.1)
    ]

  unfoldable pub update_emissions :
      {Chain : Type 0} → Env → ℕ → ℤ → ℤ → Address → ℤ → Storage Chain → Outcome (ℤ × Storage Chain)
  update_emissions = emissions_call false

  unfoldable pub claim_emissions :
      {Chain : Type 0} → Env → ℕ → ℤ → ℤ → Address → ℤ → Storage Chain → Outcome (ℤ × Storage Chain)
  claim_emissions = emissions_call true
