-- ===== src/Pool/Emissions/Manager.antt =====
-- The emissions of the pool to its reserves: pool/src/emissions/manager.rs, events left out.
use blend_contracts.Base.{
  to_u64, nth, ℕ, ◌*◌, ◌/◌, ◌%◌, ◌^◌, ◌==◌, ◌||◌, not, Option, none, some, List, [], ◌∷◌, ltb,
  if◌then◌else◌, ℤ, pos, ltb_ℤ, div_ℤ, Outcome, ok, ◌>>=◌, ◌>>◌, panic_if, or_panic, unwrap, host,
  pool_error, PoolError, add_i128, add_u, sub_u, mul_u, checked,
}
use blend_contracts.Base.Map.{Map, nat_key, insert}
use blend_contracts.Base.FixedPoint.{FixedPoint}
use blend_contracts.Base.Host.{Address, Env}
use blend_contracts.Pool.State.{
  Storage, ReserveEmissionsConfig, scalar_7, is_some, get_backstop, get_res_config, get_res_data,
  get_res_emis_config, set_res_emis_config, set_res_emis_data, set_pool_emissions,
}
use blend_contracts.Pool.Emissions.{update_emission_data_with_config}

pub record ReserveEmissionMetadata : Type 0 where
  pub res_index : ℕ
  pub res_type : ℕ
  pub share : ℕ

-- A week in seconds.
abbrev pub emission_cycle : ℕ
emission_cycle = 7 * 24 * 60 * 60

-- The loop over the metadata: the shares by token, and their sum.
unfoldable pub share_loop :
    List Address → List ReserveEmissionMetadata → Map ℕ ℕ × ℕ → Outcome (Map ℕ ℕ × ℕ)
share_loop reserve_list [] found = ok found
share_loop reserve_list (metadata ∷ rest) found = do
  twice ← mul_u 32 metadata.res_index 2
  key ← add_u 32 twice metadata.res_type
  panic_if (ltb 1 metadata.res_type || not (is_some (nth metadata.res_index reserve_list)))
      (pool_error PoolError.bad_request)
  total_share ← add_u 64 found.1 metadata.share
  share_loop reserve_list rest (insert key metadata.share found.0, total_share)

module _ {Chain : Type 0} where
  -- `set_pool_emissions` of the manager.
  unfoldable pub set_emissions :
      List ReserveEmissionMetadata → Storage Chain → Outcome (Storage Chain)
  set_emissions res_emission_metadata s = do
    found ← share_loop s.res_list res_emission_metadata ([], 0)
    panic_if (ltb scalar_7 found.1) (pool_error PoolError.bad_request)
    ok (set_pool_emissions found.0 s)

-- What is left of the emissions under the old configuration.
unfoldable pub unspent : Env → ReserveEmissionsConfig → ℤ → Outcome ℤ
unspent e emis_config new_emissions =
    if ltb e.timestamp emis_config.expiration
    then (do
      time ← sub_u emis_config.expiration e.timestamp
      tokens ← mul_u 64 emis_config.eps time
      add_i128 new_emissions (pos tokens))
    else ok new_emissions

module _ {Chain : Type 0} (math : FixedPoint) (e : Env) where
  -- The part of `update_reserve_emission_config` where the token has a configuration: its index is
  -- brought up to now.
  unfoldable pub refresh :
      Address → ℕ → ReserveEmissionsConfig → Storage Chain → Outcome (Storage Chain)
  refresh asset res_token_id emis_config s = do
    reserve_config ← get_res_config asset s
    reserve_data ← get_res_data asset s
    let supply = (if res_token_id % 2 == 0 then reserve_data.d_supply else reserve_data.b_supply)
    supply_scalar ← checked (pos (10 ^ reserve_config.decimals))
    r ← update_emission_data_with_config math e res_token_id supply supply_scalar emis_config s
    let emission_data = r.0
    ok (
        if emission_data.last_time == e.timestamp
        then r.1
        else set_res_emis_data res_token_id (record emission_data { last_time = e.timestamp }) r.1)

  -- The match on the old configuration: the tokens to emit, and the storage.
  unfoldable pub carry_over : Address → ℕ → ℤ → Storage Chain → Outcome (ℤ × Storage Chain)
  carry_over asset res_token_id new_reserve_emissions s =
      elim (get_res_emis_config res_token_id s) [
        | some emis_config ↦ (do
          s₁ ← refresh asset res_token_id emis_config s
          tokens ← unspent e emis_config new_reserve_emissions
          ok (tokens, s₁))
        | none ↦ ok (
          new_reserve_emissions,
          set_res_emis_data res_token_id (record { index = pos 0; last_time = e.timestamp }) s,
        )
      ]

  unfoldable pub update_reserve_emission_config :
      Address → ℕ → ℤ → Storage Chain → Outcome (Storage Chain)
  update_reserve_emission_config asset res_token_id new_reserve_emissions s = do
    r ← carry_over asset res_token_id new_reserve_emissions s
    expiration ← add_u 64 e.timestamp emission_cycle
    eps ← to_u64 (div_ℤ r.0 emission_cycle)
    ok (set_res_emis_config res_token_id (record { expiration = expiration; eps = eps }) r.1)

  -- The loop over the shares of the tokens.
  unfoldable pub gulp_loop : ℤ → Map ℕ ℕ → Storage Chain → Outcome (Storage Chain)
  gulp_loop new_emissions [] s = ok s
  gulp_loop new_emissions ((res_token_id, share) ∷ rest) s = do
    asset ← or_panic host (nth (res_token_id / 2) s.res_list)
    tokens ← unwrap (math.mul_floor (pos share) new_emissions (pos scalar_7))
    s₁ ← update_reserve_emission_config asset res_token_id tokens s
    gulp_loop new_emissions rest s₁

  unfoldable pub do_gulp_emissions : ℤ → Storage Chain → Outcome (Storage Chain)
  do_gulp_emissions new_emissions s = do
    panic_if (ltb_ℤ new_emissions (pos scalar_7)) (pool_error PoolError.bad_request)
    gulp_loop new_emissions s.pool_emissions s

  -- The backstop hands over what the pool is to emit: its address, then the pool.
  unfoldable pub gulp_emissions :
      (Chain → Address → Address → Option (ℤ × Chain)) → Storage Chain → Outcome (ℤ × Storage Chain)
  gulp_emissions gulp_pool_emissions s = do
    backstop ← get_backstop s
    g ← or_panic host (gulp_pool_emissions s.chain backstop e.current_contract_address)
    s₁ ← do_gulp_emissions g.0 (record s { chain = g.1 })
    ok (g.0, s₁)
