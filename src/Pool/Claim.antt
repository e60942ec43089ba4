-- ===== src/Pool/Claim.antt =====
-- Claims of a user's emissions: `execute_claim` of pool/src/emissions/distributor.rs. The lists of the
-- result, which the contract does not return, are left out.
use blend_contracts.Base.{
  nth, ℕ, ◌/◌, ◌%◌, ◌^◌, ◌==◌, List, [], ◌∷◌, if◌then◌else◌, ℤ, pos, ltb_ℤ, Outcome, ok, ◌>>=◌,
  none, some, or_panic, pool_error, PoolError, add_i128, checked,
}
use blend_contracts.Base.Map.{nat_key}
use blend_contracts.Base.Host.{Address, Env}
use blend_contracts.Pool.State.{Storage, get_backstop, get_blnd_token, get_res_config, get_res_data}
use blend_contracts.Pool.Emissions.{claim_emissions}
use blend_contracts.Pool.User.{User, load_user, get_liabilities, get_total_supply}
use blend_contracts.Pool.Outside.{Outside}

module _ {Chain : Type 0} (o : Outside Chain) (e : Env) where
  -- What one reserve token gives.
  unfoldable pub claim_token : User → ℕ → Storage Chain → Outcome (ℤ × Storage Chain)
  claim_token from_state reserve_token_id s = do
    let reserve_index = reserve_token_id / 2
    asset ← or_panic (pool_error PoolError.bad_request) (nth reserve_index s.res_list)
    reserve_config ← get_res_config asset s
    reserve_data ← get_res_data asset s
    balance ←
        (if reserve_token_id % 2 == 0
          then ok (get_liabilities reserve_index from_state)
          else get_total_supply reserve_index from_state)
    let supply =
        (if reserve_token_id % 2 == 0 then reserve_data.d_supply else reserve_data.b_supply)
    supply_scalar ← checked (pos (10 ^ reserve_config.decimals))
    claim_emissions o.math e reserve_token_id supply supply_scalar from_state.address balance s

  unfoldable pub claim_loop : User → List ℕ → ℤ × Storage Chain → Outcome (ℤ × Storage Chain)
  claim_loop from_state [] claimed = ok claimed
  claim_loop from_state (reserve_token_id ∷ rest) (to_claim, s) = do
    r ← claim_token from_state reserve_token_id s
    total ← add_i128 to_claim r.0
    claim_loop from_state rest (total, r.1)

  unfoldable pub execute_claim :
      Address → List ℕ → Address → Storage Chain → Outcome (ℤ × Storage Chain)
  execute_claim from reserve_token_ids to s = do
    r ← claim_loop (load_user from s) reserve_token_ids (pos 0, s)
    if ltb_ℤ (pos 0) r.0
        then (do
          let s₁ = r.1
          backstop ← get_backstop s₁
          blnd_token ← get_blnd_token s₁
          let c =
              elim (o.transfer_from s₁.chain blnd_token e.current_contract_address backstop to r.0)
                as (λ t. Chain) [ none ↦ s₁.chain | some c' ↦ c' ]
          ok (r.0, record s₁ { chain = c }))
        else ok r
