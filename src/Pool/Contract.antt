-- ===== src/Pool/Contract.antt =====
-- The calls of the pool contract that its modules do not have: pool/src/contract.rs. Events and the
-- lifetime of the instance are left out; `submit` is in Submit.
use blend_contracts.Base.{ℕ, List, ℤ, Outcome, ok, ◌>>=◌, ◌>>◌}
use blend_contracts.Base.Host.{Address, Env, require_auth}
use blend_contracts.Pool.State.{ReserveConfig, Storage, get_admin}
use blend_contracts.Pool.State.{set_admin as write_admin}
use blend_contracts.Pool.Status.{execute_set_pool_status}
use blend_contracts.Pool.Config.{
  execute_initialize, execute_update_pool, execute_queue_set_reserve,
  execute_cancel_queued_set_reserve,
}
use blend_contracts.Pool.Emissions.Manager.{ReserveEmissionMetadata, set_emissions}
use blend_contracts.Pool.Claim.{execute_claim}
use blend_contracts.Pool.Outside.{Outside}

module _ {Chain : Type 0} (o : Outside Chain) (e : Env) where
  unfoldable pub initialize :
      Address → Address → ℕ → ℕ → Address → Address → Storage Chain → Outcome (Storage Chain)
  initialize admin oracle bstop_rate max_positions backstop_id blnd_id s = do
    require_auth e admin
    execute_initialize admin oracle bstop_rate max_positions backstop_id blnd_id s

  unfoldable pub set_admin : Address → Storage Chain → Outcome (Storage Chain)
  set_admin new_admin s = do
    admin ← get_admin s
    require_auth e admin
    require_auth e new_admin
    ok (write_admin new_admin s)

  unfoldable pub update_pool : ℕ → ℕ → Storage Chain → Outcome (Storage Chain)
  update_pool backstop_take_rate max_positions s = do
    admin ← get_admin s
    require_auth e admin
    execute_update_pool backstop_take_rate max_positions s

  unfoldable pub queue_set_reserve :
      Address → ReserveConfig → Storage Chain → Outcome (Storage Chain)
  queue_set_reserve asset metadata s = do
    admin ← get_admin s
    require_auth e admin
    execute_queue_set_reserve e asset metadata s

  unfoldable pub cancel_set_reserve : Address → Storage Chain → Outcome (Storage Chain)
  cancel_set_reserve asset s = do
    admin ← get_admin s
    require_auth e admin
    ok (execute_cancel_queued_set_reserve asset s)

  unfoldable pub set_status : ℕ → Storage Chain → Outcome (Storage Chain)
  set_status pool_status s = do
    admin ← get_admin s
    require_auth e admin
    execute_set_pool_status o.backstop.pool_data e pool_status s

  unfoldable pub set_emissions_config :
      List ReserveEmissionMetadata → Storage Chain → Outcome (Storage Chain)
  set_emissions_config res_emission_metadata s = do
    admin ← get_admin s
    require_auth e admin
    set_emissions res_emission_metadata s

  unfoldable pub claim : Address → List ℕ → Address → Storage Chain → Outcome (ℤ × Storage Chain)
  claim from reserve_token_ids to s = do
    require_auth e from
    execute_claim o e from reserve_token_ids to s
