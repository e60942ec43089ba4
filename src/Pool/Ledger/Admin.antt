-- ===== src/Pool/Ledger/Admin.antt =====
-- The calls of the admin, and those on the status and on emissions, leave the books alone:
-- pool/src/contract.rs.
use blend_contracts.Base.{
  ℕ, refl, ◌==◌, ltb, leb, if◌then◌else◌, List, pos, ltb_ℤ, not, ok, or_panic, host, add_u, Ensures,
  Ensures-ok, Ensures-bind, Ensures-panic_if,
}
use blend_contracts.Base.Map.{nat_key}
use blend_contracts.Pool.Emissions.Manager.{ReserveEmissionMetadata}
use blend_contracts.Base.Host.{Address, Env, require_auth}
use blend_contracts.Pool.State.{
  PoolConfig, ReserveConfig, Storage, scalar_7, seconds_per_week, get_admin, get_backstop,
  get_pool_config, set_pool_config, set_is_init, set_backstop, set_blnd_token,
  set_queued_reserve_set, del_queued_reserve_set, has_queued_reserve_set,
}
use blend_contracts.Pool.State.{set_admin as write_admin}
use blend_contracts.Pool.Status.{
  execute_update_pool_status, execute_set_pool_status, updated_status, admin_status,
  calc_pool_backstop_threshold,
}
use blend_contracts.Pool.Config.{
  execute_initialize, execute_update_pool, execute_queue_set_reserve,
  execute_cancel_queued_set_reserve, require_valid_reserve_metadata,
}
use blend_contracts.Pool.Emissions.Frame.{Kept}
use blend_contracts.Pool.Outside.{Outside}
use blend_contracts.Pool.Contract.{
  initialize, set_admin, update_pool, queue_set_reserve, cancel_set_reserve, set_status,
  set_emissions_config, claim,
}
use blend_contracts.Pool.Ledger.Others.{set_emissions-Kept, claim-Kept}

module _ {Chain : Type 0} where
  config-Kept : (config : PoolConfig) (s : Storage Chain) → Kept s (set_pool_config config s)
  unfolding set_pool_config
  config-Kept config s = record {
    res_configs = refl;
    res_data = refl;
    res_list = refl;
    positions = refl;
  }

module _ {Chain : Type 0} (o : Outside Chain) (e : Env) where
  pub initialize-Kept :
      (admin oracle : Address) (rate n : ℕ) (backstop blnd : Address) (s : Storage Chain)
      → Ensures (Kept s) (initialize o e admin oracle rate n backstop blnd s)
  unfolding initialize execute_initialize set_is_init set_blnd_token set_pool_config set_backstop
      write_admin
  initialize-Kept admin oracle rate n backstop blnd s = Ensures-bind (require_auth e admin) _ λ _ _.
      Ensures-panic_if s.is_init _ _ λ _. Ensures-panic_if (leb scalar_7 rate) _ _ λ _.
        Ensures-panic_if (ltb n 2) _ _ λ _.
          Ensures-ok _
            (record { res_configs = refl; res_data = refl; res_list = refl; positions = refl })

  pub set_admin-Kept : (new : Address) (s : Storage Chain) → Ensures (Kept s) (set_admin o e new s)
  unfolding set_admin write_admin
  set_admin-Kept new s = Ensures-bind (get_admin s) _ λ admin _.
      Ensures-bind (require_auth e admin) _ λ _ _. Ensures-bind (require_auth e new) _ λ _ _.
        Ensures-ok _
          (record { res_configs = refl; res_data = refl; res_list = refl; positions = refl })

  pub update_pool-Kept :
      (rate n : ℕ) (s : Storage Chain) → Ensures (Kept s) (update_pool o e rate n s)
  unfolding update_pool execute_update_pool
  update_pool-Kept rate n s = Ensures-bind (get_admin s) _ λ admin _.
      Ensures-bind (require_auth e admin) _ λ _ _.
        Ensures-panic_if (leb scalar_7 rate) _ _
          λ _. Ensures-bind (get_pool_config s) _ λ c _. Ensures-ok _ (config-Kept _ s)

  pub queue-Kept :
      (asset : Address) (metadata : ReserveConfig) (s : Storage Chain)
      → Ensures (Kept s) (queue_set_reserve o e asset metadata s)
  unfolding queue_set_reserve execute_queue_set_reserve set_queued_reserve_set
  queue-Kept asset metadata s = Ensures-bind (get_admin s) _ λ admin _.
      Ensures-bind (require_auth e admin) _ λ _ _.
        Ensures-panic_if (has_queued_reserve_set asset s) _ _ λ _.
          Ensures-bind (require_valid_reserve_metadata metadata) _ λ _ _.
            Ensures-bind (get_pool_config s) _ λ c _.
              Ensures-bind
                (if c.status == 6 then ok e.timestamp else add_u 64 e.timestamp seconds_per_week) _
                λ unlock _. Ensures-ok _ (record {
                  res_configs = refl;
                  res_data = refl;
                  res_list = refl;
                  positions = refl;
                })

  pub cancel-Kept :
      (asset : Address) (s : Storage Chain) → Ensures (Kept s) (cancel_set_reserve o e asset s)
  unfolding cancel_set_reserve execute_cancel_queued_set_reserve del_queued_reserve_set
  cancel-Kept asset s = Ensures-bind (get_admin s) _ λ admin _.
      Ensures-bind (require_auth e admin) _ λ _ _.
        Ensures-ok _
          (record { res_configs = refl; res_data = refl; res_list = refl; positions = refl })

  pub status-Kept :
      (s : Storage Chain)
      → Ensures (λ r. Kept s r.1) (execute_update_pool_status o.backstop.pool_data e s)
  unfolding execute_update_pool_status
  status-Kept s = Ensures-bind (get_pool_config s) _ λ c _. Ensures-bind (get_backstop s) _ λ k _.
      Ensures-bind (or_panic host (o.backstop.pool_data s.chain k e.current_contract_address)) _
        λ d _.
          Ensures-bind
            (updated_status c.status (not (ltb_ℤ (calc_pool_backstop_threshold d) (pos scalar_7)))
              d.q4w_pct)
            _ λ status _. Ensures-ok _ (config-Kept _ s)

  pub set_status-Kept :
      (status : ℕ) (s : Storage Chain) → Ensures (Kept s) (set_status o e status s)
  unfolding set_status execute_set_pool_status
  set_status-Kept status s = Ensures-bind (get_admin s) _ λ admin _.
      Ensures-bind (require_auth e admin) _ λ _ _. Ensures-bind (get_pool_config s) _ λ c _.
        Ensures-bind (get_backstop s) _ λ k _.
          Ensures-bind (or_panic host (o.backstop.pool_data s.chain k e.current_contract_address)) _
            λ d _. Ensures-bind (admin_status status d) _ λ new _. Ensures-ok _ (config-Kept _ s)

  pub set_emissions_config-Kept :
      (metadata : List ReserveEmissionMetadata) (s : Storage Chain)
      → Ensures (Kept s) (set_emissions_config o e metadata s)
  unfolding set_emissions_config
  set_emissions_config-Kept metadata s =
      Ensures-bind (get_admin s) _
        λ admin _. Ensures-bind (require_auth e admin) _ λ _ _. set_emissions-Kept metadata s

  pub contract_claim-Kept :
      (from : Address) (ids : List ℕ) (to : Address) (s : Storage Chain)
      → Ensures (λ r. Kept s r.1) (claim o e from ids to s)
  unfolding claim
  contract_claim-Kept from ids to s =
      Ensures-bind (require_auth e from) _ λ _ _. claim-Kept o e from ids to s
