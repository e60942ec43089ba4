-- ===== src/Factory/Tests.antt =====
-- The factory's theorem at a concrete input (pool-factory/src/pool_factory.rs).
use blend_contracts.Base.{◌≤◌, ◌<◌, ◌≡◌, refl, true, ◌||◌, some, [], ◌==◌, Ensures}
use blend_contracts.Samples.{env_at}
use blend_contracts.Factory.{scalar_7, PoolInitMeta, Storage, Deployer, is_pool, deploy}
use blend_contracts.Factory.Deployed.{deploy_lem}

-- Contracts are numbered by their salts.
abbrev deployer : Deployer (Unit {0})
deployer = record {
  keccak256 = λ salt admin. salt;
  deploy = λ c factory salt code. some (salt, tt);
  invoke_initialize = λ c pool args. some tt;
}

abbrev meta : PoolInitMeta
meta = record { pool_hash = 5; backstop = 2; blnd_id = 7 }

abbrev started : Storage (Unit {0})
started = record { is_init = true; pool_init_meta = some meta; contracts = []; chain = tt }

deploy_lem_example :
    Ensures
      (λ r.
        (true ≡ true)
        × (1000000 < scalar_7)
        × (2 ≤ 4)
        × ((c : Unit {0}) × (some tt ≡ some r.1.chain))
        × (is_pool 99 r.1 ≡ (r.0 == 99) || is_pool 99 started))
      (deploy deployer (env_at 1000) 11 12 99 8 1000000 4 started)
deploy_lem_example = deploy_lem deployer (env_at 1000) 11 8 12 99 1000000 4 started meta 99 refl
