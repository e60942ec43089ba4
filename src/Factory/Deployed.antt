-- ===== src/Factory/Deployed.antt =====
-- Which contracts the factory vouches for: pool-factory/src/pool_factory.rs.
use blend_contracts.Base.{
  ℕ, ◌≤◌, ◌<◌, ◌≡◌, true, false, ◌||◌, Option, none, some, arith, ltb, leb, ◌==◌, ok, or_panic,
  unwrap, host, or_panic_ok, Ensures, Ensures-ok, Ensures-bind, Ensures-panic_if,
}
use blend_contracts.Base.Map.{nat_key, get_or-insert}
use blend_contracts.Base.Host.{Address, Env, require_auth}
use blend_contracts.Factory.{
  scalar_7, PoolInitMeta, Storage, Deployer, is_pool, set_deployed, deploy,
}

require_auth_ok :
    (e : Env) (a : Address) {u : Unit} → require_auth e a ≡ ok u → e.authorized a ≡ true
require_auth_ok e a h = ground arith

unwrap-some : {A : Type 0} (o : Option A) {a b : A} → o ≡ some a → unwrap o ≡ ok b → a ≡ b
unwrap-some none h k = cc
unwrap-some (some c) h k = cc

module _ {Chain : Type 0} (deployer : Deployer Chain) (e : Env) where
  -- Where the factory is initialized, a deployment that goes through was authorized by the admin,
  -- with a take rate below one and at least two positions. The new pool was initialized with
  -- exactly these arguments and the factory's backstop and BLND token, and its address is the only
  -- one more that the factory calls a pool.
  pub deploy_lem :
      (admin oracle : Address) (name salt rate positions : ℕ) (s : Storage Chain)
      (meta : PoolInitMeta) (b : Address)
      → s.pool_init_meta ≡ some meta
      → Ensures
          (λ r.
            (e.authorized admin ≡ true)
            × (rate < scalar_7)
            × (2 ≤ positions)
            × ((c : Chain) × (deployer.invoke_initialize c r.0 (record {
              admin = admin;
              name = name;
              oracle = oracle;
              backstop_take_rate = rate;
              max_positions = positions;
              backstop_id = meta.backstop;
              blnd_id = meta.blnd_id;
            })
                  ≡ some r.1.chain))
            × (is_pool b r.1 ≡ (r.0 == b) || is_pool b s))
          (deploy deployer e admin name salt oracle rate positions s)
  unfolding deploy set_deployed is_pool
  deploy_lem admin oracle name salt rate positions s meta b em =
      Ensures-bind (require_auth e admin) _ λ u eu. Ensures-bind (unwrap s.pool_init_meta) _ λ m eq.
        let same : meta ≡ m = unwrap-some s.pool_init_meta em eq in
        Ensures-panic_if (leb scalar_7 rate) _ _ λ h₀. Ensures-panic_if (ltb positions 2) _ _ λ h₁.
          Ensures-bind (or_panic host (deployer.deploy s.chain _ _ m.pool_hash)) _ λ d ed.
            Ensures-bind (or_panic host (deployer.invoke_initialize d.1 d.0 _)) _ λ chain ec.
              Ensures-ok _ (
                require_auth_ok e admin eu,
                ground arith,
                ground arith,
                (d.1, rw same (or_panic_ok _ _ ec)),
                ground (arith, get_or-insert d.0 b false true s.contracts),
              )
