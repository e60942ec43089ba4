-- ===== src/Factory.antt =====
-- The pool factory: pool-factory/src/pool_factory.rs and pool-factory/src/storage.rs, without the
-- lifetime of entries and the events.
use blend_contracts.Base.{
  ℕ, ◌+◌, ◌≤◌, ◌<◌, ◌≡◌, refl, Bool, true, false, ◌||◌, not, Option, none, some, List, [], ◌∷◌,
  arith, ltb, leb, ◌==◌, if◌then◌else◌, Outcome, ok, panic, ◌>>=◌, ◌>>◌, panic_if, or_panic, unwrap,
  host, factory_error, PoolFactoryError, settle, settle_keeps, Ensures, Ensures-ok, Ensures-bind,
  Ensures-panic_if,
}
use blend_contracts.Base.Map.{Map, nat_key, lookup, insert, get_or, get_or-insert, nat_beq_iff}
use blend_contracts.Base.Host.{Address, Env, require_auth}
pub mod Deployed
mod Tests

abbrev pub scalar_7 : ℕ
scalar_7 = 10000000

pub record PoolInitMeta : Type 0 where
  pub pool_hash : ℕ
  pub backstop : Address
  pub blnd_id : Address

-- The arguments of a pool's `initialize`, in the order the factory sends them.
pub record InitArgs : Type 0 where
  pub admin : Address
  pub name : ℕ
  pub oracle : Address
  pub backstop_take_rate : ℕ
  pub max_positions : ℕ
  pub backstop_id : Address
  pub blnd_id : Address

pub record Storage (Chain : Type 0) : Type 0 where
  pub is_init : Bool
  pub pool_init_meta : Option PoolInitMeta
  pub contracts : Map Address Bool
  pub chain : Chain

-- The host: the salt hashed with the admin's address, the deployment of a contract's code, and the
-- call of `initialize` of the new contract.
pub record Deployer (Chain : Type 0) : Type 0 where
  pub keccak256 : ℕ → Address → ℕ
  pub deploy : Chain → Address → ℕ → ℕ → Option (Address × Chain)
  pub invoke_initialize : Chain → Address → InitArgs → Option Chain

module _ {Chain : Type 0} where
  unfoldable pub initialize : PoolInitMeta → Storage Chain → Outcome (Storage Chain)
  initialize meta s = do
    panic_if s.is_init (factory_error PoolFactoryError.already_initialized_error)
    ok (record s { pool_init_meta = some meta; is_init = true })

  -- `is_deployed` of the storage.
  unfoldable pub is_pool : Address → Storage Chain → Bool
  is_pool pool_address s = get_or pool_address false s.contracts

  unfoldable pub set_deployed : Address → Storage Chain → Storage Chain
  set_deployed contract_id s = record s { contracts = insert contract_id true s.contracts }

module _ {Chain : Type 0} (deployer : Deployer Chain) (e : Env) where
  unfoldable pub deploy :
      Address → ℕ → ℕ → Address → ℕ → ℕ → Storage Chain → Outcome (Address × Storage Chain)
  deploy admin name salt oracle backstop_take_rate max_positions s = do
    require_auth e admin
    meta ← unwrap s.pool_init_meta
    panic_if (leb scalar_7 backstop_take_rate)
        (factory_error PoolFactoryError.invalid_pool_init_args)
    panic_if (ltb max_positions 2) (factory_error PoolFactoryError.invalid_pool_init_args)
    let new_salt = deployer.keccak256 salt admin
    let init_args : InitArgs = record {
      admin = admin;
      name = name;
      oracle = oracle;
      backstop_take_rate = backstop_take_rate;
      max_positions = max_positions;
      backstop_id = meta.backstop;
      blnd_id = meta.blnd_id;
    }
    d ← or_panic host (deployer.deploy s.chain e.current_contract_address new_salt meta.pool_hash)
    chain ← or_panic host (deployer.invoke_initialize d.1 d.0 init_args)
    ok (d.0, set_deployed d.0 (record s { chain = chain }))

pub data Call : Type 0 where
  initialize_call : PoolInitMeta → Call
  deploy_call : Address → ℕ → ℕ → Address → ℕ → ℕ → Call

module _ {Chain : Type 0} (deployer : Deployer Chain) where
  unfoldable pub dispatch : Env → Call → Storage Chain → Outcome (Storage Chain)
  dispatch e (initialize_call meta) s = initialize meta s
  dispatch e (deploy_call admin name salt oracle rate positions) s = do
    r ← deploy deployer e admin name salt oracle rate positions s
    ok r.1

  unfoldable pub run : List (Env × Call) → Storage Chain → Storage Chain
  run [] s = s
  run ((e, c) ∷ calls) s = run calls (settle (dispatch e c s) s)
