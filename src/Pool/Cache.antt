-- ===== src/Pool/Cache.antt =====
-- The pool as one call sees it, with the reserves it has loaded: pool/src/pool/pool.rs.
use blend_contracts.Base.{
  ℕ, ◌+◌, Bool, false, not, ◌&&◌, ◌||◌, Option, none, some, List, [], ◌∷◌, ◌++◌, ltb, ◌==◌,
  if◌then◌else◌, ℤ, Outcome, ok, ◌>>=◌, panic_if, or_panic, unwrap, host, pool_error, PoolError,
  add_u,
}
use blend_contracts.Base.Map.{Map, nat_key, lookup, insert}
use blend_contracts.Base.FixedPoint.{FixedPoint}
use blend_contracts.Base.Host.{Address, Env}
use blend_contracts.Pool.State.{PoolConfig, Positions, Storage, get_pool_config}
use blend_contracts.Pool.Reserve.{Reserve, load, store}

pub record Pool : Type 0 where
  pub config : PoolConfig
  pub reserves : Map Address Reserve
  pub reserves_to_store : List Address
  pub price_decimals : Option ℕ
  pub prices : Map Address ℤ

-- `PriceFeedClient` of the crate sep_40_oracle: the oracle, then the asset. The outer `none` is a call
-- that fails.
pub record PriceFeedClient (Chain : Type 0) : Type 0 where
  pub decimals : Chain → Address → Option ℕ
  pub lastprice : Chain → Address → Address → Option (Option ℤ)

abbrev pub contains : Address → List Address → Bool
contains a [] = false
contains a (b ∷ list) = (b == a) || contains a list

-- The length of a map of the SDK (u32).
abbrev pub size {ℓ} : {A : Type ℓ} → List A → ℕ
size [] = 0
size (a ∷ list) = 1 + size list

-- `Positions::effective_count`.
unfoldable pub effective_count : Positions → Outcome ℕ
effective_count p = add_u 32 (size p.liabilities) (size p.collateral)

module _ {Chain : Type 0} where
  -- `Pool::load`.
  unfoldable pub load_pool : Storage Chain → Outcome Pool
  load_pool s = do
    pool_config ← get_pool_config s
    ok (record {
      config = pool_config;
      reserves = [];
      reserves_to_store = [];
      price_decimals = none;
      prices = [];
    })

-- Marks an asset for `store_cached_reserves`, once.
unfoldable pub mark : Address → Bool → Pool → Pool
mark asset to_store pool =
    if to_store && not (contains asset pool.reserves_to_store)
    then record pool { reserves_to_store = pool.reserves_to_store ++ (asset ∷ []) }
    else pool

unfoldable pub load_reserve :
    {Chain : Type 0}
    → FixedPoint
    → Env
    → Address
    → Bool
    → Storage Chain
    → Pool
    → Outcome (Reserve × Pool)
load_reserve math e asset to_store s pool = elim (lookup asset pool.reserves) [
  | some reserve ↦ ok (reserve, mark asset to_store pool)
  | none ↦ (do reserve ← load math e pool.config asset s; ok (reserve, mark asset to_store pool))
]

unfoldable pub cache_reserve : Reserve → Pool → Pool
cache_reserve reserve pool = record pool { reserves = insert reserve.asset reserve pool.reserves }

module _ {Chain : Type 0} where
  -- The loop of `store_cached_reserves`.
  unfoldable pub store_loop :
      Map Address Reserve → List Address → Storage Chain → Outcome (Storage Chain)
  store_loop reserves [] s = ok s
  store_loop reserves (address ∷ rest) s = do
    reserve ← or_panic (pool_error PoolError.internal_reserve_not_found) (lookup address reserves)
    store_loop reserves rest (store reserve s)

  unfoldable pub store_cached_reserves : Pool → Storage Chain → Outcome (Storage Chain)
  store_cached_reserves pool s = store_loop pool.reserves pool.reserves_to_store s

unfoldable pub require_action_allowed : ℕ → Pool → Outcome (Unit {0})
require_action_allowed action_type pool =
    let status = pool.config.status in
    panic_if
      ((ltb 1 status && (action_type == 4 || action_type == 9))
        || (ltb 3 status && (action_type == 2 || action_type == 0)))
      (pool_error PoolError.invalid_pool_status)

-- The code computes the count and panics in no case but its overflow.
unfoldable pub require_under_max : Positions → ℕ → Pool → Outcome (Unit {0})
require_under_max positions previous_num pool = do new_num ← effective_count positions; ok tt

module _ {Chain : Type 0} (oracle : PriceFeedClient Chain) where
  unfoldable pub load_price_decimals : Storage Chain → Pool → Outcome (ℕ × Pool)
  load_price_decimals s pool = elim pool.price_decimals [
    | some decimals ↦ ok (decimals, pool)
    | none ↦ (do
      decimals ← or_panic host (oracle.decimals s.chain pool.config.oracle)
      ok (decimals, record pool { price_decimals = some decimals }))
  ]

  unfoldable pub load_price : Address → Storage Chain → Pool → Outcome (ℤ × Pool)
  load_price asset s pool = elim (lookup asset pool.prices) [
    | some price ↦ ok (price, pool)
    | none ↦ (do
      answer ← or_panic host (oracle.lastprice s.chain pool.config.oracle asset)
      price ← unwrap answer
      ok (price, record pool { prices = insert asset price pool.prices }))
  ]
