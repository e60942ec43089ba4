-- ===== src/Pool/Outside.antt =====
-- The code that the pool calls and that is not its own, and the price of a token amount in USDC: the
-- module `reflector_oracle` of pool/src/lib.rs.
use blend_contracts.Base.{ℕ, Option, none, some, ℤ, pos, Outcome, ◌>>=◌, or_panic, host}
use blend_contracts.Base.FixedPoint.{FixedPoint}
use blend_contracts.Base.Host.{Address, TokenClient}
use blend_contracts.Pool.Status.{PoolBackstopData}
use blend_contracts.Pool.Cache.{PriceFeedClient}

-- The symbols of tokens that the code tells apart. `native` is that of the token of the network.
pub data Symbol : Type 0 where
  btc eth usdt xrp sol usdc ada avax dot matic link dai atom native xlm uni eurc : Symbol
  unlisted : ℕ → Symbol

pub data Asset : Type 0 where
  stellar : Address → Asset
  other : Symbol → Asset

-- The two price feeds of the build (REFLECTOR_ORACLE_OFFCHAIN_PRICES and _PUBNET_PRICES) and the
-- symbols of tokens. The answer to `last_timestamp` is not read. The outer `none` is a call that fails.
-- `fixed_mul_ceil` is that of `SorobanFixedPoint`.
pub record Reflector (Chain : Type 0) : Type 0 where
  pub symbol : Chain → Address → Option Symbol
  pub offchain_price : Chain → Asset → Option (Option ℤ)
  pub pubnet_price : Chain → Asset → Option (Option ℤ)
  pub fixed_mul_ceil : ℤ → ℤ → ℤ → Option ℤ

-- The calls of the backstop contract: its address, then the pool.
pub record BackstopContract (Chain : Type 0) : Type 0 where
  pub pool_data : Chain → Address → Address → Option PoolBackstopData
  pub backstop_token : Chain → Address → Option Address
  -- the pool, the amount, the receiver
  pub draw : Chain → Address → Address → ℤ → Address → Option Chain
  -- the giver, the pool, the amount
  pub donate : Chain → Address → Address → Address → ℤ → Option Chain
  pub gulp_pool_emissions : Chain → Address → Address → Option (ℤ × Chain)

-- `deployment_seq` is DEPLOYMENT_SEQ of the build. The token's `transfer_from` takes the token, the
-- spender, the giver and the receiver.
pub record Outside (Chain : Type 0) : Type 0 where
  pub math : FixedPoint
  pub oracle : PriceFeedClient Chain
  pub tokens : TokenClient Chain
  pub transfer_from : Chain → Address → Address → Address → Address → ℤ → Option Chain
  pub reflector : Reflector Chain
  pub backstop : BackstopContract Chain
  pub deployment_seq : ℕ

-- The asset of the feed of off-chain prices that a symbol stands for.
unfoldable pub listed : Symbol → Option Asset
listed (unlisted n) = none
listed xlm = none
listed native = some (other xlm)
listed symbol = some (other symbol)

unfoldable pub get_token_amount_in_usdc_value :
    {Chain : Type 0} → Reflector Chain → Chain → Address → ℤ → Outcome ℤ
get_token_amount_in_usdc_value reflector c token amount = do
  token_symbol ← or_panic host (reflector.symbol c token)
  result ← or_panic host (elim (listed token_symbol) [
    | some asset ↦ reflector.offchain_price c asset
    | none ↦ reflector.pubnet_price c (stellar token)
  ])
  let price : ℤ = elim result [ none ↦ pos 0 | some p ↦ p ]
  or_panic host (reflector.fixed_mul_ceil price amount (pos 100000000000000))

-- A transfer whose failure is ignored: `try_transfer`.
unfoldable pub try_transfer :
    {Chain : Type 0} → TokenClient Chain → Address → Address → Address → ℤ → Chain → Chain
try_transfer tokens token from to amount c = elim (tokens.transfer c token from to amount) [
  | none ↦ c
  | some c' ↦ c'
]
