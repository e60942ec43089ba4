-- ===== src/Pool/State.antt =====
-- The pool's storage: pool/src/storage.rs, without the lifetime of entries, pool/src/constants.rs, and
-- the positions of pool/src/pool/user.rs.
use blend_contracts.Base.{
  length, ℕ, ◌-◌, Bool, true, false, Option, none, some, List, [], ◌∷◌, ◌++◌, ◌==◌, ℤ, pos, ltb_ℤ,
  Outcome, ok, ◌>>◌, panic_if, unwrap, pool_error, PoolError,
}
use blend_contracts.Base.Map.{Map, nat_key, pair_key, lookup, insert, remove}
use blend_contracts.Base.Host.{Address}

abbrev pub scalar_7 : ℕ
scalar_7 = 10000000

abbrev pub scalar_9 : ℕ
scalar_9 = 1000000000

abbrev pub seconds_per_year : ℕ
seconds_per_year = 31536000

abbrev pub seconds_per_week : ℕ
seconds_per_week = 604800

pub record PoolConfig : Type 0 where
  pub oracle : Address
  pub bstop_rate : ℕ
  pub status : ℕ
  pub max_positions : ℕ

pub record ReserveConfig : Type 0 where
  pub index : ℕ
  pub decimals : ℕ
  pub c_factor : ℕ
  pub l_factor : ℕ
  pub util : ℕ
  pub max_util : ℕ
  pub r_base : ℕ
  pub r_one : ℕ
  pub r_two : ℕ
  pub r_three : ℕ
  pub reactivity : ℕ

pub record ReserveData : Type 0 where
  pub d_rate : ℤ
  pub b_rate : ℤ
  pub ir_mod : ℤ
  pub b_supply : ℤ
  pub d_supply : ℤ
  pub backstop_credit : ℤ
  pub last_time : ℕ

pub record ReserveEmissionsConfig : Type 0 where
  pub expiration : ℕ
  pub eps : ℕ

pub record ReserveEmissionsData : Type 0 where
  pub index : ℤ
  pub last_time : ℕ

pub record UserEmissionData : Type 0 where
  pub index : ℤ
  pub accrued : ℤ

pub record Positions : Type 0 where
  pub liabilities : Map ℕ ℤ
  pub collateral : Map ℕ ℤ
  pub supply : Map ℕ ℤ

pub record QueuedReserveInit : Type 0 where
  pub new_config : ReserveConfig
  pub unlock_time : ℕ

-- `AuctionData` of pool/src/auctions/auction.rs.
pub record AuctionData : Type 0 where
  pub bid : Map Address ℤ
  pub lot : Map Address ℤ
  pub block : ℕ

-- The entries of the storage, and the state of the other contracts. An auction is kept under its type
-- and its user.
pub record Storage (Chain : Type 0) : Type 0 where
  pub backstop : Option Address
  pub pool_config : Option PoolConfig
  pub res_configs : Map Address ReserveConfig
  pub res_data : Map Address ReserveData
  pub res_list : List Address
  pub emis_configs : Map ℕ ReserveEmissionsConfig
  pub emis_data : Map ℕ ReserveEmissionsData
  pub user_emis : Map (Address × ℕ) UserEmissionData
  pub positions : Map Address Positions
  pub auctions : Map (ℕ × Address) AuctionData
  pub queued_reserves : Map Address QueuedReserveInit
  pub pool_emissions : Map ℕ ℕ
  pub is_init : Bool
  pub admin : Option Address
  pub blnd_token : Option Address
  pub chain : Chain

unfoldable pub require_nonnegative : ℤ → Outcome (Unit {0})
require_nonnegative amount =
    panic_if (ltb_ℤ amount (pos 0)) (pool_error PoolError.negative_amount_error)

-- `Positions::env_default`.
abbrev pub env_default : Positions
env_default = record { liabilities = []; collateral = []; supply = [] }

abbrev pub is_some {ℓ} : {A : Type ℓ} → Option A → Bool
is_some none = false
is_some (some a) = true

module _ {Chain : Type 0} where
  unfoldable pub set_is_init : Storage Chain → Storage Chain
  set_is_init s = record s { is_init = true }

  unfoldable pub get_admin : Storage Chain → Outcome Address
  get_admin s = unwrap s.admin

  unfoldable pub set_admin : Address → Storage Chain → Storage Chain
  set_admin new_admin s = record s { admin = some new_admin }

  unfoldable pub set_backstop : Address → Storage Chain → Storage Chain
  set_backstop backstop s = record s { backstop = some backstop }

  unfoldable pub get_blnd_token : Storage Chain → Outcome Address
  get_blnd_token s = unwrap s.blnd_token

  unfoldable pub set_blnd_token : Address → Storage Chain → Storage Chain
  set_blnd_token blnd_token_id s = record s { blnd_token = some blnd_token_id }

  unfoldable pub set_res_config : Address → ReserveConfig → Storage Chain → Storage Chain
  set_res_config asset config s = record s { res_configs = insert asset config s.res_configs }

  unfoldable pub has_res : Address → Storage Chain → Bool
  has_res asset s = is_some (lookup asset s.res_configs)

  unfoldable pub get_queued_reserve_set : Address → Storage Chain → Outcome QueuedReserveInit
  get_queued_reserve_set asset s = unwrap (lookup asset s.queued_reserves)

  unfoldable pub has_queued_reserve_set : Address → Storage Chain → Bool
  has_queued_reserve_set asset s = is_some (lookup asset s.queued_reserves)

  unfoldable pub set_queued_reserve_set :
      QueuedReserveInit → Address → Storage Chain → Storage Chain
  set_queued_reserve_set res_init asset s = record s {
    queued_reserves = insert asset res_init s.queued_reserves;
  }

  unfoldable pub del_queued_reserve_set : Address → Storage Chain → Storage Chain
  del_queued_reserve_set asset s = record s { queued_reserves = remove asset s.queued_reserves }

  unfoldable pub push_res_list : Address → Storage Chain → Outcome (ℕ × Storage Chain)
  push_res_list asset s = do
    panic_if (length s.res_list == 32) (pool_error PoolError.bad_request)
    let res_list = s.res_list ++ (asset ∷ [])
    ok (length res_list - 1, record s { res_list = res_list })

  unfoldable pub set_res_emis_config : ℕ → ReserveEmissionsConfig → Storage Chain → Storage Chain
  set_res_emis_config res_token_index d s = record s {
    emis_configs = insert res_token_index d s.emis_configs;
  }

  unfoldable pub set_pool_emissions : Map ℕ ℕ → Storage Chain → Storage Chain
  set_pool_emissions emissions s = record s { pool_emissions = emissions }

  unfoldable pub get_auction : ℕ → Address → Storage Chain → Outcome AuctionData
  get_auction auction_type user s = unwrap (lookup (auction_type, user) s.auctions)

  unfoldable pub has_auction : ℕ → Address → Storage Chain → Bool
  has_auction auction_type user s = is_some (lookup (auction_type, user) s.auctions)

  unfoldable pub set_auction : ℕ → Address → AuctionData → Storage Chain → Storage Chain
  set_auction auction_type user auction_data s = record s {
    auctions = insert (auction_type, user) auction_data s.auctions;
  }

  unfoldable pub del_auction : ℕ → Address → Storage Chain → Storage Chain
  del_auction auction_type user s = record s { auctions = remove (auction_type, user) s.auctions }

  unfoldable pub get_backstop : Storage Chain → Outcome Address
  get_backstop s = unwrap s.backstop

  unfoldable pub get_pool_config : Storage Chain → Outcome PoolConfig
  get_pool_config s = unwrap s.pool_config

  unfoldable pub set_pool_config : PoolConfig → Storage Chain → Storage Chain
  set_pool_config config s = record s { pool_config = some config }

  unfoldable pub get_res_config : Address → Storage Chain → Outcome ReserveConfig
  get_res_config asset s = unwrap (lookup asset s.res_configs)

  unfoldable pub get_res_data : Address → Storage Chain → Outcome ReserveData
  get_res_data asset s = unwrap (lookup asset s.res_data)

  unfoldable pub set_res_data : Address → ReserveData → Storage Chain → Storage Chain
  set_res_data asset reserve_data s = record s { res_data = insert asset reserve_data s.res_data }

  unfoldable pub get_res_emis_config : ℕ → Storage Chain → Option ReserveEmissionsConfig
  get_res_emis_config res_token_index s = lookup res_token_index s.emis_configs

  unfoldable pub get_res_emis_data : ℕ → Storage Chain → Option ReserveEmissionsData
  get_res_emis_data res_token_index s = lookup res_token_index s.emis_data

  unfoldable pub set_res_emis_data : ℕ → ReserveEmissionsData → Storage Chain → Storage Chain
  set_res_emis_data res_token_index d s = record s {
    emis_data = insert res_token_index d s.emis_data;
  }

  unfoldable pub get_user_emissions : Address → ℕ → Storage Chain → Option UserEmissionData
  get_user_emissions user res_token_index s = lookup (user, res_token_index) s.user_emis

  unfoldable pub set_user_emissions : Address → ℕ → UserEmissionData → Storage Chain → Storage Chain
  set_user_emissions user res_token_index d s = record s {
    user_emis = insert (user, res_token_index) d s.user_emis;
  }

  unfoldable pub get_user_positions : Address → Storage Chain → Positions
  get_user_positions user s = elim (lookup user s.positions) [ none ↦ env_default | some p ↦ p ]

  unfoldable pub set_user_positions : Address → Positions → Storage Chain → Storage Chain
  set_user_positions user p s = record s { positions = insert user p s.positions }
