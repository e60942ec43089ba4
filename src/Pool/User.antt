-- ===== src/Pool/User.antt =====
-- The positions of a user: pool/src/pool/user.rs.
use blend_contracts.Base.{
  ℕ, Bool, true, false, not, Option, none, some, List, [], ◌∷◌, if◌then◌else◌, ℤ, pos, eqb_ℤ,
  Outcome, ok, panic, ◌>>=◌, ◌>>◌, panic_if, pool_error, PoolError, add_i128, sub_i128, add_u,
  mul_u,
}
use blend_contracts.Base.Map.{Map, nat_key, lookup, insert, remove, get_or}
use blend_contracts.Base.FixedPoint.{FixedPoint}
use blend_contracts.Base.Host.{Address, Env}
use blend_contracts.Pool.State.{
  Positions, Storage, get_user_positions, set_user_positions, require_nonnegative,
}
use blend_contracts.Pool.Reserve.{Reserve}
use blend_contracts.Pool.Emissions.{update_emissions}
use blend_contracts.Pool.Cache.{Pool, load_reserve, cache_reserve}
pub mod Balance
pub mod Ledger
pub mod Moves

pub record User : Type 0 where
  pub address : Address
  pub positions : Positions

-- `User::load` and `store`.
unfoldable pub load_user : {Chain : Type 0} → Address → Storage Chain → User
load_user address s = record { address = address; positions = get_user_positions address s }

unfoldable pub store_user : {Chain : Type 0} → User → Storage Chain → Storage Chain
store_user user s = set_user_positions user.address user.positions s

abbrev pub is_empty {ℓ} : {A : Type ℓ} → List A → Bool
is_empty [] = true
is_empty (a ∷ list) = false

unfoldable pub has_liabilities : User → Bool
has_liabilities user = not (is_empty user.positions.liabilities)

unfoldable pub get_liabilities : ℕ → User → ℤ
get_liabilities reserve_index user = get_or reserve_index (pos 0) user.positions.liabilities

unfoldable pub get_collateral : ℕ → User → ℤ
get_collateral reserve_index user = get_or reserve_index (pos 0) user.positions.collateral

unfoldable pub get_supply : ℕ → User → ℤ
get_supply reserve_index user = get_or reserve_index (pos 0) user.positions.supply

unfoldable pub get_total_supply : ℕ → User → Outcome ℤ
get_total_supply reserve_index user =
    add_i128 (get_collateral reserve_index user) (get_supply reserve_index user)

-- A balance that becomes 0 is taken off the map.
unfoldable pub set_balance : ℕ → ℤ → Map ℕ ℤ → Map ℕ ℤ
set_balance reserve_index new_balance m =
    if eqb_ℤ new_balance (pos 0) then remove reserve_index m else insert reserve_index new_balance m

module _ {Chain : Type 0} (math : FixedPoint) (e : Env) where
  unfoldable pub update_d_emissions :
      Reserve → ℤ → User → Storage Chain → Outcome (ℤ × Storage Chain)
  update_d_emissions reserve amount user s = do
    id ← mul_u 32 reserve.index 2
    update_emissions math e id reserve.d_supply reserve.scalar user.address amount s

  unfoldable pub update_b_emissions :
      Reserve → ℤ → User → Storage Chain → Outcome (ℤ × Storage Chain)
  update_b_emissions reserve amount user s = do
    twice ← mul_u 32 reserve.index 2
    id ← add_u 32 twice 1
    update_emissions math e id reserve.b_supply reserve.scalar user.address amount s

-- What a change of a position gives: the user, the reserve, the storage and the updated emissions.
pub record Changed (Chain : Type 0) : Type 0 where
  pub user : User
  pub reserve : Reserve
  pub storage : Storage Chain
  pub emissions : ℤ

module _ {Chain : Type 0} (math : FixedPoint) (e : Env) where
  unfoldable pub add_liabilities : ℤ → Reserve → User → Storage Chain → Outcome (Changed Chain)
  add_liabilities amount reserve user s = do
    panic_if (eqb_ℤ amount (pos 0)) (pool_error PoolError.invalid_d_token_mint_amount)
    let balance = get_liabilities reserve.index user
    r ← update_d_emissions math e reserve balance user s
    new_balance ← add_i128 balance amount
    d_supply ← add_i128 reserve.d_supply amount
    let p = user.positions
    ok (record {
      user = record user {
        positions = record p { liabilities = insert reserve.index new_balance p.liabilities };
      };
      reserve = record reserve { d_supply = d_supply };
      storage = r.1;
      emissions = r.0;
    })

  unfoldable pub remove_liabilities : ℤ → Reserve → User → Storage Chain → Outcome (Changed Chain)
  remove_liabilities amount reserve user s = do
    panic_if (eqb_ℤ amount (pos 0)) (pool_error PoolError.invalid_d_token_burn_amount)
    let balance = get_liabilities reserve.index user
    r ← update_d_emissions math e reserve balance user s
    new_balance ← sub_i128 balance amount
    require_nonnegative new_balance
    d_supply ← sub_i128 reserve.d_supply amount
    let p = user.positions
    ok (record {
      user = record user {
        positions = record p { liabilities = set_balance reserve.index new_balance p.liabilities };
      };
      reserve = record reserve { d_supply = d_supply };
      storage = r.1;
      emissions = r.0;
    })

  unfoldable pub add_collateral : ℤ → Reserve → User → Storage Chain → Outcome (Changed Chain)
  add_collateral amount reserve user s = do
    panic_if (eqb_ℤ amount (pos 0)) (pool_error PoolError.invalid_b_token_mint_amount)
    let balance = get_collateral reserve.index user
    held ← get_total_supply reserve.index user
    r ← update_b_emissions math e reserve held user s
    new_balance ← add_i128 balance amount
    b_supply ← add_i128 reserve.b_supply amount
    let p = user.positions
    ok (record {
      user = record user {
        positions = record p { collateral = insert reserve.index new_balance p.collateral };
      };
      reserve = record reserve { b_supply = b_supply };
      storage = r.1;
      emissions = r.0;
    })

  unfoldable pub remove_collateral : ℤ → Reserve → User → Storage Chain → Outcome (Changed Chain)
  remove_collateral amount reserve user s = do
    panic_if (eqb_ℤ amount (pos 0)) (pool_error PoolError.invalid_b_token_burn_amount)
    let balance = get_collateral reserve.index user
    held ← get_total_supply reserve.index user
    r ← update_b_emissions math e reserve held user s
    new_balance ← sub_i128 balance amount
    require_nonnegative new_balance
    b_supply ← sub_i128 reserve.b_supply amount
    let p = user.positions
    ok (record {
      user = record user {
        positions = record p { collateral = set_balance reserve.index new_balance p.collateral };
      };
      reserve = record reserve { b_supply = b_supply };
      storage = r.1;
      emissions = r.0;
    })

  unfoldable pub add_supply : ℤ → Reserve → User → Storage Chain → Outcome (Changed Chain)
  add_supply amount reserve user s = do
    panic_if (eqb_ℤ amount (pos 0)) (pool_error PoolError.invalid_b_token_mint_amount)
    let balance = get_supply reserve.index user
    held ← get_total_supply reserve.index user
    r ← update_b_emissions math e reserve held user s
    new_balance ← add_i128 balance amount
    b_supply ← add_i128 reserve.b_supply amount
    let p = user.positions
    ok (record {
      user = record user {
        positions = record p { supply = insert reserve.index new_balance p.supply };
      };
      reserve = record reserve { b_supply = b_supply };
      storage = r.1;
      emissions = r.0;
    })

  unfoldable pub remove_supply : ℤ → Reserve → User → Storage Chain → Outcome (Changed Chain)
  remove_supply amount reserve user s = do
    panic_if (eqb_ℤ amount (pos 0)) (pool_error PoolError.invalid_b_token_burn_amount)
    let balance = get_supply reserve.index user
    held ← get_total_supply reserve.index user
    r ← update_b_emissions math e reserve held user s
    new_balance ← sub_i128 balance amount
    require_nonnegative new_balance
    b_supply ← sub_i128 reserve.b_supply amount
    let p = user.positions
    ok (record {
      user = record user {
        positions = record p { supply = set_balance reserve.index new_balance p.supply };
      };
      reserve = record reserve { b_supply = b_supply };
      storage = r.1;
      emissions = r.0;
    })
