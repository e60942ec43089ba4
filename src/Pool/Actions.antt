-- ===== src/Pool/Actions.antt =====
-- The requests of a user: pool/src/pool/actions.rs. Events are left out.
use blend_contracts.Base.{
  ℕ, ◌%◌, ◌^◌, ◌-◌, ◌==◌, Bool, true, false, List, [], ◌∷◌, if◌then◌else◌, ℤ, pos, negsuc, ltb_ℤ,
  Outcome, ok, panic, ◌>>=◌, ◌>>◌, pool_error, PoolError, add_i128, sub_i128,
}
use blend_contracts.Base.Map.{Map, nat_key, insert, get_or}
use blend_contracts.Base.Host.{Address, Env}
use blend_contracts.Pool.State.{Storage, require_nonnegative}
use blend_contracts.Pool.Reserve.{
  Reserve, to_b_token_down, to_b_token_up, to_d_token_up, to_d_token_down, to_asset_from_b_token,
  to_asset_from_d_token, require_utilization_below_max,
}
use blend_contracts.Pool.Cache.{
  Pool, load_reserve, cache_reserve, effective_count, require_action_allowed, require_under_max,
}
use blend_contracts.Pool.User.{
  Changed, load_user, get_supply, get_collateral, get_liabilities, add_supply, remove_supply,
  add_collateral, remove_collateral, add_liabilities, remove_liabilities,
}
use blend_contracts.Pool.User.Moves.{Working}
use blend_contracts.Pool.Outside.{Outside}
use blend_contracts.Pool.Report.{ActionType, collateral_action_info, borrow_action_info}
use blend_contracts.Pool.Auction.{fill, delete_liquidation}

pub record Request : Type 0 where
  pub request_type : ℕ
  pub address : Address
  pub amount : ℤ

pub data RequestType : Type 0 where
  supply withdraw supply_collateral withdraw_collateral borrow repay : RequestType
  fill_user_liquidation_auction fill_bad_debt_auction fill_interest_auction : RequestType
  delete_liquidation_auction : RequestType

-- `RequestType::from_u32`.
unfoldable pub from_u32 : ℕ → Outcome RequestType
from_u32 value =
    if value == 0
    then ok supply
    else (if value == 1
        then ok withdraw
        else (if value == 2
            then ok supply_collateral
            else (if value == 3
                then ok withdraw_collateral
                else (if value == 4
                    then ok borrow
                    else (if value == 5
                        then ok repay
                        else (if value == 6
                            then ok fill_user_liquidation_auction
                            else (if value == 7
                                then ok fill_bad_debt_auction
                                else (if value == 8
                                    then ok fill_interest_auction
                                    else (if value == 9
                                        then ok delete_liquidation_auction
                                        else panic (pool_error PoolError.bad_request))))))))))

-- `amount as u64` of an i128, which keeps the low 64 bits.
unfoldable pub as_u64 : ℤ → ℕ
as_u64 (pos n) = n % 2 ^ 64
as_u64 (negsuc n) = 2 ^ 64 - 1 - n % 2 ^ 64

pub record Actions : Type 0 where
  pub spender_transfer : Map Address ℤ
  pub pool_transfer : Map Address ℤ

unfoldable pub add_for_spender_transfer : Address → ℤ → Actions → Outcome Actions
add_for_spender_transfer asset amount a = do
  total ← add_i128 amount (get_or asset (pos 0) a.spender_transfer)
  ok (record a { spender_transfer = insert asset total a.spender_transfer })

unfoldable pub add_for_pool_transfer : Address → ℤ → Actions → Outcome Actions
add_for_pool_transfer asset amount a = do
  total ← add_i128 amount (get_or asset (pos 0) a.pool_transfer)
  ok (record a { pool_transfer = insert asset total a.pool_transfer })

-- What the loop over the requests carries: `w` holds the user, the pool and the storage.
pub record Building (Chain : Type 0) : Type 0 where
  pub w : Working Chain
  pub actions : Actions
  pub check_health : Bool

module _ {Chain : Type 0} (o : Outside Chain) (e : Env) where
  -- What is burned and what is paid out for an amount, where the user holds `cur_b_tokens`.
  unfoldable pub burn_for : Reserve → ℤ → ℤ → Outcome (ℤ × ℤ)
  burn_for reserve amount cur_b_tokens = do
    to_burn ← to_b_token_up o.math reserve amount
    if ltb_ℤ cur_b_tokens to_burn
        then (do
          tokens_out ← to_asset_from_b_token o.math reserve cur_b_tokens
          ok (cur_b_tokens, tokens_out))
        else ok (to_burn, amount)

  -- The user, the pool with the changed reserve, and the storage.
  unfoldable pub after : Changed Chain → Pool → Working Chain
  after c pool = record { user = c.user; pool = cache_reserve c.reserve pool; storage = c.storage }

  unfoldable pub build_supply : Request → Building Chain → Outcome (Building Chain)
  build_supply request b = do
    r ← load_reserve o.math e request.address true b.w.storage b.w.pool
    b_tokens_minted ← to_b_token_down o.math r.0 request.amount
    c ← add_supply o.math e b_tokens_minted r.0 b.w.user b.w.storage
    actions ← add_for_spender_transfer c.reserve.asset request.amount b.actions
    ok (record b { w = after c r.1; actions = actions })

  unfoldable pub build_withdraw : Request → Building Chain → Outcome (Building Chain)
  build_withdraw request b = do
    r ← load_reserve o.math e request.address true b.w.storage b.w.pool
    out ← burn_for r.0 request.amount (get_supply r.0.index b.w.user)
    c ← remove_supply o.math e out.0 r.0 b.w.user b.w.storage
    actions ← add_for_pool_transfer c.reserve.asset out.1 b.actions
    ok (record b { w = after c r.1; actions = actions })

  unfoldable pub build_supply_collateral : Request → Building Chain → Outcome (Building Chain)
  build_supply_collateral request b = do
    r ← load_reserve o.math e request.address true b.w.storage b.w.pool
    b_tokens_minted ← to_b_token_down o.math r.0 request.amount
    c ← add_collateral o.math e b_tokens_minted r.0 b.w.user b.w.storage
    actions ← add_for_spender_transfer c.reserve.asset request.amount b.actions
    info ←
        collateral_action_info o e ActionType.supply request.address request.amount b_tokens_minted
          c.emissions c.user c.reserve c.storage
    ok (record b { w = after c r.1; actions = actions })

  unfoldable pub build_withdraw_collateral : Request → Building Chain → Outcome (Building Chain)
  build_withdraw_collateral request b = do
    r ← load_reserve o.math e request.address true b.w.storage b.w.pool
    out ← burn_for r.0 request.amount (get_collateral r.0.index b.w.user)
    c ← remove_collateral o.math e out.0 r.0 b.w.user b.w.storage
    actions ← add_for_pool_transfer c.reserve.asset out.1 b.actions
    info ←
        collateral_action_info o e ActionType.withdraw request.address out.1 out.0 c.emissions
          c.user c.reserve c.storage
    ok (record { w = after c r.1; actions = actions; check_health = true })

  unfoldable pub build_borrow : Request → Building Chain → Outcome (Building Chain)
  build_borrow request b = do
    r ← load_reserve o.math e request.address true b.w.storage b.w.pool
    d_tokens_minted ← to_d_token_up o.math r.0 request.amount
    c ← add_liabilities o.math e d_tokens_minted r.0 b.w.user b.w.storage
    require_utilization_below_max o.math c.reserve
    actions ← add_for_pool_transfer c.reserve.asset request.amount b.actions
    info ←
        borrow_action_info o e ActionType.borrow request.address request.amount d_tokens_minted
          c.emissions c.user c.reserve c.storage
    ok (record { w = after c r.1; actions = actions; check_health = true })

  -- What of a repayment is sent back, where the user owes `cur_d_tokens`: the burned d tokens and the
  -- actions.
  unfoldable pub refund : Request → Reserve → ℤ → ℤ → Actions → Outcome (ℤ × Actions)
  refund request reserve d_tokens_burnt cur_d_tokens actions =
      if ltb_ℤ cur_d_tokens d_tokens_burnt
      then (do
        owed ← to_asset_from_d_token o.math reserve cur_d_tokens
        amount_to_refund ← sub_i128 request.amount owed
        require_nonnegative amount_to_refund
        refunded ← add_for_pool_transfer reserve.asset amount_to_refund actions
        ok (cur_d_tokens, refunded))
      else ok (d_tokens_burnt, actions)

  -- The code removes the liabilities before it notes the refund; neither depends on the other.
  unfoldable pub build_repay : Request → Building Chain → Outcome (Building Chain)
  build_repay request b = do
    r ← load_reserve o.math e request.address true b.w.storage b.w.pool
    d_tokens_burnt ← to_d_token_down o.math r.0 request.amount
    spent ← add_for_spender_transfer r.0.asset request.amount b.actions
    burned ← refund request r.0 d_tokens_burnt (get_liabilities r.0.index b.w.user) spent
    c ← remove_liabilities o.math e burned.0 r.0 b.w.user b.w.storage
    info ←
        borrow_action_info o e ActionType.repay request.address request.amount burned.0 c.emissions
          c.user c.reserve c.storage
    ok (record b { w = after c r.1; actions = burned.1 })

  unfoldable pub build_fill : ℕ → Bool → Request → Building Chain → Outcome (Building Chain)
  build_fill auction_type checks request b = do
    w ← fill o e auction_type request.address (as_u64 request.amount) b.w
    ok (record b { w = w; check_health = if checks then true else b.check_health })

  unfoldable pub build_delete : Building Chain → Outcome (Building Chain)
  build_delete b = do
    s ← delete_liquidation b.w.user.address b.w.storage
    let w = b.w
    ok (record b { w = record w { storage = s }; check_health = true })

  unfoldable pub build : RequestType → Request → Building Chain → Outcome (Building Chain)
  build supply request b = build_supply request b
  build withdraw request b = build_withdraw request b
  build supply_collateral request b = build_supply_collateral request b
  build withdraw_collateral request b = build_withdraw_collateral request b
  build borrow request b = build_borrow request b
  build repay request b = build_repay request b
  build fill_user_liquidation_auction request b = build_fill 0 true request b
  build fill_bad_debt_auction request b = build_fill 1 true request b
  build fill_interest_auction request b = build_fill 2 false request b
  build delete_liquidation_auction request b = build_delete b

  -- One pass of the loop.
  unfoldable pub build_request : Request → Building Chain → Outcome (Building Chain)
  build_request request b = do
    require_nonnegative request.amount
    require_action_allowed request.request_type b.w.pool
    request_type ← from_u32 request.request_type
    build request_type request b

  unfoldable pub build_loop : List Request → Building Chain → Outcome (Building Chain)
  build_loop [] b = ok b
  build_loop (request ∷ requests) b = do b₁ ← build_request request b; build_loop requests b₁

  unfoldable pub build_actions_from_request :
      Pool → Address → List Request → Storage Chain → Outcome (Building Chain)
  build_actions_from_request pool from requests s = do
    let from_state = load_user from s
    prev_positions_count ← effective_count from_state.positions
    b ← build_loop requests (record {
      w = record { user = from_state; pool = pool; storage = s };
      actions = record { spender_transfer = []; pool_transfer = [] };
      check_health = false;
    })
    require_under_max b.w.user.positions prev_positions_count b.w.pool
    ok b
