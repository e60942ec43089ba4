-- ===== src/Pool/Submit.antt =====
-- The calls that change positions: pool/src/pool/submit.rs and pool/src/pool/bad_debt.rs.
use blend_contracts.Base.{
  nth, ℕ, ◌==◌, ◌||◌, ◌&&◌, true, false, not, List, [], ◌∷◌, ltb, if◌then◌else◌, ℤ, pos, Outcome,
  ok, ◌>>=◌, ◌>>◌, panic_if, or_panic, unwrap, host, pool_error, PoolError,
}
use blend_contracts.Base.Map.{Map, nat_key}
use blend_contracts.Base.Host.{Address, Env, TokenClient, require_auth}
use blend_contracts.Pool.State.{Positions, Storage, scalar_7, get_backstop}
use blend_contracts.Pool.Cache.{Pool, load_pool, load_reserve, cache_reserve, store_cached_reserves}
use blend_contracts.Pool.Health.{calculate_from_positions, is_hf_under}
use blend_contracts.Pool.User.{
  User, load_user, store_user, is_empty, has_liabilities, add_liabilities, remove_liabilities,
}
use blend_contracts.Pool.User.Moves.{Working}
use blend_contracts.Pool.Outside.{Outside, try_transfer}
use blend_contracts.Pool.Actions.{Request, Building, build_actions_from_request}

-- The least health factor after a submit.
abbrev pub min_health : ℤ
min_health = pos 10000100

module _ {Chain : Type 0} where
  -- The loop over the transfers of one side: the giver, then the receiver.
  unfoldable pub transfer_loop :
      TokenClient Chain → Address → Address → Map Address ℤ → Chain → Chain
  transfer_loop tokens from to [] c = c
  transfer_loop tokens from to ((address, amount) ∷ rest) c =
      transfer_loop tokens from to rest (try_transfer tokens address from to amount c)

module _ {Chain : Type 0} (o : Outside Chain) (e : Env) where
  -- Up to the ledger of the deployment no health factor is checked.
  unfoldable pub require_healthy : Building Chain → Outcome Pool
  require_healthy b = do
    p ← calculate_from_positions o.math o.oracle e b.w.user.positions b.w.storage b.w.pool
    min_health_factor ← unwrap (o.math.mul_floor p.0.scalar min_health (pos scalar_7))
    under ←
        (if ltb o.deployment_seq e.sequence then is_hf_under o.math min_health p.0 else ok false)
    panic_if (b.check_health && (has_liabilities b.w.user && under))
        (pool_error PoolError.invalid_hf)
    ok p.1

  -- The user's positions, and the storage.
  unfoldable pub execute_submit :
      Address
      → Address
      → Address
      → List Request
      → Storage Chain
      → Outcome (Positions × Storage Chain)
  execute_submit from spender to requests s = do
    panic_if
        (from == e.current_contract_address
          || (spender == e.current_contract_address || to == e.current_contract_address))
        (pool_error PoolError.bad_request)
    pool ← load_pool s
    b ← build_actions_from_request o e pool from requests s
    p ← require_healthy b
    let st = b.w.storage
    let c =
        transfer_loop o.tokens spender e.current_contract_address b.actions.spender_transfer
          st.chain
    stored ← store_cached_reserves p (record st { chain = c })
    let kept = store_user b.w.user stored
    let c₁ = transfer_loop o.tokens e.current_contract_address to b.actions.pool_transfer kept.chain
    ok (b.w.user.positions, record kept { chain = c₁ })

  unfoldable pub submit :
      Address
      → Address
      → Address
      → List Request
      → Storage Chain
      → Outcome (Positions × Storage Chain)
  submit from spender to requests s = do
    require_auth e spender
    (if from == spender then ok tt else require_auth e from)
    execute_submit from spender to requests s

  -- The loop over a user's liabilities: the backstop, in `w`, takes each of them over.
  unfoldable pub bad_debt_loop : Map ℕ ℤ → Working Chain → User → Outcome (Working Chain × User)
  bad_debt_loop [] w user = ok (w, user)
  bad_debt_loop ((reserve_index, liability_balance) ∷ rest) w user = do
    asset ← or_panic host (nth reserve_index w.storage.res_list)
    r ← load_reserve o.math e asset true w.storage w.pool
    c ← add_liabilities o.math e liability_balance r.0 w.user w.storage
    d ← remove_liabilities o.math e liability_balance c.reserve user c.storage
    bad_debt_loop rest
        (record { user = c.user; pool = cache_reserve d.reserve r.1; storage = d.storage }) d.user

  unfoldable pub transfer_bad_debt_to_backstop : Address → Storage Chain → Outcome (Storage Chain)
  transfer_bad_debt_to_backstop user s = do
    backstop_address ← get_backstop s
    panic_if (user == backstop_address) (pool_error PoolError.bad_request)
    let user_state = load_user user s
    panic_if
        (not (is_empty user_state.positions.collateral)
          || is_empty user_state.positions.liabilities)
        (pool_error PoolError.bad_request)
    pool ← load_pool s
    r ←
        bad_debt_loop user_state.positions.liabilities
          (record { user = load_user backstop_address s; pool = pool; storage = s }) user_state
    stored ← store_cached_reserves r.0.pool r.0.storage
    ok (store_user r.1 (store_user r.0.user stored))
