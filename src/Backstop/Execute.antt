-- ===== src/Backstop/Execute.antt =====
-- The calls that move backstop tokens: deposit.rs, withdrawal.rs and fund_management.rs of
-- backstop/src/backstop. A call that panics changes nothing, so each returns its result and the new
-- storage, or the panic.
use blend_contracts.Base.{
  true, false, not, ◌||◌, Option, none, some, List, [], ◌∷◌, ◌==◌, if◌then◌else◌, ℤ, pos, eqb_ℤ,
  Outcome, ok, ◌>>=◌, ◌>>◌, panic_if, or_panic, unwrap, host, backstop_error, BackstopError,
}
use blend_contracts.Base.FixedPoint.{FixedPoint}
use blend_contracts.Base.Host.{Address, Env, TokenClient}
use blend_contracts.Backstop.User.{
  Q4W, add_shares, queue_shares_for_withdrawal, dequeue_shares_for_withdrawal,
}
use blend_contracts.Backstop.Pool.{
  convert_to_shares, convert_to_tokens, deposit, withdraw, queue_for_withdraw, dequeue_q4w,
  scalar_7,
}
use blend_contracts.Backstop.State.{
  Storage, Dependencies, get_user_balance, set_user_balance, get_pool_balance, set_pool_balance,
  set_lp_token_val, require_nonnegative,
}
use blend_contracts.Backstop.Emissions.{update_emissions}

unfoldable pub last {ℓ} : {A : Type ℓ} → List A → Option A
last [] = none
last (x ∷ []) = some x
last (x ∷ y ∷ ys) = last (y ∷ ys)

module _ {Chain : Type 0} (deps : Dependencies Chain) where
  -- A pool with a balance was verified before.
  unfoldable pub require_is_from_pool_factory : Address → ℤ → Storage Chain → Outcome (Unit {0})
  require_is_from_pool_factory address balance s =
      if eqb_ℤ balance (pos 0)
      then (do
        factory ← unwrap s.pool_factory
        panic_if (not (deps.is_pool s.chain factory address))
            (backstop_error BackstopError.not_pool))
      else ok tt

module _ {Chain : Type 0} (tokens : TokenClient Chain) where
  -- A transfer of backstop tokens.
  unfoldable pub transfer_backstop_token :
      Address → Address → ℤ → Storage Chain → Outcome (Storage Chain)
  transfer_backstop_token from to amount s = do
    token ← unwrap s.backstop_token
    chain ← or_panic host (tokens.transfer s.chain token from to amount)
    ok (record s { chain = chain })

module _ {Chain : Type 0} (math : FixedPoint) (tokens : TokenClient Chain)
    (deps : Dependencies Chain) (e : Env) where
  unfoldable pub execute_deposit :
      Address → Address → ℤ → Storage Chain → Outcome (ℤ × Storage Chain)
  execute_deposit from pool_address amount s = do
    require_nonnegative amount
    panic_if (from == pool_address || from == e.current_contract_address)
        (backstop_error BackstopError.bad_request)
    let pool_balance = get_pool_balance pool_address s
    require_is_from_pool_factory deps pool_address pool_balance.shares s
    let user_balance = get_user_balance pool_address from s
    s₁ ← update_emissions math e pool_address pool_balance from user_balance s
    s₂ ← transfer_backstop_token tokens from e.current_contract_address amount s₁
    to_mint ← convert_to_shares math amount pool_balance
    panic_if (eqb_ℤ to_mint (pos 0)) (backstop_error BackstopError.invalid_share_mint_amount)
    pool_balance' ← deposit amount to_mint pool_balance
    user_balance' ← add_shares to_mint user_balance
    ok (
      to_mint,
      set_user_balance pool_address from user_balance'
          (set_pool_balance pool_address pool_balance' s₂),
    )

  unfoldable pub execute_queue_withdrawal :
      Address → Address → ℤ → Storage Chain → Outcome (Q4W × Storage Chain)
  execute_queue_withdrawal from pool_address amount s = do
    require_nonnegative amount
    let pool_balance = get_pool_balance pool_address s
    let user_balance = get_user_balance pool_address from s
    s₁ ← update_emissions math e pool_address pool_balance from user_balance s
    user_balance' ← queue_shares_for_withdrawal e amount user_balance
    pool_balance' ← queue_for_withdraw amount pool_balance
    entry ← unwrap (last user_balance'.q4w)
    ok (
      entry,
      set_pool_balance pool_address pool_balance'
          (set_user_balance pool_address from user_balance' s₁),
    )

  unfoldable pub execute_dequeue_withdrawal :
      Address → Address → ℤ → Storage Chain → Outcome (Storage Chain)
  execute_dequeue_withdrawal from pool_address amount s = do
    require_nonnegative amount
    let pool_balance = get_pool_balance pool_address s
    let user_balance = get_user_balance pool_address from s
    s₁ ← update_emissions math e pool_address pool_balance from user_balance s
    dequeued ← dequeue_shares_for_withdrawal e amount false user_balance
    user_balance' ← add_shares amount dequeued
    pool_balance' ← dequeue_q4w amount pool_balance
    ok (
        set_pool_balance pool_address pool_balance'
          (set_user_balance pool_address from user_balance' s₁))

  unfoldable pub execute_withdraw :
      Address → Address → ℤ → Storage Chain → Outcome (ℤ × Storage Chain)
  execute_withdraw from pool_address amount s = do
    require_nonnegative amount
    let pool_balance = get_pool_balance pool_address s
    let user_balance = get_user_balance pool_address from s
    user_balance' ← dequeue_shares_for_withdrawal e amount true user_balance
    to_return ← convert_to_tokens math amount pool_balance
    panic_if (eqb_ℤ to_return (pos 0)) (backstop_error BackstopError.invalid_token_withdraw_amount)
    pool_balance' ← withdraw to_return amount pool_balance
    let s₁ =
        set_pool_balance pool_address pool_balance'
          (set_user_balance pool_address from user_balance' s)
    s₂ ← transfer_backstop_token tokens e.current_contract_address from to_return s₁
    ok (to_return, s₂)

  unfoldable pub execute_draw : Address → ℤ → Address → Storage Chain → Outcome (Storage Chain)
  execute_draw pool_address amount to s = do
    require_nonnegative amount
    pool_balance' ← withdraw amount (pos 0) (get_pool_balance pool_address s)
    transfer_backstop_token tokens e.current_contract_address to amount
        (set_pool_balance pool_address pool_balance' s)

  unfoldable pub execute_donate : Address → Address → ℤ → Storage Chain → Outcome (Storage Chain)
  execute_donate from pool_address amount s = do
    require_nonnegative amount
    panic_if (from == pool_address || from == e.current_contract_address)
        (backstop_error BackstopError.bad_request)
    let pool_balance = get_pool_balance pool_address s
    require_is_from_pool_factory deps pool_address pool_balance.shares s
    s₁ ← transfer_backstop_token tokens from e.current_contract_address amount s
    pool_balance' ← deposit amount (pos 0) pool_balance
    ok (set_pool_balance pool_address pool_balance' s₁)

  unfoldable pub execute_update_comet_token_value :
      Address → Address → Address → Storage Chain → Outcome ((ℤ × ℤ) × Storage Chain)
  execute_update_comet_token_value backstop_token blnd_token usdc_token s = do
    let total_comet_shares = deps.get_total_supply s.chain backstop_token
    let total_blnd = tokens.balance s.chain blnd_token backstop_token
    let total_usdc = tokens.balance s.chain usdc_token backstop_token
    blnd_per_tkn ← unwrap (math.div_floor total_blnd total_comet_shares (pos scalar_7))
    usdc_per_tkn ← unwrap (math.div_floor total_usdc total_comet_shares (pos scalar_7))
    ok ((blnd_per_tkn, usdc_per_tkn), set_lp_token_val (blnd_per_tkn, usdc_per_tkn) s)
