-- ===== src/Backstop/Claim.antt =====
-- The claim of a depositor's emissions, which are deposited back as LP tokens:
-- backstop/src/emissions/claim.rs.
use blend_contracts.Base.{
  ◌/◌, Bool, true, false, List, [], ◌∷◌, if◌then◌else◌, ℤ, pos, ltb_ℤ, Outcome, ok, ◌>>=◌, ◌>>◌,
  panic_if, or_panic, unwrap, host, backstop_error, BackstopError, add_i128, add_u, mul_u,
}
use blend_contracts.Base.FixedPoint.{FixedPoint}
use blend_contracts.Base.Host.{Address, Env}
use blend_contracts.Base.Map.{Map, nat_key, lookup, insert}
use blend_contracts.Backstop.User.{add_shares}
use blend_contracts.Backstop.Pool.{convert_to_shares, deposit}
use blend_contracts.Backstop.State.{
  Storage, Dependencies, get_user_balance, set_user_balance, get_pool_balance, set_pool_balance,
}
use blend_contracts.Backstop.Emissions.{claim_emissions}

abbrev pub is_empty {ℓ} : {A : Type ℓ} → List A → Bool
is_empty [] = true
is_empty (x ∷ xs) = false

module _ {Chain : Type 0} (math : FixedPoint) (e : Env) where
  -- The first loop of `execute_claim`: the sum, the amount of each pool, and the storage.
  unfoldable pub claim_loop :
      Address
      → List Address
      → ℤ
      → Map Address ℤ
      → Storage Chain
      → Outcome (ℤ × Map Address ℤ × Storage Chain)
  claim_loop from [] claimed claims s = ok (claimed, claims, s)
  claim_loop from (pool_id ∷ pools) claimed claims s = do
    let pool_balance = get_pool_balance pool_id s
    let user_balance = get_user_balance pool_id from s
    r ← claim_emissions math e pool_id pool_balance from user_balance s
    claimed' ← add_i128 claimed r.0
    claim_loop from pools claimed' (insert pool_id r.0 claims) r.1

  -- The second loop: each pool's part of the LP tokens is deposited for `to`.
  unfoldable pub claim_deposit_loop :
      Address → List Address → ℤ → ℤ → Map Address ℤ → Storage Chain → Outcome (Storage Chain)
  claim_deposit_loop to [] lp_tokens_out claimed claims s = ok s
  claim_deposit_loop to (pool_id ∷ pools) lp_tokens_out claimed claims s = do
    claim_amount ← unwrap (lookup pool_id claims)
    deposit_amount ← unwrap (math.mul_floor lp_tokens_out claim_amount claimed)
    let pool_balance = get_pool_balance pool_id s
    let user_balance = get_user_balance pool_id to s
    to_mint ← convert_to_shares math deposit_amount pool_balance
    pool_balance' ← deposit deposit_amount to_mint pool_balance
    user_balance' ← add_shares to_mint user_balance
    claim_deposit_loop to pools lp_tokens_out claimed claims
        (set_user_balance pool_id to user_balance' (set_pool_balance pool_id pool_balance' s))

module _ {Chain : Type 0} (math : FixedPoint) (deps : Dependencies Chain) (e : Env) where
  -- the part of `execute_claim` for a positive sum
  unfoldable pub deposit_claimed :
      Address → List Address → ℤ → Map Address ℤ → Storage Chain → Outcome (Storage Chain)
  deposit_claimed to pool_addresses claimed claims s = do
    blnd_id ← unwrap s.blnd_token
    lp_id ← unwrap s.backstop_token
    period ← add_u 32 (e.sequence / 100000) 1
    approval_ledger ← mul_u 32 period 100000
    r ← or_panic host (
        deps.dep_tokn_amt_in_get_lp_tokns_out s.chain lp_id blnd_id claimed (pos 0)
          e.current_contract_address)
    claim_deposit_loop math e to pool_addresses r.0 claimed claims (record s { chain = r.1 })

  unfoldable pub execute_claim :
      Address → List Address → Address → Storage Chain → Outcome (ℤ × Storage Chain)
  execute_claim from pool_addresses to s = do
    panic_if (is_empty pool_addresses) (backstop_error BackstopError.bad_request)
    r ← claim_loop math e from pool_addresses (pos 0) [] s
    if ltb_ℤ (pos 0) r.0
        then (do s' ← deposit_claimed to pool_addresses r.0 r.1 r.2; ok (r.0, s'))
        else ok (r.0, r.2)
