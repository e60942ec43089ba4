-- ===== src/Backstop/Zone.antt =====
-- The reward zone and the emissions that its pools are given: backstop/src/emissions/manager.rs.
pub mod Places
use blend_contracts.Base.{
  ℕ, ◌+◌, ◌-◌, ◌*◌, ◌/◌, ◌==◌, ◌||◌, Bool, true, false, not, Option, none, some, List, [], ◌∷◌,
  length, ltb, leb, if◌then◌else◌, ℤ, pos, leb_ℤ, eqb_ℤ, div_ℤ, Outcome, ok, panic, ◌>>=◌, ◌>>◌,
  panic_if, or_panic, unwrap, host, backstop_error, BackstopError, add_i128, mul_i128, add_u, sub_u,
  mul_u, to_u64,
}
use blend_contracts.Base.Map.{nat_key}
use blend_contracts.Base.FixedPoint.{FixedPoint}
use blend_contracts.Base.Host.{Address, Env}
use blend_contracts.Backstop.Pool.{
  PoolBalance, scalar_7, non_queued_tokens, load_pool_backstop_data, require_pool_above_threshold,
}
use blend_contracts.Backstop.State.{
  Storage, BackstopEmissionConfig, get_pool_balance, get_backstop_emis_config,
  set_backstop_emis_config, set_backstop_emis_data, set_reward_zone, set_last_distribution_time,
  get_pool_emissions, set_pool_emissions,
}
use blend_contracts.Backstop.Emissions.{update_emission_data_with_config}

-- The emitter's last distribution to a backstop, and the allowances of a token: the token, the owner
-- and the spender, then for an approval the amount and the last ledger.
pub record Payments (Chain : Type 0) : Type 0 where
  pub get_last_distro : Chain → Address → Address → Option ℕ
  pub allowance : Chain → Address → Address → Address → Option ℤ
  pub approve : Chain → Address → Address → Address → ℤ → ℕ → Option Chain

abbrev pub backstop_epoch : ℕ
backstop_epoch = 1713139200

-- 120 days of ledgers.
abbrev pub ledger_bump_user : ℕ
ledger_bump_user = 17280 * 100 + 20 * 17280

-- A week in seconds.
abbrev pub emission_cycle : ℕ
emission_cycle = 7 * 24 * 60 * 60

-- `reward_zone.contains`.
unfoldable pub has_pool : Address → List Address → Bool
has_pool pool [] = false
has_pool pool (a ∷ zone) = (a == pool) || has_pool pool zone

unfoldable pub first_index_of : Address → List Address → Option ℕ
first_index_of pool [] = none
first_index_of pool (a ∷ zone) =
    let rest = first_index_of pool zone in
    if a == pool then some 0 else elim rest [ none ↦ none | some i ↦ some (i + 1) ]

-- `reward_zone.set` at an index.
unfoldable pub set_at : ℕ → Address → List Address → List Address
set_at i pool [] = []
set_at i pool (a ∷ zone) = if i == 0 then pool ∷ zone else a ∷ set_at (i - 1) pool zone

-- The shift by 23 bits divides by 2^23 seconds, about 97 days.
unfoldable pub max_rz_len : Env → ℕ
max_rz_len e =
    if ltb e.timestamp backstop_epoch then 10 else 10 + (e.timestamp - backstop_epoch) / 8388608

module _ {Chain : Type 0} (math : FixedPoint) (e : Env) where
  -- The pool to remove gives its place to one with more tokens, shortly after a distribution.
  unfoldable pub swap_pool : Address → Address → ℤ → Storage Chain → Outcome (List Address)
  swap_pool to_add to_remove tokens s = do
    idx ←
        or_panic (backstop_error BackstopError.invalid_reward_zone_entry)
          (first_index_of to_remove s.reward_zone)
    day_ago ← sub_u e.timestamp 86400
    panic_if (ltb s.last_distribution_time day_ago) (backstop_error BackstopError.bad_request)
    panic_if (leb_ℤ tokens (get_pool_balance to_remove s).tokens)
        (backstop_error BackstopError.invalid_reward_zone_entry)
    ok (set_at idx to_add s.reward_zone)

  unfoldable pub add_to_reward_zone : Address → Address → Storage Chain → Outcome (Storage Chain)
  add_to_reward_zone to_add to_remove s = do
    panic_if (has_pool to_add s.reward_zone) (backstop_error BackstopError.bad_request)
    lp_token_val ← unwrap s.lp_token_val
    pool_data ← load_pool_backstop_data math (get_pool_balance to_add s) lp_token_val
    panic_if (not (require_pool_above_threshold pool_data))
        (backstop_error BackstopError.invalid_reward_zone_entry)
    zone ←
        (if ltb (length s.reward_zone) (max_rz_len e)
          then ok (to_add ∷ s.reward_zone)
          else swap_pool to_add to_remove pool_data.tokens s)
    ok (set_reward_zone zone s)

  -- The part of `set_backstop_emission_config` where the pool has a configuration: the tokens to emit
  -- and the storage, its index brought up to now.
  unfoldable pub refresh_emissions :
      Address
      → PoolBalance
      → BackstopEmissionConfig
      → ℤ
      → Storage Chain
      → Outcome (ℤ × Storage Chain)
  refresh_emissions pool_id pool_balance emis_config new_tokens s = do
    r ← update_emission_data_with_config math e pool_id pool_balance emis_config s
    let emission_data = r.0
    let s₁ =
        (if emission_data.last_time == e.timestamp
          then r.1
          else set_backstop_emis_data pool_id (record emission_data { last_time = e.timestamp })
              r.1)
    if ltb e.timestamp emis_config.expiration
        then (do
          time ← sub_u emis_config.expiration e.timestamp
          unspent ← mul_u 64 emis_config.eps time
          tokens ← add_i128 new_tokens (pos unspent)
          ok (tokens, s₁))
        else ok (new_tokens, s₁)

  -- The match on the old configuration.
  unfoldable pub carry_over :
      Address → PoolBalance → ℤ → Storage Chain → Outcome (ℤ × Storage Chain)
  carry_over pool_id pool_balance new_tokens s = elim (get_backstop_emis_config pool_id s) [
    | some emis_config ↦ refresh_emissions pool_id pool_balance emis_config new_tokens s
    | none ↦ ok (
      new_tokens,
      set_backstop_emis_data pool_id (record { index = pos 0; last_time = e.timestamp }) s,
    )
  ]

  unfoldable pub set_backstop_emission_config :
      Address → PoolBalance → ℤ → Storage Chain → Outcome (Storage Chain)
  set_backstop_emission_config pool_id pool_balance new_tokens s = do
    r ← carry_over pool_id pool_balance new_tokens s
    expiration ← add_u 64 e.timestamp emission_cycle
    eps ← to_u64 (div_ℤ r.0 emission_cycle)
    ok (set_backstop_emis_config pool_id (record { expiration = expiration; eps = eps }) r.1)

  -- The first loop: the balances of the pools, and their tokens that are not queued.
  unfoldable pub balance_loop :
      List Address → Storage Chain → ℤ → Outcome (List (Address × PoolBalance) × ℤ)
  balance_loop [] s sum = ok ([], sum)
  balance_loop (rz_pool ∷ zone) s sum = do
    let pool_balance = get_pool_balance rz_pool s
    tokens ← non_queued_tokens math pool_balance
    total_non_queued_tokens ← add_i128 sum tokens
    rest ← balance_loop zone s total_non_queued_tokens
    ok ((rz_pool, pool_balance) ∷ rest.0, rest.1)

  -- The second loop: each pool's share of the emissions of pools and of those of depositors.
  unfoldable pub share_loop :
      ℤ → ℤ → ℤ → List (Address × PoolBalance) → Storage Chain → Outcome (Storage Chain)
  share_loop total_tokens pool_emissions backstop_emissions [] s = ok s
  share_loop total_tokens pool_emissions backstop_emissions ((rz_pool, balance) ∷ rest) s = do
    tokens ← non_queued_tokens math balance
    share ← unwrap (math.div_floor tokens total_tokens (pos scalar_7))
    new_pool_emissions ← unwrap (math.mul_floor share pool_emissions (pos scalar_7))
    emissions ← add_i128 (get_pool_emissions rz_pool s) new_pool_emissions
    new_backstop_tokens ← unwrap (math.mul_floor share backstop_emissions (pos scalar_7))
    s₁ ←
        set_backstop_emission_config rz_pool balance new_backstop_tokens
          (set_pool_emissions rz_pool emissions s)
    share_loop total_tokens pool_emissions backstop_emissions rest s₁

  -- The emitter releases one token for each second.
  unfoldable pub gulp_emissions : Payments Chain → Storage Chain → Outcome (ℤ × Storage Chain)
  gulp_emissions payments s = do
    panic_if (length s.reward_zone == 0) (backstop_error BackstopError.bad_request)
    emitter ← unwrap s.emitter
    last ← or_panic host (payments.get_last_distro s.chain emitter e.current_contract_address)
    hour_later ← add_u 64 s.last_distribution_time 3600
    panic_if (leb last hour_later) (backstop_error BackstopError.bad_request)
    seconds ← sub_u last s.last_distribution_time
    new_emissions ← mul_i128 (pos seconds) (pos scalar_7)
    total_backstop ← unwrap (math.mul_floor new_emissions (pos 7000000) (pos scalar_7))
    total_pool ← unwrap (math.mul_floor new_emissions (pos 3000000) (pos scalar_7))
    found ← balance_loop s.reward_zone s (pos 0)
    s₁ ← share_loop found.1 total_pool total_backstop found.0 (set_last_distribution_time last s)
    ok (new_emissions, s₁)

  -- The pool may take what it was given, on top of what it may take already.
  unfoldable pub gulp_pool_emissions :
      Payments Chain → Address → Storage Chain → Outcome (ℤ × Storage Chain)
  gulp_pool_emissions payments pool_id s = do
    let pool_emissions = get_pool_emissions pool_id s
    panic_if (eqb_ℤ pool_emissions (pos 0)) (backstop_error BackstopError.bad_request)
    blnd_token ← unwrap s.blnd_token
    allowance ←
        or_panic host (payments.allowance s.chain blnd_token e.current_contract_address pool_id)
    new_tokens ← add_i128 allowance pool_emissions
    new_seq ← add_u 32 e.sequence ledger_bump_user
    c ←
        or_panic host (
          payments.approve s.chain blnd_token e.current_contract_address pool_id new_tokens new_seq)
    ok (pool_emissions, set_pool_emissions pool_id (pos 0) (record s { chain = c }))
