-- ===== src/Backstop/Pool.antt =====
-- The balance of a pool's backstop, its exchange rate and its health: backstop/src/backstop/pool.rs.
pub mod Shares
use blend_contracts.Base.{
  ℕ, suc, ◌+◌, ◌*◌, ◌/◌, ◌≡◌, Bool, true, false, not, ◌||◌, Option, none, some, ltb, leb,
  if◌then◌else◌, ℤ, pos, negsuc, ◌+ℤ◌, ltb_ℤ, leb_ℤ, eqb_ℤ, Outcome, ok, panic, ◌>>=◌, ◌>>◌,
  panic_if, unwrap, backstop_error, BackstopError, add_i128, sub_i128, saturating_mul, div_ℤ,
}
use blend_contracts.Base.FixedPoint.{FixedPoint}

abbrev pub scalar_7 : ℕ
scalar_7 = 10000000

pub record PoolBackstopData : Type 0 where
  pub tokens : ℤ
  pub q4w_pct : ℤ
  pub blnd : ℤ
  pub usdc : ℤ

pub record PoolBalance : Type 0 where
  pub shares : ℤ
  pub tokens : ℤ
  pub q4w : ℤ

-- the balance of a pool that has no entry in the storage
abbrev pub env_default : PoolBalance
env_default = record { shares = pos 0; tokens = pos 0; q4w = pos 0 }

module _ (math : FixedPoint) where
  unfoldable pub convert_to_shares : ℤ → PoolBalance → Outcome ℤ
  convert_to_shares tokens b =
      if eqb_ℤ b.shares (pos 0) then ok tokens else unwrap (math.mul_floor tokens b.shares b.tokens)

  unfoldable pub convert_to_tokens : ℤ → PoolBalance → Outcome ℤ
  convert_to_tokens shares b =
      if eqb_ℤ b.shares (pos 0) then ok shares else unwrap (math.mul_floor shares b.tokens b.shares)

  -- the tokens that are not queued for withdrawal
  unfoldable pub non_queued_tokens : PoolBalance → Outcome ℤ
  unfolding convert_to_tokens
  non_queued_tokens b = do queued ← convert_to_tokens b.q4w b; sub_i128 b.tokens queued

  -- `load_pool_backstop_data`, from the pool's balance and the value of an LP token.
  unfoldable pub load_pool_backstop_data : PoolBalance → ℤ × ℤ → Outcome PoolBackstopData
  load_pool_backstop_data b (blnd_per_tkn, usdc_per_tkn) = do
    q4w_pct ←
        if ltb_ℤ (pos 0) b.shares
        then unwrap (math.div_ceil b.q4w b.shares (pos scalar_7))
        else ok (pos 0)
    blnd ← unwrap (math.mul_floor b.tokens blnd_per_tkn (pos scalar_7))
    usdc ← unwrap (math.mul_floor b.tokens usdc_per_tkn (pos scalar_7))
    ok (record { tokens = b.tokens; q4w_pct = q4w_pct; blnd = blnd; usdc = usdc })

unfoldable pub deposit : ℤ → ℤ → PoolBalance → Outcome PoolBalance
deposit tokens shares b = do
  tokens' ← add_i128 b.tokens tokens
  shares' ← add_i128 b.shares shares
  ok (record b { shares = shares'; tokens = tokens' })

unfoldable pub withdraw : ℤ → ℤ → PoolBalance → Outcome PoolBalance
withdraw tokens shares b = do
  panic_if (ltb_ℤ b.tokens tokens || (ltb_ℤ b.shares shares || ltb_ℤ b.q4w shares))
      (backstop_error BackstopError.insufficient_funds)
  tokens' ← sub_i128 b.tokens tokens
  shares' ← sub_i128 b.shares shares
  q4w' ← sub_i128 b.q4w shares
  ok (record { shares = shares'; tokens = tokens'; q4w = q4w' })

unfoldable pub queue_for_withdraw : ℤ → PoolBalance → Outcome PoolBalance
queue_for_withdraw shares b = do q4w ← add_i128 b.q4w shares; ok (record b { q4w = q4w })

unfoldable pub dequeue_q4w : ℤ → PoolBalance → Outcome PoolBalance
dequeue_q4w shares b = do
  panic_if (ltb_ℤ b.q4w shares) (backstop_error BackstopError.insufficient_funds)
  q4w ← sub_i128 b.q4w shares
  ok (record b { q4w = q4w })

abbrev pub threshold_pc : ℕ
threshold_pc = 320000000000000000000000000

-- `require_pool_above_threshold`.
unfoldable pub require_pool_above_threshold : PoolBackstopData → Bool
unfolding div_ℤ saturating_mul
require_pool_above_threshold d =
    let bal_blnd = div_ℤ d.blnd scalar_7 in
    let bal_usdc = div_ℤ d.usdc scalar_7 in
    let blnd_2 = saturating_mul bal_blnd bal_blnd in
    let blnd_3 = saturating_mul blnd_2 bal_blnd in
    let blnd_4 = saturating_mul blnd_3 bal_blnd in
    let saturating_pool_pc = saturating_mul blnd_4 bal_usdc in
    leb_ℤ (pos threshold_pc) saturating_pool_pc
