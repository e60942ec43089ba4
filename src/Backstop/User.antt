-- ===== src/Backstop/User.antt =====
-- A depositor's balance with its withdrawal queue: backstop/src/backstop/user.rs, with the constants
-- of backstop/src/constants.rs.
pub mod Queue
pub mod Expiry
use blend_contracts.Base.{
  length, ℕ, suc, ◌+◌, ◌*◌, ◌≡◌, Bool, true, false, not, ◌||◌, List, [], ◌∷◌, ◌++◌, ltb, leb,
  if◌then◌else◌, ℤ, pos, ◌+ℤ◌, ltb_ℤ, eqb_ℤ, Outcome, ok, panic, ◌>>=◌, ◌>>◌, panic_if,
  backstop_error, BackstopError, add_i128, sub_i128, add_u,
}
use blend_contracts.Base.Host.{Env}

-- the most entries that a queue may hold
abbrev pub max_q4w_size : ℕ
max_q4w_size = 21

-- the time in seconds for which an entry is locked
abbrev pub q4w_lock_time : ℕ
q4w_lock_time = 21 * 24 * 60 * 60

-- A deposit that is queued for withdrawal.
pub record Q4W : Type 0 where
  pub amount : ℤ
  pub exp : ℕ

pub record UserBalance : Type 0 where
  pub shares : ℤ
  pub q4w : List Q4W

abbrev pub env_default : UserBalance
env_default = record { shares = pos 0; q4w = [] }

unfoldable pub add_shares : ℤ → UserBalance → Outcome UserBalance
add_shares to_add b = do shares ← add_i128 b.shares to_add; ok (record b { shares = shares })

unfoldable pub queue_shares_for_withdrawal : Env → ℤ → UserBalance → Outcome UserBalance
queue_shares_for_withdrawal e to_q b = do
  panic_if (ltb_ℤ b.shares to_q) (backstop_error BackstopError.balance_error)
  panic_if (leb max_q4w_size (length b.q4w)) (backstop_error BackstopError.too_many_q4w_entries)
  shares ← sub_i128 b.shares to_q
  exp ← add_u 64 e.timestamp q4w_lock_time
  ok (record { shares = shares; q4w = b.q4w ++ (record { amount = to_q; exp = exp }) ∷ [] })

-- The loop of `dequeue_shares_for_withdrawal`: what is left to dequeue, and the queue.
unfoldable pub dequeue_loop : Env → Bool → ℤ → List Q4W → Outcome (ℤ × List Q4W)
dequeue_loop e require_expired left_to_dequeue [] = ok (left_to_dequeue, [])
dequeue_loop e require_expired left_to_dequeue (cur_q4w ∷ rest) =
    if not require_expired || leb cur_q4w.exp e.timestamp
    then (if ltb_ℤ left_to_dequeue cur_q4w.amount
        then (do
          amount ← sub_i128 cur_q4w.amount left_to_dequeue
          ok (pos 0, (record cur_q4w { amount = amount }) ∷ rest))
        else if eqb_ℤ cur_q4w.amount left_to_dequeue
        then ok (pos 0, rest)
        else (do
          left ← sub_i128 left_to_dequeue cur_q4w.amount
          dequeue_loop e require_expired left rest))
    else panic (backstop_error BackstopError.not_expired)

unfoldable pub dequeue_shares_for_withdrawal : Env → ℤ → Bool → UserBalance → Outcome UserBalance
dequeue_shares_for_withdrawal e to_dequeue require_expired b = do
  r ← dequeue_loop e require_expired to_dequeue b.q4w
  panic_if (ltb_ℤ (pos 0) r.0) (backstop_error BackstopError.balance_error)
  ok (record b { q4w = r.1 })
