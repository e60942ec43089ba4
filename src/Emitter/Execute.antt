-- ===== src/Emitter/Execute.antt =====
-- The emitter's calls: emitter/src/emitter.rs, emitter/src/backstop_manager.rs and
-- emitter/src/contract.rs.
use blend_contracts.Base.{
  ℕ, ◌*◌, Bool, true, false, not, Option, none, some, List, [], ◌∷◌, ltb, ℤ, pos, ltb_ℤ, Outcome,
  ok, ◌>>=◌, ◌>>◌, panic_if, or_panic, host, emitter_error, EmitterError, add_i128, mul_i128, add_u,
  sub_u,
}
use blend_contracts.Base.Host.{Address, Env, TokenClient, require_auth}
use blend_contracts.Emitter.State.{
  Storage, Swap, get_backstop, set_backstop, get_backstop_token, set_backstop_token, get_blnd_token,
  set_queued_swap, del_queued_swap, get_last_distro_time, set_last_distro_time, get_drop_status,
  set_drop_status,
}

abbrev pub scalar_7 : ℕ
scalar_7 = 10000000

-- The wait before a queued swap: 31 days.
abbrev pub swap_lock_time : ℕ
swap_lock_time = 31 * 24 * 60 * 60

abbrev pub is_some {ℓ} : {A : Type ℓ} → Option A → Bool
is_some none = false
is_some (some a) = true

-- The sum of a drop list.
unfoldable pub drop_sum : ℤ → List (Address × ℤ) → Outcome ℤ
drop_sum drop_amount [] = ok drop_amount
drop_sum drop_amount ((addr, amt) ∷ list) = do
  drop_amount' ← add_i128 drop_amount amt
  drop_sum drop_amount' list

module _ {Chain : Type 0} (tokens : TokenClient Chain) where
  unfoldable pub mint_all : Address → List (Address × ℤ) → Chain → Outcome Chain
  mint_all blnd_id [] chain = ok chain
  mint_all blnd_id ((addr, amt) ∷ list) chain = do
    chain' ← or_panic host (tokens.mint chain blnd_id addr amt)
    mint_all blnd_id list chain'

  -- Whether the new backstop holds more backstop tokens than the current one.
  unfoldable pub is_new_backstop_is_larger : Address → Address → Storage Chain → Outcome Bool
  is_new_backstop_is_larger new_backstop backstop s = do
    token ← get_backstop_token s
    let backstop_balance = tokens.balance s.chain token backstop
    let new_backstop_balance = tokens.balance s.chain token new_backstop
    ok (ltb_ℤ backstop_balance new_backstop_balance)

module _ {Chain : Type 0} (tokens : TokenClient Chain) (e : Env) where
  unfoldable pub execute_distribute : Address → Storage Chain → Outcome (ℤ × Storage Chain)
  execute_distribute backstop s = do
    last ← get_last_distro_time backstop s
    seconds_since_last_distro ← sub_u e.timestamp last
    distribution_amount ← mul_i128 (pos seconds_since_last_distro) (pos scalar_7)
    let s₁ = set_last_distro_time backstop e.timestamp s
    blnd_id ← get_blnd_token s₁
    chain ← or_panic host (tokens.mint s₁.chain blnd_id backstop distribution_amount)
    ok (distribution_amount, record s₁ { chain = chain })

  unfoldable pub execute_drop : List (Address × ℤ) → Storage Chain → Outcome (Storage Chain)
  execute_drop list s = do
    backstop ← get_backstop s
    require_auth e backstop
    panic_if (get_drop_status backstop s) (emitter_error EmitterError.bad_drop)
    drop_amount ← drop_sum (pos 0) list
    panic_if (ltb_ℤ (pos (50000000 * scalar_7)) drop_amount) (emitter_error EmitterError.bad_drop)
    blnd_id ← get_blnd_token s
    chain ← mint_all tokens blnd_id list s.chain
    ok (set_drop_status backstop (record s { chain = chain }))

  unfoldable pub execute_queue_swap_backstop :
      Address → Address → Storage Chain → Outcome (Swap × Storage Chain)
  execute_queue_swap_backstop new_backstop new_backstop_token s = do
    panic_if (is_some s.queued_swap) (emitter_error EmitterError.swap_already_exists)
    backstop ← get_backstop s
    larger ← is_new_backstop_is_larger tokens new_backstop backstop s
    panic_if (not larger) (emitter_error EmitterError.insufficient_backstop_size)
    unlock_time ← add_u 64 e.timestamp swap_lock_time
    let swap : Swap = record {
      new_backstop = new_backstop;
      new_backstop_token = new_backstop_token;
      unlock_time = unlock_time;
    }
    ok (swap, set_queued_swap swap s)

  unfoldable pub execute_cancel_swap_backstop : Storage Chain → Outcome (Swap × Storage Chain)
  execute_cancel_swap_backstop s = do
    swap ← or_panic (emitter_error EmitterError.swap_not_queued) s.queued_swap
    backstop ← get_backstop s
    larger ← is_new_backstop_is_larger tokens swap.new_backstop backstop s
    panic_if larger (emitter_error EmitterError.swap_cannot_be_canceled)
    ok (swap, del_queued_swap s)

  unfoldable pub execute_swap_backstop : Storage Chain → Outcome (Swap × Storage Chain)
  execute_swap_backstop s = do
    swap ← or_panic (emitter_error EmitterError.swap_not_queued) s.queued_swap
    panic_if (ltb e.timestamp swap.unlock_time) (emitter_error EmitterError.swap_not_unlocked)
    backstop ← get_backstop s
    larger ← is_new_backstop_is_larger tokens swap.new_backstop backstop s
    panic_if (not larger) (emitter_error EmitterError.insufficient_backstop_size)
    r ← execute_distribute backstop s
    let s₁ = del_queued_swap r.1
    let s₂ = set_backstop swap.new_backstop s₁
    let s₃ = set_backstop_token swap.new_backstop_token s₂
    ok (swap, set_last_distro_time swap.new_backstop e.timestamp s₃)

  -- `initialize`, `distribute` and the others of emitter/src/contract.rs.
  unfoldable pub initialize : Address → Address → Address → Storage Chain → Outcome (Storage Chain)
  initialize blnd_token backstop backstop_token s = do
    panic_if s.is_init (emitter_error EmitterError.already_initialized_error)
    ok (
        set_last_distro_time backstop e.timestamp (record s {
          blnd_token = some blnd_token;
          backstop = some backstop;
          backstop_token = some backstop_token;
          is_init = true;
        }))

  unfoldable pub distribute : Storage Chain → Outcome (ℤ × Storage Chain)
  distribute s = do backstop_address ← get_backstop s; execute_distribute backstop_address s
