-- ===== src/Backstop/Tests.antt =====
-- The backstop's theorems at concrete inputs, and runs of its code (backstop/src).
use blend_contracts.Base.{
  ℕ, inr, ◌≤◌, Ensures, ◌⊎◌, length, ◌≡◌, ◌↔◌, refl, true, none, some, List, [], ◌∷◌, arith, pos,
  ◌+ℤ◌, ◌-ℤ◌, ◌*ℤ◌, ◌≤ℤ◌, ok, ◌++◌, ◌<◌, ◌+◌, fits_i128, checked, settle, add_u,
}
use blend_contracts.Base.Map.{lookup, insert, get_or, total}
use blend_contracts.Samples.{exact, exact_laws, free_tokens, neighbours, env_at, floor_of}
use blend_contracts.Backstop.Zone.{has_pool, max_rz_len, add_to_reward_zone}
use blend_contracts.Backstop.Zone.Places.{IsZone, add_to_reward_zone-IsZone}
use blend_contracts.Backstop.User.{
  max_q4w_size, q4w_lock_time, queue_shares_for_withdrawal, Q4W, UserBalance, dequeue_loop,
  dequeue_shares_for_withdrawal, add_shares,
}
use blend_contracts.Backstop.User.Queue.{queue_sum, dequeue_shares_sum, queue_shares_lem}
use blend_contracts.Backstop.User.Expiry.{available, dequeue_shares_iff}
use blend_contracts.Backstop.Pool.{
  PoolBalance, convert_to_shares, convert_to_tokens, deposit, withdraw, queue_for_withdraw,
}
use blend_contracts.Backstop.Pool.Shares.{
  RateLe, deposit-RateLe, withdraw-RateLe, deposit-convert_to_tokens,
}
use blend_contracts.Backstop.State.{
  Storage, get_user_balance, set_user_balance, get_pool_balance, set_pool_balance,
  get_backstop_emis_config,
}
use blend_contracts.Backstop.Emissions.{update_emissions, emissions_call, update_emission_data}
use blend_contracts.Backstop.Execute.{
  require_is_from_pool_factory, transfer_backstop_token, execute_deposit, execute_queue_withdrawal,
  execute_withdraw, last,
}
use blend_contracts.Backstop.Contract.{Call, Event, dispatch, run}
use blend_contracts.Backstop.Ledger.{IsBalanced}
use blend_contracts.Backstop.Ledger.Steps.{run-IsBalanced}

-- Two entries; the second is locked until 2000.
abbrev queue : List Q4W
queue = (record { amount = pos 30; exp = 1000 }) ∷ (record { amount = pos 50; exp = 2000 }) ∷ []

abbrev depositor : UserBalance
depositor = record { shares = pos 20; q4w = queue }

abbrev pool_balance : PoolBalance
pool_balance = record { shares = pos 100; tokens = pos 150; q4w = pos 80 }

dequeue_part :
    dequeue_shares_for_withdrawal (env_at 2500) (pos 40) true depositor
    ≡ ok (record { shares = pos 20; q4w = (record { amount = pos 40; exp = 2000 }) ∷ [] })
unfolding dequeue_shares_for_withdrawal dequeue_loop checked fits_i128 ◌-ℤ◌
dequeue_part = refl

dequeue_shares_sum_example :
    (queue_sum queue ≡ queue_sum ((record { amount = pos 40; exp = 2000 }) ∷ []) +ℤ pos 40)
    × (pos 20 ≡ pos 20)
dequeue_shares_sum_example =
    dequeue_shares_sum (env_at 2500) (pos 40) true depositor (omega arith) dequeue_part

-- At 1500 only the first entry can leave.
dequeue_shares_iff_example :
    ((b' : UserBalance) × (dequeue_shares_for_withdrawal (env_at 1500) (pos 40) true depositor
        ≡ ok b'))
    ↔ (pos 40 ≤ℤ available (env_at 1500) true queue)
unfolding fits_i128
dequeue_shares_iff_example =
    dequeue_shares_iff (env_at 1500) (pos 40) true depositor
      (omega arith, refl, (omega arith, refl, tt)) (omega arith) refl

deposit-RateLe_example :
    RateLe pool_balance (record { shares = pos 106; tokens = pos 160; q4w = pos 80 })
unfolding convert_to_shares deposit checked fits_i128 ◌+ℤ◌ ◌*ℤ◌ floor_of
deposit-RateLe_example =
    deposit-RateLe exact exact_laws 10 100 150 pool_balance refl refl (omega arith) (omega arith)
      refl refl

withdraw-RateLe_example :
    RateLe pool_balance (record { shares = pos 93; tokens = pos 140; q4w = pos 73 })
unfolding convert_to_tokens withdraw checked fits_i128 ◌-ℤ◌ ◌*ℤ◌ floor_of
withdraw-RateLe_example =
    withdraw-RateLe exact exact_laws 7 100 150 pool_balance refl refl (omega arith) refl refl

deposit-convert_to_tokens_example : (pos 9 ≤ℤ pos 10) ⊎ ((◌≡◌ {A = ℕ} 100 0) × (pos 9 ≡ pos 160))
unfolding convert_to_shares convert_to_tokens deposit checked fits_i128 ◌+ℤ◌ ◌*ℤ◌ floor_of
deposit-convert_to_tokens_example =
    deposit-convert_to_tokens exact exact_laws 10 100 150 pool_balance refl refl (inr (omega arith))
      refl refl refl

abbrev empty : Storage (Unit {0})
empty = record {
  pool_factory = some 5;
  backstop_token = some 6;
  blnd_token = some 7;
  user_balances = [];
  pool_balances = [];
  emis_configs = [];
  emis_data = [];
  user_emis_data = [];
  lp_token_val = none;
  emitter = some 9;
  reward_zone = [];
  last_distribution_time = 0;
  pool_emissions = [];
  chain = tt;
}

empty-IsBalanced : IsBalanced empty
unfolding total get_pool_balance get_or
empty-IsBalanced pool = (refl, refl)

-- A deposit, a failed withdrawal, a queued withdrawal and its end after the lock.
abbrev events : List (Event (Unit {0}))
events =
    Event.call (env_at 1000) (Call.deposit 10 20 (pos 500))
    ∷ Event.call (env_at 1001) (Call.withdraw 10 20 (pos 5))
    ∷ Event.call (env_at 1002) (Call.queue_withdrawal 10 20 (pos 200))
    ∷ Event.others tt
    ∷ Event.call (env_at 3000000) (Call.withdraw 10 20 (pos 150))
    ∷ []

run_balances :
    get_pool_balance 20 (run exact free_tokens neighbours events empty)
    ≡ record { shares = pos 350; tokens = pos 350; q4w = pos 50 }
unfolding run settle dispatch execute_deposit execute_queue_withdrawal execute_withdraw
    update_emissions emissions_call update_emission_data get_backstop_emis_config
    require_is_from_pool_factory transfer_backstop_token get_pool_balance set_pool_balance
    get_user_balance set_user_balance convert_to_shares convert_to_tokens deposit withdraw
    queue_for_withdraw add_shares queue_shares_for_withdrawal dequeue_shares_for_withdrawal
    dequeue_loop last add_u lookup insert get_or checked fits_i128 ◌+ℤ◌ ◌-ℤ◌ ◌*ℤ◌ floor_of
run_balances = refl

run-IsBalanced_example : IsBalanced (run exact free_tokens neighbours events empty)
run-IsBalanced_example = run-IsBalanced exact free_tokens neighbours events empty empty-IsBalanced

abbrev queued_more : UserBalance
queued_more = record {
  shares = pos 15;
  q4w = queue ++ (record { amount = pos 5; exp = 1815400 }) ∷ [];
}

queue_shares_lem_example :
    (queued_more.shares ≡ pos 20 -ℤ pos 5)
    × (queued_more.q4w ≡ queue ++ (record { amount = pos 5; exp = 1000 + q4w_lock_time }) ∷ [])
    × (pos 5 ≤ℤ pos 20)
    × (length queue < max_q4w_size)
unfolding queue_shares_for_withdrawal checked fits_i128 add_u ◌-ℤ◌
queue_shares_lem_example = queue_shares_lem (env_at 1000) (pos 5) depositor refl

-- A reward zone of one pool, to which another one is added.
abbrev zoned : Storage (Unit {0})
zoned = record empty {
  lp_token_val = some (pos 100000000, pos 10000000);
  pool_balances =
      (3, record { shares = pos 10000000000000; tokens = pos 10000000000000; q4w = pos 0 }) ∷ [];
  reward_zone = 5 ∷ [];
}

add_to_reward_zone-IsZone_example :
    Ensures
      (λ s'.
        (has_pool 3 s'.reward_zone ≡ true)
        × IsZone s'.reward_zone
        × ((length s'.reward_zone ≤ max_rz_len (env_at 1000))
            ⊎ (length s'.reward_zone ≡ length zoned.reward_zone)))
      (add_to_reward_zone exact (env_at 1000) 3 5 zoned)
add_to_reward_zone-IsZone_example =
    add_to_reward_zone-IsZone exact (env_at 1000) 3 5 zoned (record { once = λ pool. ground arith })
