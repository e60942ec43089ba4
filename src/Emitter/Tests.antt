-- ===== src/Emitter/Tests.antt =====
-- The emitter's theorems at concrete inputs (emitter/src).
use blend_contracts.Base.{
  ◌*◌, ◌≤◌, ◌≡◌, refl, true, none, some, List, [], ◌∷◌, arith, ℤ, pos, ◌+ℤ◌, ◌<ℤ◌, ◌-ℤ◌, ◌≤ℤ◌, ok,
  checked, fits_i128, settle, ◌*ℤ◌, add_u, sub_u,
}
use blend_contracts.Base.Map.{nat_key, lookup, insert, get_or}
use blend_contracts.Base.Host.{Address, Env, TokenClient, Supply}
use blend_contracts.Samples.{env_at}
use blend_contracts.Emitter.State.{
  Storage, get_backstop, set_backstop, set_backstop_token, get_backstop_token, get_blnd_token,
  set_queued_swap, del_queued_swap, get_last_distro_time, set_last_distro_time, get_drop_status,
  set_drop_status,
}
use blend_contracts.Emitter.Execute.{
  scalar_7, drop_sum, mint_all, is_new_backstop_is_larger, execute_distribute, execute_drop,
  execute_swap_backstop, execute_queue_swap_backstop, distribute,
}
use blend_contracts.Emitter.Contract.{
  Call, distribute_call, swap_backstop, queue_swap_backstop, dispatch, run,
}
use blend_contracts.Emitter.Swaps.{HasMinted, swap_backstop_lem}
use blend_contracts.Emitter.Stability.{run-backstop_stable}
use blend_contracts.Emitter.Supply.{IsPaid, run-IsPaid}
use blend_contracts.Emitter.Drops.{amounts, drop_once}

-- A chain that only counts the tokens minted; the balance of a contract is its address.
abbrev tokens : TokenClient ℤ
tokens = record {
  balance = λ c token owner. pos owner;
  transfer = λ c token from to x. some c;
  mint = λ c token to x. some (c +ℤ x);
}

counted : Supply tokens
counted = record { supply = λ c token. c; mint_supply = λ c token to x c' h. ground arith }

abbrev started : Storage ℤ
started = record {
  is_init = true;
  backstop = some 3;
  backstop_token = some 6;
  blnd_token = some 7;
  queued_swap = none;
  last_distro = (3, 1000) ∷ [];
  dropped = [];
  chain = pos 0;
}

abbrev calls : List (Env × Call)
calls =
    (env_at 1500, distribute_call)
    ∷ (env_at 1600, queue_swap_backstop 4 8)
    ∷ (env_at 1700, swap_backstop)
    ∷ (env_at 2680000, swap_backstop)
    ∷ []

-- The swap waits 31 days, and both backstops are paid up to it.
run-calls :
    ((run tokens calls started).backstop ≡ some 4)
    × ((run tokens calls started).chain ≡ pos 26790000000000)
unfolding run settle dispatch execute_distribute distribute execute_queue_swap_backstop
    execute_swap_backstop is_new_backstop_is_larger get_backstop set_backstop set_backstop_token
    get_backstop_token get_blnd_token set_queued_swap del_queued_swap get_last_distro_time
    set_last_distro_time lookup insert checked fits_i128 ◌*ℤ◌ ◌+ℤ◌ add_u sub_u
run-calls = (refl, refl)

run-IsPaid_example : IsPaid counted (pos 0 -ℤ pos 10000000000) 7 (run tokens calls started)
unfolding lookup ◌-ℤ◌ ◌+ℤ◌ counted
run-IsPaid_example =
    run-IsPaid tokens counted (pos 0 -ℤ pos 10000000000) 7 calls started tt (record {
      current = 3;
      paid_to = 1000;
      init = refl;
      backstop = refl;
      token = refl;
      clock = clock;
      issued = issued;
    })
  where
    clock : lookup 3 started.last_distro ≡ some 1000
    clock = refl

    issued : pos 0 ≡ (pos 0 -ℤ pos 10000000000) +ℤ pos (1000 * scalar_7)
    issued = refl

abbrev queued : Storage ℤ
queued = record started {
  queued_swap = some (record { new_backstop = 4; new_backstop_token = 8; unlock_time = 2679000 });
}

abbrev swapped : Storage ℤ
swapped = record {
  is_init = true;
  backstop = some 4;
  backstop_token = some 8;
  blnd_token = some 7;
  queued_swap = none;
  last_distro = (3, 2680000) ∷ (4, 2680000) ∷ [];
  dropped = [];
  chain = pos 26790000000000;
}

swap_backstop_lem_example :
    (2679000 ≤ 2680000)
    × (pos 3 <ℤ pos 4)
    × (swapped.backstop ≡ some 4)
    × (swapped.backstop_token ≡ some 8)
    × (swapped.queued_swap ≡ none)
    × (lookup 4 swapped.last_distro ≡ some 2680000)
    × (lookup 3 swapped.last_distro ≡ some 2680000)
    × HasMinted tokens (env_at 2680000) 3 queued swapped.chain
unfolding run settle dispatch execute_distribute distribute execute_queue_swap_backstop
    execute_swap_backstop is_new_backstop_is_larger get_backstop set_backstop set_backstop_token
    get_backstop_token get_blnd_token set_queued_swap del_queued_swap get_last_distro_time
    set_last_distro_time lookup insert checked fits_i128 ◌*ℤ◌ ◌+ℤ◌ add_u sub_u
swap_backstop_lem_example =
    swap_backstop_lem tokens (env_at 2680000) queued
      (record { new_backstop = 4; new_backstop_token = 8; unlock_time = 2679000 }) 3 6 refl refl
      refl refl

abbrev early : List (Env × Call)
early =
    (env_at 1500, distribute_call)
    ∷ (env_at 1600, queue_swap_backstop 4 8)
    ∷ (env_at 2000000, swap_backstop)
    ∷ []

run-backstop_stable_example : (run tokens early started).backstop ≡ some 3
run-backstop_stable_example =
    run-backstop_stable tokens 1000 early started refl refl
      (omega arith, omega arith, (omega arith, omega arith, (omega arith, omega arith, tt)))

abbrev list : List (Address × ℤ)
list = (20, pos 300000000000000) ∷ (21, pos 200000000000000) ∷ []

abbrev dropped : Storage ℤ
dropped = record started { dropped = (3, true) ∷ []; chain = pos 500000000000000 }

drop_once_example :
    (amounts list ≤ℤ pos 500000000000000)
    × ¬ (
        execute_drop tokens
          (env_at 1600)
          ((20, pos 5) ∷ [])
          (run tokens ((env_at 1500, distribute_call) ∷ []) dropped)
        ≡ ok started)
unfolding run settle dispatch execute_distribute distribute execute_queue_swap_backstop
    execute_swap_backstop is_new_backstop_is_larger get_backstop set_backstop set_backstop_token
    get_backstop_token get_blnd_token set_queued_swap del_queued_swap get_last_distro_time
    set_last_distro_time lookup insert checked fits_i128 ◌*ℤ◌ ◌+ℤ◌ add_u sub_u execute_drop drop_sum
    mint_all get_drop_status set_drop_status get_or
drop_once_example =
    drop_once tokens (env_at 1100) (env_at 1600) list ((20, pos 5) ∷ [])
      ((env_at 1500, distribute_call) ∷ []) started dropped started 3 refl refl refl
