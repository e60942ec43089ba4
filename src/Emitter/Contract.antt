-- ===== src/Emitter/Contract.antt =====
-- The calls of the emitter contract as one transition: emitter/src/contract.rs, events left out.
use blend_contracts.Base.{List, [], ◌∷◌, ℤ, Outcome, ok, ◌>>=◌, settle}
use blend_contracts.Base.Host.{Address, Env, TokenClient}
use blend_contracts.Emitter.State.{Storage}
use blend_contracts.Emitter.Execute.{
  initialize, distribute, execute_queue_swap_backstop, execute_cancel_swap_backstop,
  execute_swap_backstop, execute_drop,
}

pub data Call : Type 0 where
  initialize_call : Address → Address → Address → Call
  distribute_call cancel_swap_backstop swap_backstop : Call
  queue_swap_backstop : Address → Address → Call
  drop_call : List (Address × ℤ) → Call

module _ {Chain : Type 0} (tokens : TokenClient Chain) where
  unfoldable pub dispatch : Env → Call → Storage Chain → Outcome (Storage Chain)
  dispatch e (initialize_call blnd backstop token) s = initialize tokens e blnd backstop token s
  dispatch e distribute_call s = do r ← distribute tokens e s; ok r.1
  dispatch e cancel_swap_backstop s = do r ← execute_cancel_swap_backstop tokens e s; ok r.1
  dispatch e swap_backstop s = do r ← execute_swap_backstop tokens e s; ok r.1
  dispatch e (queue_swap_backstop new_backstop new_token) s = do
    r ← execute_queue_swap_backstop tokens e new_backstop new_token s
    ok r.1
  dispatch e (drop_call list) s = execute_drop tokens e list s

  unfoldable pub run : List (Env × Call) → Storage Chain → Storage Chain
  run [] s = s
  run ((e, c) ∷ calls) s = run calls (settle (dispatch e c s) s)
