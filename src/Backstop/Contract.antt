-- ===== src/Backstop/Contract.antt =====
-- The calls of the backstop contract that move balances: backstop/src/contract.rs. Events and the
-- lifetime of entries are left out.
use blend_contracts.Base.{List, [], ◌∷◌, ℤ, Outcome, ok, ◌>>=◌, ◌>>◌, unwrap, settle}
use blend_contracts.Base.FixedPoint.{FixedPoint}
use blend_contracts.Base.Host.{Address, Env, TokenClient, require_auth}
use blend_contracts.Backstop.State.{Storage, Dependencies}
use blend_contracts.Backstop.Execute.{
  execute_deposit, execute_queue_withdrawal, execute_dequeue_withdrawal, execute_withdraw,
  execute_draw, execute_donate, execute_update_comet_token_value,
}
use blend_contracts.Backstop.Claim.{execute_claim}

pub data Call : Type 0 where
  deposit queue_withdrawal dequeue_withdrawal withdraw donate : Address → Address → ℤ → Call
  claim : Address → List Address → Address → Call
  draw : Address → ℤ → Address → Call
  -- with the address of the USDC token, which the storage holds beside the modelled entries
  update_tkn_val : Address → Call

-- What happens on the ledger: a call of the backstop, or a change of the other contracts.
pub data Event (Chain : Type 0) : Type 0 where
  call : Env → Call → Event Chain
  others : Chain → Event Chain

module _ {Chain : Type 0} (math : FixedPoint) (tokens : TokenClient Chain)
    (deps : Dependencies Chain) where
  -- The storage after a call; the result goes to the caller.
  unfoldable pub dispatch : Env → Call → Storage Chain → Outcome (Storage Chain)
  dispatch e (Call.deposit from pool amount) s = do
    require_auth e from
    r ← execute_deposit math tokens deps e from pool amount s
    ok r.1
  dispatch e (Call.queue_withdrawal from pool amount) s = do
    require_auth e from
    r ← execute_queue_withdrawal math tokens deps e from pool amount s
    ok r.1
  dispatch e (Call.dequeue_withdrawal from pool amount) s = do
    require_auth e from
    execute_dequeue_withdrawal math tokens deps e from pool amount s
  dispatch e (Call.withdraw from pool amount) s = do
    require_auth e from
    r ← execute_withdraw math tokens deps e from pool amount s
    ok r.1
  dispatch e (Call.donate from pool amount) s = do
    require_auth e from
    require_auth e pool
    execute_donate math tokens deps e from pool amount s
  dispatch e (Call.claim from pools to) s = do
    require_auth e from
    r ← execute_claim math deps e from pools to s
    ok r.1
  dispatch e (Call.draw pool amount to) s = do
    require_auth e pool
    execute_draw math tokens deps e pool amount to s
  dispatch e (Call.update_tkn_val usdc_token) s = do
    backstop_token ← unwrap s.backstop_token
    blnd_token ← unwrap s.blnd_token
    r ← execute_update_comet_token_value math tokens deps e backstop_token blnd_token usdc_token s
    ok r.1

  -- The storage after all events.
  unfoldable pub run : List (Event Chain) → Storage Chain → Storage Chain
  run [] s = s
  run (Event.call e c ∷ events) s = run events (settle (dispatch e c s) s)
  run (Event.others chain ∷ events) s = run events (record s { chain = chain })
