-- ===== src/Backstop/Ledger/Steps.antt =====
-- The books of the backstop after any sequence of calls (backstop/src/contract.rs).
use blend_contracts.Base.{
  refl, List, [], ◌∷◌, pos, Outcome, ok, ◌>>=◌, unwrap, settle, settle_keeps, Ensures, Ensures-ok,
  Ensures-bind,
}
use blend_contracts.Base.FixedPoint.{FixedPoint}
use blend_contracts.Base.Host.{Address, Env, TokenClient, require_auth}
use blend_contracts.Backstop.State.{Storage, Dependencies, set_lp_token_val}
use blend_contracts.Backstop.Pool.{scalar_7}
use blend_contracts.Backstop.Execute.{execute_update_comet_token_value}
use blend_contracts.Backstop.Contract.{Call, Event, dispatch, run}
use blend_contracts.Backstop.Ledger.Write.{IsBalanced, same-IsBalanced}
use blend_contracts.Backstop.Ledger.Calls.{
  execute_deposit-IsBalanced, execute_queue_withdrawal-IsBalanced,
  execute_dequeue_withdrawal-IsBalanced, execute_withdraw-IsBalanced,
}
use blend_contracts.Backstop.Ledger.Funds.{
  execute_draw-IsBalanced, execute_donate-IsBalanced, execute_claim-IsBalanced,
}

module _ {Chain : Type 0} (math : FixedPoint) (tokens : TokenClient Chain)
    (deps : Dependencies Chain) where
  update_tkn_val-IsBalanced :
      (e : Env) (a b c : Address) (s : Storage Chain)
      → IsBalanced s
      → Ensures (λ r. IsBalanced r.1) (execute_update_comet_token_value math tokens deps e a b c s)
  unfolding execute_update_comet_token_value set_lp_token_val
  update_tkn_val-IsBalanced e a b c s inv =
      let blnd =
        math.div_floor (tokens.balance s.chain b a) (deps.get_total_supply s.chain a)
          (pos scalar_7) in
      let usdc =
        math.div_floor (tokens.balance s.chain c a) (deps.get_total_supply s.chain a)
          (pos scalar_7) in
      Ensures-bind (unwrap blnd) _ λ x _.
        Ensures-bind (unwrap usdc) _
          λ y _. Ensures-ok _ (same-IsBalanced s (set_lp_token_val (x, y) s) refl refl inv)

  from_result :
      {A : Type 0} (o : Outcome (A × Storage Chain))
      → Ensures (λ r. IsBalanced r.1) o
      → Ensures IsBalanced (o >>= λ r. ok r.1)
  from_result o h = Ensures-bind o _ λ r e. Ensures-ok _ (h.at r e)

  -- Each call of the contract keeps the books.
  pub dispatch-IsBalanced :
      (e : Env) (c : Call) (s : Storage Chain)
      → IsBalanced s
      → Ensures IsBalanced (dispatch math tokens deps e c s)
  unfolding dispatch
  dispatch-IsBalanced e (Call.deposit from pool x) s inv =
      Ensures-bind (require_auth e from) _
        λ _ _. from_result _ (execute_deposit-IsBalanced math tokens deps e from pool x s inv)
  dispatch-IsBalanced e (Call.queue_withdrawal from pool x) s inv =
      Ensures-bind (require_auth e from) _ λ _ _.
        from_result _ (execute_queue_withdrawal-IsBalanced math tokens deps e from pool x s inv)
  dispatch-IsBalanced e (Call.dequeue_withdrawal from pool x) s inv =
      Ensures-bind (require_auth e from) _
        λ _ _. execute_dequeue_withdrawal-IsBalanced math tokens deps e from pool x s inv
  dispatch-IsBalanced e (Call.withdraw from pool x) s inv =
      Ensures-bind (require_auth e from) _
        λ _ _. from_result _ (execute_withdraw-IsBalanced math tokens deps e from pool x s inv)
  dispatch-IsBalanced e (Call.donate from pool x) s inv =
      Ensures-bind (require_auth e from) _ λ _ _.
        Ensures-bind (require_auth e pool) _
          λ _ _. execute_donate-IsBalanced math tokens deps e from pool x s inv
  dispatch-IsBalanced e (Call.claim from pools to) s inv =
      Ensures-bind (require_auth e from) _
        λ _ _. from_result _ (execute_claim-IsBalanced math tokens deps e from pools to s inv)
  dispatch-IsBalanced e (Call.draw pool x to) s inv =
      Ensures-bind (require_auth e pool) _
        λ _ _. execute_draw-IsBalanced math tokens deps e pool x to s inv
  dispatch-IsBalanced e (Call.update_tkn_val usdc) s inv =
      Ensures-bind (unwrap s.backstop_token) _ λ a _.
        Ensures-bind (unwrap s.blnd_token) _
          λ b _. from_result _ (update_tkn_val-IsBalanced e a b usdc s inv)

  -- Where at the start every pool's shares are the sum of its depositors' shares, queued or not,
  -- and its queued shares the sum of their withdrawal queues, this holds after any sequence of the
  -- modelled calls, failed ones among them, and of changes of the other contracts.
  pub run-IsBalanced :
      (events : List (Event Chain)) (s : Storage Chain)
      → IsBalanced s
      → IsBalanced (run math tokens deps events s)
  unfolding run
  run-IsBalanced [] s inv = inv
  run-IsBalanced (Event.call e c ∷ events) s inv =
      run-IsBalanced events (settle (dispatch math tokens deps e c s) s)
        (settle_keeps IsBalanced _ s inv (dispatch-IsBalanced e c s inv))
  run-IsBalanced (Event.others chain ∷ events) s inv =
      run-IsBalanced events (record s { chain = chain })
        (same-IsBalanced s (record s { chain = chain }) refl refl inv)
