-- ===== src/Backstop/Ledger/Calls.antt =====
-- Every call of backstop/src/backstop keeps the books.
use blend_contracts.Base.{
  ◌≡◌, refl, sym, ap₂, true, false, ◌||◌, ◌==◌, arith, ℤ, pos, ◌+ℤ◌, ◌-ℤ◌, ltb_ℤ, eqb_ℤ, int_laws,
  ok, unwrap, Ensures, Ensures-ok, Ensures-bind, Ensures-panic_if, checked,
}
use blend_contracts.Base.FixedPoint.{FixedPoint}
use blend_contracts.Base.Map.{nat_key, pair_key}
use blend_contracts.Base.Host.{Address, Env, TokenClient}
use blend_contracts.Backstop.User.{
  UserBalance, add_shares, queue_shares_for_withdrawal, dequeue_shares_for_withdrawal,
}
use blend_contracts.Backstop.User.Queue.{
  queue_sum, held, queue_shares-held, queue_shares-queue_sum, dequeue_shares_sum,
}
use blend_contracts.Backstop.Pool.{
  PoolBalance, convert_to_shares, convert_to_tokens, deposit, withdraw, queue_for_withdraw,
  dequeue_q4w,
}
use blend_contracts.Backstop.Pool.Shares.{deposit_lem, withdraw_lem}
use blend_contracts.Backstop.State.{
  Storage, Dependencies, get_user_balance, set_user_balance, get_pool_balance, set_pool_balance,
}
use blend_contracts.Backstop.Emissions.{update_emissions}
use blend_contracts.Backstop.Execute.{
  require_is_from_pool_factory, transfer_backstop_token, execute_deposit, execute_queue_withdrawal,
  execute_dequeue_withdrawal, execute_withdraw, last,
}
use blend_contracts.Backstop.Ledger.Write.{IsBalanced, Writes, Writes-IsBalanced}
use blend_contracts.Backstop.Ledger.Frame.{
  SameBalances, transfer-SameBalances, update_emissions-SameBalances,
}

pub add_shares_lem :
    (x : ℤ) (b : UserBalance) {b' : UserBalance}
    → add_shares x b ≡ ok b'
    → (b'.shares ≡ b.shares +ℤ x) × (b'.q4w ≡ b.q4w)
unfolding add_shares checked
add_shares_lem x b h = ground arith

queue_for_withdraw_lem :
    (x : ℤ) (b : PoolBalance) {b' : PoolBalance}
    → queue_for_withdraw x b ≡ ok b'
    → (b'.shares ≡ b.shares) × (b'.q4w ≡ b.q4w +ℤ x)
unfolding queue_for_withdraw checked
queue_for_withdraw_lem x b h = ground arith

dequeue_q4w_lem :
    (x : ℤ) (b : PoolBalance) {b' : PoolBalance}
    → dequeue_q4w x b ≡ ok b'
    → (b'.shares ≡ b.shares) × (b'.q4w ≡ b.q4w -ℤ x)
unfolding dequeue_q4w checked
dequeue_q4w_lem x b h = ground arith

-- The books of a deposit, of a queued amount, of a dequeued amount and of a withdrawal, where `q` is
-- the sum of the depositor's queue.
module _ (pb pb' : PoolBalance) (ub ub' : UserBalance) (x : ℤ) where
  pub deposit_books :
      pb'.shares ≡ pb.shares +ℤ x
      → ub'.shares ≡ ub.shares +ℤ x
      → ub'.q4w ≡ ub.q4w
      → pb'.shares +ℤ held ub ≡ pb.shares +ℤ held ub'
  unfolding held
  deposit_books ep eu eq = rw (ep, eu, eq) (omega int_laws)

  queue_books :
      pb'.q4w ≡ pb.q4w +ℤ x
      → queue_sum ub'.q4w ≡ queue_sum ub.q4w +ℤ x
      → pb'.q4w +ℤ queue_sum ub.q4w ≡ pb.q4w +ℤ queue_sum ub'.q4w
  queue_books ep eu = rw (ep, eu) (omega int_laws)

  dequeue_books :
      pb'.q4w ≡ pb.q4w -ℤ x
      → queue_sum ub.q4w ≡ queue_sum ub'.q4w +ℤ x
      → pb'.q4w +ℤ queue_sum ub.q4w ≡ pb.q4w +ℤ queue_sum ub'.q4w
  dequeue_books ep eu = rw (ep, eu) (omega int_laws)

  withdraw_books :
      pb'.shares ≡ pb.shares -ℤ x
      → ub'.shares ≡ ub.shares
      → queue_sum ub.q4w ≡ queue_sum ub'.q4w +ℤ x
      → pb'.shares +ℤ held ub ≡ pb.shares +ℤ held ub'
  unfolding held
  withdraw_books ep eu eq = rw (ep, eu, eq) (omega int_laws)

-- The shares of a user that leave the queue and go back to the free shares.
restore_held :
    (b c d : UserBalance) (x : ℤ)
    → queue_sum b.q4w ≡ queue_sum c.q4w +ℤ x
    → c.shares ≡ b.shares
    → d.shares ≡ c.shares +ℤ x
    → d.q4w ≡ c.q4w
    → held d ≡ held b
unfolding held
restore_held b c d x e f g h = rw (e, g, f, h) (omega int_laws)

module _ {Chain : Type 0} (pool user : Address) (pb : PoolBalance) (ub : UserBalance) where
  pub write_user_last :
      {s s₁ : Storage Chain}
      → SameBalances s s₁
      → Writes pool user pb ub s (set_user_balance pool user ub (set_pool_balance pool pb s₁))
  unfolding set_user_balance set_pool_balance
  write_user_last same = ground arith

  write_pool_last :
      {s s₁ : Storage Chain}
      → SameBalances s s₁
      → Writes pool user pb ub s (set_pool_balance pool pb (set_user_balance pool user ub s₁))
  unfolding set_user_balance set_pool_balance
  write_pool_last same = ground arith

  Writes-then :
      {s s₁ s₂ : Storage Chain}
      → Writes pool user pb ub s s₁
      → SameBalances s₁ s₂
      → Writes pool user pb ub s s₂
  Writes-then w same = ground arith

module _ {Chain : Type 0} where
  SameBalances-trans :
      {s s₁ s₂ : Storage Chain} → SameBalances s s₁ → SameBalances s₁ s₂ → SameBalances s s₂
  SameBalances-trans a b = ground arith

module _ {Chain : Type 0} (math : FixedPoint) (tokens : TokenClient Chain)
    (deps : Dependencies Chain) (e : Env) where
  -- A deposit adds the minted shares to the pool and to the depositor.
  pub execute_deposit-IsBalanced :
      (from pool : Address) (x : ℤ) (s : Storage Chain)
      → IsBalanced s
      → Ensures (λ r. IsBalanced r.1) (execute_deposit math tokens deps e from pool x s)
  unfolding execute_deposit
  execute_deposit-IsBalanced from pool x s inv =
      let pb = get_pool_balance pool s in
      let ub = get_user_balance pool from s in
      Ensures-panic_if (ltb_ℤ x (pos 0)) _ _ λ _.
        Ensures-panic_if (from == pool || from == e.current_contract_address) _ _ λ _.
          Ensures-bind (require_is_from_pool_factory deps pool pb.shares s) _ λ _ _.
            Ensures-bind (update_emissions math e pool pb from ub s) _ λ s₁ e₁.
              Ensures-bind (transfer_backstop_token tokens from e.current_contract_address x s₁) _
                λ s₂ e₂. Ensures-bind (convert_to_shares math x pb) _ λ m _.
                  Ensures-panic_if (eqb_ℤ m (pos 0)) _ _ λ _.
                    Ensures-bind (deposit x m pb) _ λ pb' ep.
                      Ensures-bind (add_shares m ub) _ λ ub' eu.
                        let p = deposit_lem x m pb ep in
                        let u = add_shares_lem m ub eu in
                        let same =
                          SameBalances-trans
                            (update_emissions-SameBalances math e pool pb from ub s e₁)
                            (transfer-SameBalances tokens from e.current_contract_address x s₁
                              e₂) in
                        Ensures-ok _ (
                          Writes-IsBalanced pool from pb' ub'
                            (write_user_last pool from pb' ub' same)
                            (deposit_books pb pb' ub ub' m p.1 u.0 u.1)
                            (ap₂ (λ a b. a +ℤ queue_sum b) p.2 (sym u.1)) inv)

  -- Queueing moves shares within the depositor's balance.
  pub execute_queue_withdrawal-IsBalanced :
      (from pool : Address) (x : ℤ) (s : Storage Chain)
      → IsBalanced s
      → Ensures (λ r. IsBalanced r.1) (execute_queue_withdrawal math tokens deps e from pool x s)
  unfolding execute_queue_withdrawal
  execute_queue_withdrawal-IsBalanced from pool x s inv =
      let pb = get_pool_balance pool s in
      let ub = get_user_balance pool from s in
      Ensures-panic_if (ltb_ℤ x (pos 0)) _ _ λ _.
        Ensures-bind (update_emissions math e pool pb from ub s) _ λ s₁ e₁.
          Ensures-bind (queue_shares_for_withdrawal e x ub) _ λ ub' eu.
            Ensures-bind (queue_for_withdraw x pb) _ λ pb' ep.
              Ensures-bind (unwrap (last ub'.q4w)) _ λ _ _.
                let p = queue_for_withdraw_lem x pb ep in
                let same = update_emissions-SameBalances math e pool pb from ub s e₁ in
                Ensures-ok _ (
                  Writes-IsBalanced pool from pb' ub' (write_pool_last pool from pb' ub' same)
                    (ap₂ ◌+ℤ◌ p.0 (sym (queue_shares-held e x ub eu)))
                    (queue_books pb pb' ub ub' x p.1 (queue_shares-queue_sum e x ub eu)) inv)

  -- Dequeueing moves them back.
  pub execute_dequeue_withdrawal-IsBalanced :
      (from pool : Address) (x : ℤ) (s : Storage Chain)
      → IsBalanced s
      → Ensures IsBalanced (execute_dequeue_withdrawal math tokens deps e from pool x s)
  unfolding execute_dequeue_withdrawal
  execute_dequeue_withdrawal-IsBalanced from pool x s inv =
      let pb = get_pool_balance pool s in
      let ub = get_user_balance pool from s in
      Ensures-panic_if (ltb_ℤ x (pos 0)) _ _ λ nonneg.
        Ensures-bind (update_emissions math e pool pb from ub s) _ λ s₁ e₁.
          Ensures-bind (dequeue_shares_for_withdrawal e x false ub) _ λ mid em.
            Ensures-bind (add_shares x mid) _ λ ub' eu. Ensures-bind (dequeue_q4w x pb) _ λ pb' ep.
              let p = dequeue_q4w_lem x pb ep in
              let m = dequeue_shares_sum e x false ub (ground arith) em in
              let u = add_shares_lem x mid eu in
              let same = update_emissions-SameBalances math e pool pb from ub s e₁ in
              Ensures-ok _ (
                Writes-IsBalanced pool from pb' ub' (write_pool_last pool from pb' ub' same)
                  (ap₂ ◌+ℤ◌ p.0 (sym (restore_held ub mid ub' x m.0 m.1 u.0 u.1)))
                  (dequeue_books pb pb' ub ub' x p.1 (rw u.1 m.0)) inv)

  -- A withdrawal takes the shares off the queue and off the pool.
  pub execute_withdraw-IsBalanced :
      (from pool : Address) (x : ℤ) (s : Storage Chain)
      → IsBalanced s
      → Ensures (λ r. IsBalanced r.1) (execute_withdraw math tokens deps e from pool x s)
  unfolding execute_withdraw
  execute_withdraw-IsBalanced from pool x s inv =
      let pb = get_pool_balance pool s in
      let ub = get_user_balance pool from s in
      Ensures-panic_if (ltb_ℤ x (pos 0)) _ _ λ nonneg.
        Ensures-bind (dequeue_shares_for_withdrawal e x true ub) _ λ ub' eu.
          Ensures-bind (convert_to_tokens math x pb) _ λ t _.
            Ensures-panic_if (eqb_ℤ t (pos 0)) _ _ λ _. Ensures-bind (withdraw t x pb) _ λ pb' ep.
              Ensures-bind (transfer_backstop_token tokens e.current_contract_address from t _) _
                λ s₂ e₂.
                  let p = withdraw_lem t x pb ep in
                  let u = dequeue_shares_sum e x true ub (ground arith) eu in
                  let same = transfer-SameBalances tokens e.current_contract_address from t _ e₂ in
                  Ensures-ok _ (
                    Writes-IsBalanced pool from pb' ub'
                      (Writes-then pool from pb' ub'
                        (write_pool_last pool from pb' ub' (record { users = refl; pools = refl }))
                        same)
                      (withdraw_books pb pb' ub ub' x p.1 u.1 u.0)
                      (dequeue_books pb pb' ub ub' x p.2 u.0) inv)
