-- ===== src/Backstop/Ledger/Funds.antt =====
-- The calls of backstop/src that move tokens without shares, and the claim of emissions, keep the books.
use blend_contracts.Base.{
  ◌≡◌, refl, sym, ap₂, ◌∙◌, ◌||◌, ◌==◌, List, [], ◌∷◌, arith, ℤ, pos, ◌+ℤ◌, ◌-ℤ◌, ltb_ℤ, int_laws,
  or_panic, unwrap, host, Ensures, Ensures-ok, Ensures-bind, Ensures-panic_if, Ensures-if, add_i128,
  add_u, mul_u,
}
use blend_contracts.Base.FixedPoint.{FixedPoint}
use blend_contracts.Base.Map.{Map, lookup, insert, nat_key, pair_key}
use blend_contracts.Base.Host.{Address, Env, TokenClient}
use blend_contracts.Backstop.User.{add_shares}
use blend_contracts.Backstop.User.Queue.{queue_sum}
use blend_contracts.Backstop.Pool.{PoolBalance, convert_to_shares, deposit, withdraw}
use blend_contracts.Backstop.Pool.Shares.{deposit_lem, withdraw_lem}
use blend_contracts.Backstop.State.{
  Storage, Dependencies, get_user_balance, set_user_balance, get_pool_balance, set_pool_balance,
}
use blend_contracts.Backstop.Emissions.{claim_emissions}
use blend_contracts.Backstop.Execute.{
  require_is_from_pool_factory, transfer_backstop_token, execute_draw, execute_donate,
}
use blend_contracts.Backstop.Claim.{
  is_empty, claim_loop, claim_deposit_loop, deposit_claimed, execute_claim,
}
use blend_contracts.Backstop.Ledger.Write.{
  IsBalanced, Writes-IsBalanced, pool_write-IsBalanced, same-IsBalanced,
}
use blend_contracts.Backstop.Ledger.Frame.{
  SameBalances, transfer-SameBalances, claim_emissions-SameBalances,
}
use blend_contracts.Backstop.Ledger.Calls.{add_shares_lem, deposit_books, write_user_last}

plus_zero : (a : ℤ) → a +ℤ pos 0 ≡ a
plus_zero a = omega int_laws

minus_zero : (a : ℤ) → a -ℤ pos 0 ≡ a
minus_zero a = omega int_laws

module _ {Chain : Type 0} (pool : Address) (pb : PoolBalance) where
  write_pool :
      {s s₁ : Storage Chain}
      → SameBalances s s₁
      → ((set_pool_balance pool pb s₁).pool_balances ≡ insert pool pb s.pool_balances)
        × ((set_pool_balance pool pb s₁).user_balances ≡ s.user_balances)
  unfolding set_pool_balance
  write_pool same = ground arith

module _ {Chain : Type 0} (math : FixedPoint) (tokens : TokenClient Chain)
    (deps : Dependencies Chain) (e : Env) where
  -- A draw takes tokens, and no shares.
  pub execute_draw-IsBalanced :
      (pool : Address) (x : ℤ) (to : Address) (s : Storage Chain)
      → IsBalanced s
      → Ensures IsBalanced (execute_draw math tokens deps e pool x to s)
  unfolding execute_draw
  execute_draw-IsBalanced pool x to s inv =
      let pb = get_pool_balance pool s in
      Ensures-panic_if (ltb_ℤ x (pos 0)) _ _ λ _. Ensures-bind (withdraw x (pos 0) pb) _ λ pb' ep.
        let p = withdraw_lem x (pos 0) pb ep in
        let s₁ = set_pool_balance pool pb' s in
        let w = write_pool pool pb' {s = s} (record { users = refl; pools = refl }) in
        let inv₁ =
          pool_write-IsBalanced pool pb' s s₁ w.0 w.1 (p.1 ∙ minus_zero _) (p.2 ∙ minus_zero _)
            inv in
        record {
          at = λ s₂ e₂.
              let same = transfer-SameBalances tokens e.current_contract_address to x s₁ e₂ in
              same-IsBalanced s₁ s₂ same.pools same.users inv₁;
        }

  -- A donation adds tokens, and no shares.
  pub execute_donate-IsBalanced :
      (from pool : Address) (x : ℤ) (s : Storage Chain)
      → IsBalanced s
      → Ensures IsBalanced (execute_donate math tokens deps e from pool x s)
  unfolding execute_donate
  execute_donate-IsBalanced from pool x s inv =
      let pb = get_pool_balance pool s in
      Ensures-panic_if (ltb_ℤ x (pos 0)) _ _ λ _.
        Ensures-panic_if (from == pool || from == e.current_contract_address) _ _ λ _.
          Ensures-bind (require_is_from_pool_factory deps pool pb.shares s) _ λ _ _.
            Ensures-bind (transfer_backstop_token tokens from e.current_contract_address x s) _
              λ s₁ e₁. Ensures-bind (deposit x (pos 0) pb) _ λ pb' ep.
                let p = deposit_lem x (pos 0) pb ep in
                let w =
                  write_pool pool pb' {s₁ = s₁}
                    (transfer-SameBalances tokens from e.current_contract_address x s e₁) in
                Ensures-ok _ (
                  pool_write-IsBalanced pool pb' s (set_pool_balance pool pb' s₁) w.0 w.1
                    (p.1 ∙ plus_zero _) p.2 inv)

module _ {Chain : Type 0} (math : FixedPoint) (e : Env) where
  claim_loop-IsBalanced :
      (from : Address) (pools : List Address) (c : ℤ) (m : Map Address ℤ) (s : Storage Chain)
      → IsBalanced s
      → Ensures (λ r. IsBalanced r.2) (claim_loop math e from pools c m s)
  unfolding claim_loop
  claim_loop-IsBalanced from [] c m s inv = Ensures-ok _ inv
  claim_loop-IsBalanced from (p ∷ pools) c m s inv =
      let pb = get_pool_balance p s in
      let ub = get_user_balance p from s in
      Ensures-bind (claim_emissions math e p pb from ub s) _ λ r er.
        Ensures-bind (add_i128 c r.0) _ λ c' _.
          let same = claim_emissions-SameBalances math e p pb from ub s er in
          claim_loop-IsBalanced from pools c' (insert p r.0 m) r.1
            (same-IsBalanced s r.1 same.pools same.users inv)

  claim_deposit_loop-IsBalanced :
      (to : Address) (pools : List Address) (out c : ℤ) (m : Map Address ℤ) (s : Storage Chain)
      → IsBalanced s
      → Ensures IsBalanced (claim_deposit_loop math e to pools out c m s)
  unfolding claim_deposit_loop
  claim_deposit_loop-IsBalanced to [] out c m s inv = Ensures-ok _ inv
  claim_deposit_loop-IsBalanced to (p ∷ pools) out c m s inv =
      let pb = get_pool_balance p s in
      let ub = get_user_balance p to s in
      Ensures-bind (unwrap (lookup p m)) _ λ a _.
        Ensures-bind (unwrap (math.mul_floor out a c)) _ λ d _.
          Ensures-bind (convert_to_shares math d pb) _ λ k _.
            Ensures-bind (deposit d k pb) _ λ pb' ep. Ensures-bind (add_shares k ub) _ λ ub' eu.
              let q = deposit_lem d k pb ep in
              let u = add_shares_lem k ub eu in
              claim_deposit_loop-IsBalanced to pools out c m
                (set_user_balance p to ub' (set_pool_balance p pb' s))
                (Writes-IsBalanced p to pb' ub'
                  (write_user_last p to pb' ub' (record { users = refl; pools = refl }))
                  (deposit_books pb pb' ub ub' k q.1 u.0 u.1)
                  (ap₂ (λ a b. a +ℤ queue_sum b) q.2 (sym u.1)) inv)

module _ {Chain : Type 0} (math : FixedPoint) (tokens : TokenClient Chain)
    (deps : Dependencies Chain) (e : Env) where
  deposit_claimed-IsBalanced :
      (to : Address) (pools : List Address) (c : ℤ) (m : Map Address ℤ) (s : Storage Chain)
      → IsBalanced s
      → Ensures IsBalanced (deposit_claimed math deps e to pools c m s)
  unfolding deposit_claimed
  deposit_claimed-IsBalanced to pools c m s inv = Ensures-bind (unwrap s.blnd_token) _ λ blnd _.
      Ensures-bind (unwrap s.backstop_token) _ λ lp _. Ensures-bind (add_u 32 _ 1) _ λ period _.
        Ensures-bind (mul_u 32 period 100000) _ λ _ _.
          Ensures-bind
            (or_panic host (
              deps.dep_tokn_amt_in_get_lp_tokns_out s.chain lp blnd c (pos 0)
                e.current_contract_address))
            _
            λ r _.
              claim_deposit_loop-IsBalanced math e to pools r.0 c m (record s { chain = r.1 })
                (same-IsBalanced s (record s { chain = r.1 }) refl refl inv)

  -- A claim deposits what it mints for the recipient.
  pub execute_claim-IsBalanced :
      (from : Address) (pools : List Address) (to : Address) (s : Storage Chain)
      → IsBalanced s
      → Ensures (λ r. IsBalanced r.1) (execute_claim math deps e from pools to s)
  unfolding execute_claim
  execute_claim-IsBalanced from pools to s inv = Ensures-panic_if (is_empty pools) _ _ λ _.
      Ensures-bind (claim_loop math e from pools (pos 0) [] s) _ λ r er.
        let inv₁ = (claim_loop-IsBalanced math e from pools (pos 0) [] s inv).at r er in
        Ensures-if (ltb_ℤ (pos 0) r.0) _ _
          (λ _.
            Ensures-bind (deposit_claimed math deps e to pools r.0 r.1 r.2) _ λ s' es.
              Ensures-ok _ ((deposit_claimed-IsBalanced to pools r.0 r.1 r.2 inv₁).at s' es))
          (λ _. Ensures-ok _ inv₁)
