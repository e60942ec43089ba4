-- ===== src/Pool/Ledger/Run.antt =====
-- The books over all calls of the pool contract: pool/src/contract.rs.
use blend_contracts.Base.{
  ◌≡◌, refl, sym, ap, ◌∙◌, some, List, [], ◌∷◌, Outcome, Ensures, Ensures-ok, Ensures-bind, settle,
  settle_keeps,
}
use blend_contracts.Base.Map.{nat_key, lookup, total}
use blend_contracts.Base.Host.{Address, Env}
use blend_contracts.Pool.State.{ReserveConfig, ReserveData, Storage}
use blend_contracts.Pool.Emissions.Frame.{Kept}
use blend_contracts.Pool.Outside.{Outside}
use blend_contracts.Pool.Calls.{
  Call, initialize_call, set_admin_call, cancel_set_reserve_call, set_reserve_call, bad_debt_call,
  update_pool_call, queue_set_reserve_call, submit_call, update_status_call, gulp_emissions_call,
  new_bad_debt_auction_call, set_status_call, set_emissions_config_call, claim_call,
  new_liquidation_auction_call, new_interest_auction_call, second, execute_call, Step, called,
  others, step, run, deployed,
}
use blend_contracts.Pool.Ledger.Totals.{all_debts, all_claims}
use blend_contracts.Pool.Ledger.Keep.{keep-IsListed}
use blend_contracts.Pool.Ledger.Accounts.{IsAccounted}
use blend_contracts.Pool.Ledger.Submit.{submit-IsAccounted}
use blend_contracts.Pool.Ledger.BadDebt.{bad_debt-IsAccounted}
use blend_contracts.Pool.Ledger.Reserves.{set_reserve-IsAccounted}
use blend_contracts.Pool.Ledger.Others.{chain-Kept, gulp-Kept}
use blend_contracts.Pool.Ledger.Admin.{
  initialize-Kept, set_admin-Kept, update_pool-Kept, queue-Kept, cancel-Kept, status-Kept,
  set_status-Kept, set_emissions_config-Kept, contract_claim-Kept,
}
use blend_contracts.Pool.Ledger.Created.{liquidation-Kept, new_bad_debt-Kept, new_interest-Kept}

second-Ensures :
    {A B : Type 0} (P : B → Type 0) (o : Outcome (A × B))
    → Ensures (λ r. P r.1) o
    → Ensures P (second o)
unfolding second
second-Ensures P o h = Ensures-bind o _ λ r er. Ensures-ok _ (h.at r er)

module _ {Chain : Type 0} where
  Kept-IsAccounted : (s s' : Storage Chain) → Kept s s' → IsAccounted s → IsAccounted s'
  Kept-IsAccounted s s' k a = record {
    places =
        keep-IsListed _ _ _ _ (λ i. ap (λ m. all_debts m i) k.positions)
          (λ i. ap (λ m. all_claims m i) k.positions) s s' k.res_configs k.res_list a.places;
    booked = λ asset config d h g.
        let b =
          a.booked asset config d (ap (lookup asset) (sym k.res_configs) ∙ h)
            (ap (lookup asset) (sym k.res_data) ∙ g) in
        record {
          debts = b.debts ∙ sym (ap (λ m. all_debts m config.index) k.positions);
          claims = b.claims ∙ sym (ap (λ m. all_claims m config.index) k.positions);
        };
  }

  Kept-Ensures :
      (s : Storage Chain) (o : Outcome (Storage Chain))
      → IsAccounted s
      → Ensures (Kept s) o
      → Ensures IsAccounted o
  Kept-Ensures s o a h = record { at = λ s' e. Kept-IsAccounted s s' (h.at s' e) a }

module _ {Chain : Type 0} (o : Outside Chain) (e : Env) where
  -- The calls that write neither reserves nor positions.
  second-Kept :
      {A : Type 0} (s : Storage Chain) (r : Outcome (A × Storage Chain))
      → IsAccounted s
      → Ensures (λ x. Kept s x.1) r
      → Ensures IsAccounted (second r)
  second-Kept s r a h = Kept-Ensures s (second r) a (second-Ensures (Kept s) r h)

  pub call-IsAccounted :
      (c : Call) (s : Storage Chain) → IsAccounted s → Ensures IsAccounted (execute_call o e c s)
  unfolding execute_call
  call-IsAccounted (initialize_call admin oracle rate n backstop blnd) s a =
      Kept-Ensures s _ a (initialize-Kept o e admin oracle rate n backstop blnd s)
  call-IsAccounted (set_admin_call new) s a = Kept-Ensures s _ a (set_admin-Kept o e new s)
  call-IsAccounted (cancel_set_reserve_call asset) s a =
      Kept-Ensures s _ a (cancel-Kept o e asset s)
  call-IsAccounted (set_reserve_call asset) s a =
      second-Ensures IsAccounted _ (set_reserve-IsAccounted e o.math asset s a)
  call-IsAccounted (bad_debt_call user) s a = bad_debt-IsAccounted o e user s a
  call-IsAccounted (update_pool_call rate n) s a =
      Kept-Ensures s _ a (update_pool-Kept o e rate n s)
  call-IsAccounted (queue_set_reserve_call asset metadata) s a =
      Kept-Ensures s _ a (queue-Kept o e asset metadata s)
  call-IsAccounted (submit_call from spender to requests) s a =
      second-Ensures IsAccounted _ (submit-IsAccounted o e from spender to requests s a)
  call-IsAccounted update_status_call s a = second-Kept s _ a (status-Kept o e s)
  call-IsAccounted gulp_emissions_call s a = second-Kept s _ a (gulp-Kept o.math e _ s)
  call-IsAccounted new_bad_debt_auction_call s a = second-Kept s _ a (new_bad_debt-Kept o e s)
  call-IsAccounted (set_status_call status) s a = Kept-Ensures s _ a (set_status-Kept o e status s)
  call-IsAccounted (set_emissions_config_call metadata) s a =
      Kept-Ensures s _ a (set_emissions_config-Kept o e metadata s)
  call-IsAccounted (claim_call from ids to) s a =
      second-Kept s _ a (contract_claim-Kept o e from ids to s)
  call-IsAccounted (new_liquidation_auction_call user percent) s a =
      second-Kept s _ a (liquidation-Kept o e user percent s)
  call-IsAccounted (new_interest_auction_call assets) s a =
      second-Kept s _ a (new_interest-Kept o e assets s)

module _ {Chain : Type 0} (o : Outside Chain) where
  run-IsAccounted :
      (steps : List (Step Chain)) (s : Storage Chain) → IsAccounted s → IsAccounted (run o steps s)
  unfolding run step
  run-IsAccounted [] s a = a
  run-IsAccounted (called e c ∷ steps) s a =
      run-IsAccounted steps (settle (execute_call o e c s) s)
        (settle_keeps IsAccounted (execute_call o e c s) s a (call-IsAccounted o e c s a))
  run-IsAccounted (others chain ∷ steps) s a =
      run-IsAccounted steps (record s { chain = chain })
        (Kept-IsAccounted s _ (chain-Kept s chain) a)

  deployed-IsAccounted : (chain : Chain) → IsAccounted (deployed chain)
  unfolding lookup all_debts all_claims total
  deployed-IsAccounted chain = record {
    places = record { listed = λ asset config h. absurd (cc h); unlisted = λ i h. (refl, refl) };
    booked = λ asset config d h g. absurd (cc h);
  }

  -- After any sequence of calls of the pool since its deployment, by anyone and with any arguments, at
  -- any times and with other contracts changing in between, each reserve's d supply is the sum of all
  -- users' liabilities in it, and its b supply that of all their collateral and supply.
  pub run_supplies :
      (steps : List (Step Chain)) (chain : Chain) (asset : Address) (config : ReserveConfig)
      (d : ReserveData)
      → lookup asset (run o steps (deployed chain)).res_configs ≡ some config
      → lookup asset (run o steps (deployed chain)).res_data ≡ some d
      → (d.d_supply ≡ all_debts (run o steps (deployed chain)).positions config.index)
        × (d.b_supply ≡ all_claims (run o steps (deployed chain)).positions config.index)
  run_supplies steps chain asset config d h g =
      let a = run-IsAccounted steps (deployed chain) (deployed-IsAccounted chain) in
      let b = a.booked asset config d h g in (b.debts, b.claims)
