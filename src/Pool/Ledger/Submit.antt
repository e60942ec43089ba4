-- ===== src/Pool/Ledger/Submit.antt =====
-- The books over a whole submit: pool/src/pool/submit.rs.
use blend_contracts.Base.{
  refl, false, ◌&&◌, ◌||◌, List, [], ◌==◌, ltb, if◌then◌else◌, pos, ok, unwrap, Ensures, Ensures-ok,
  Ensures-bind, Ensures-panic_if,
}
use blend_contracts.Base.Map.{nat_key}
use blend_contracts.Base.Host.{Address, Env, require_auth}
use blend_contracts.Pool.State.{Storage, scalar_7}
use blend_contracts.Pool.Cache.{
  Pool, load_pool, effective_count, require_under_max, store_cached_reserves,
}
use blend_contracts.Pool.Health.{calculate_from_positions, is_hf_under}
use blend_contracts.Pool.User.{load_user, store_user, has_liabilities}
use blend_contracts.Pool.Outside.{Outside}
use blend_contracts.Pool.Actions.{Request, Building, build_loop, build_actions_from_request}
use blend_contracts.Pool.Submit.{min_health, transfer_loop, require_healthy, execute_submit, submit}
use blend_contracts.Pool.Ledger.{Matches}
use blend_contracts.Pool.Ledger.Totals.{all_debts, all_claims}
use blend_contracts.Pool.Ledger.Keep.{keep-Matches}
use blend_contracts.Pool.Ledger.Stored.{store_cached-IsSettled}
use blend_contracts.Pool.Ledger.Pending.{IsPending, with_pending}
use blend_contracts.Pool.Ledger.Build.{loop-IsPending}
use blend_contracts.Pool.Ledger.Health.{calculate-Matches}
use blend_contracts.Pool.Ledger.Accounts.{
  IsAccounted, start-Matches, start-IsPending, store_user-settled, chain-IsAccounted,
}

module _ {Chain : Type 0} (o : Outside Chain) (e : Env) where
  build-IsPending :
      (pool : Pool) (from : Address) (requests : List Request) (s : Storage Chain)
      → Matches (all_debts s.positions) (all_claims s.positions) s pool
      → Ensures (λ b. IsPending b.w) (build_actions_from_request o e pool from requests s)
  unfolding build_actions_from_request
  build-IsPending pool from requests s m =
      let u = load_user from s in
      Ensures-bind (effective_count u.positions) _ λ n _.
        let b₀ : Building Chain = record {
          w = record { user = u; pool = pool; storage = s };
          actions = record { spender_transfer = []; pool_transfer = [] };
          check_health = false;
        } in
        Ensures-bind (build_loop o e requests b₀) _ λ b eb.
          Ensures-bind (require_under_max b.w.user.positions n b.w.pool) _ λ _ _.
            Ensures-ok b ((loop-IsPending o e requests b₀ (start-IsPending from s pool m)).at b eb)

  healthy-Matches :
      (b : Building Chain)
      → IsPending b.w
      → Ensures
          (Matches
            (all_debts (with_pending b.w.user b.w.storage))
            (all_claims (with_pending b.w.user b.w.storage))
            b.w.storage)
          (require_healthy o e b)
  unfolding require_healthy
  healthy-Matches b p =
      Ensures-bind
        (calculate_from_positions o.math o.oracle e b.w.user.positions b.w.storage b.w.pool) _
        λ d ed.
          Ensures-bind (unwrap (o.math.mul_floor d.0.scalar min_health (pos scalar_7))) _ λ _ _.
            Ensures-bind
              (if ltb o.deployment_seq e.sequence
                then is_hf_under o.math min_health d.0
                else ok false)
              _
              λ under _.
                Ensures-panic_if (b.check_health && (has_liabilities b.w.user && under)) _ _ λ _.
                  Ensures-ok d.1 (
                    (calculate-Matches _ _ b.w.storage o.math e b.w.user.positions o.oracle b.w.pool
                        p.books).at
                      d ed)

  execute_submit-IsAccounted :
      (from spender to : Address) (requests : List Request) (s : Storage Chain)
      → IsAccounted s
      → Ensures (λ r. IsAccounted r.1) (execute_submit o e from spender to requests s)
  unfolding execute_submit
  execute_submit-IsAccounted from spender to requests s a =
      Ensures-panic_if
        (from == e.current_contract_address
          || (spender == e.current_contract_address || to == e.current_contract_address))
        _ _
        λ _. Ensures-bind (load_pool s) _ λ pool ep.
          Ensures-bind (build_actions_from_request o e pool from requests s) _ λ b eb.
            let p =
              (build-IsPending pool from requests s ((start-Matches s a).at pool ep)).at b eb in
            Ensures-bind (require_healthy o e b) _ λ q eq.
              let m = (healthy-Matches b p).at q eq in
              let st = b.w.storage in
              let c =
                transfer_loop o.tokens spender e.current_contract_address b.actions.spender_transfer
                  st.chain in
              let st' : Storage Chain = record st { chain = c } in
              Ensures-bind (store_cached_reserves q st') _ λ stored es.
                let t =
                  (store_cached-IsSettled _ _ q st' (
                      keep-Matches _ _ _ _ (λ i. refl) (λ i. refl) st st' q q refl refl refl refl
                        refl m)).at
                    stored es in
                Ensures-ok _ (
                  chain-IsAccounted (store_user b.w.user stored) _
                    (store_user-settled b.w.user st' stored _ t refl))

  -- Where each reserve's d and b supply is the sum of what all users owe and hold in it, it still is
  -- after a submit of any requests, fills of auctions and write-offs included.
  pub submit-IsAccounted :
      (from spender to : Address) (requests : List Request) (s : Storage Chain)
      → IsAccounted s
      → Ensures (λ r. IsAccounted r.1) (submit o e from spender to requests s)
  unfolding submit
  submit-IsAccounted from spender to requests s a = Ensures-bind (require_auth e spender) _ λ _ _.
      Ensures-bind (if from == spender then ok tt else require_auth e from) _
        λ _ _. execute_submit-IsAccounted from spender to requests s a
