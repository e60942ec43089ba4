-- ===== src/Pool/Safety.antt =====
-- The health of a user after a submit: pool/src/pool/submit.rs and pool/src/pool/actions.rs.
use blend_contracts.Base.{
  ℕ, ◌<◌, ◌≡◌, ◌⊎◌, inl, inr, refl, sym, ap, ◌∙◌, Bool, true, false, ◌&&◌, ◌||◌, not, Bool-cases,
  List, [], ◌∷◌, arith, ◌==◌, ltb, if◌then◌else◌, ℤ, pos, ok, unwrap, Ensures, Ensures-ok,
  Ensures-bind, Ensures-panic_if,
}
use blend_contracts.Base.Map.{Map}
use blend_contracts.Base.Host.{Address, Env, require_auth}
use blend_contracts.Pool.State.{Positions, Storage, scalar_7}
use blend_contracts.Pool.Cache.{
  Pool, load_pool, effective_count, require_under_max, store_cached_reserves,
}
use blend_contracts.Pool.Health.{PositionData, calculate_from_positions, is_hf_under}
use blend_contracts.Pool.User.{load_user, has_liabilities, is_empty}
use blend_contracts.Pool.Outside.{Outside}
use blend_contracts.Pool.Actions.{
  Request, RequestType, Building, from_u32, build_request, build_loop, build_actions_from_request,
}
use blend_contracts.Pool.Submit.{min_health, transfer_loop, require_healthy, execute_submit, submit}
use blend_contracts.Pool.Ledger.Build.{sets_check, request-IsBuilt}

-- One of the requests is of a type after which the user's health is checked.
pub data HasCheck : List Request → Type 0 where
  here :
      (request : Request) (rest : List Request) (t : RequestType)
      → from_u32 request.request_type ≡ ok t
      → sets_check t ≡ true
      → HasCheck (request ∷ rest)
  there : (request : Request) (rest : List Request) → HasCheck rest → HasCheck (request ∷ rest)

module _ {Chain : Type 0} (o : Outside Chain) (e : Env) where
  -- The positions that a submit ends with, and the data on which their health was found good, from the
  -- reserves and the storage that the requests led to.
  pub record IsHealthy (from : Address) (requests : List Request) (s : Storage Chain)
      (p : Positions) : Type 0 where
    pub start : Pool
    pub built : Building Chain
    pub position_data : PositionData
    pub valued_pool : Pool
    pub loaded : load_pool s ≡ ok start
    pub built_from : build_actions_from_request o e start from requests s ≡ ok built
    pub positions : p ≡ built.w.user.positions
    pub valued :
        calculate_from_positions o.math o.oracle e p built.w.storage built.w.pool
        ≡ ok (position_data, valued_pool)
    pub healthy : is_hf_under o.math min_health position_data ≡ ok false

  kept_loop :
      (requests : List Request) (b : Building Chain)
      → b.check_health ≡ true
      → Ensures (λ b'. b'.check_health ≡ true) (build_loop o e requests b)
  unfolding build_loop
  kept_loop [] b h = Ensures-ok b h
  kept_loop (request ∷ rest) b h = Ensures-bind (build_request o e request b) _ λ b₁ e₁.
      let q = (request-IsBuilt o e request b).at b₁ e₁ in kept_loop rest b₁ (q.2.checks (inl h))

  checked_loop :
      (requests : List Request) (b : Building Chain)
      → HasCheck requests
      → Ensures (λ b'. b'.check_health ≡ true) (build_loop o e requests b)
  unfolding build_loop
  checked_loop [] b h = elim h [ ]
  checked_loop (request ∷ rest) b (here _ _ t et h) =
      Ensures-bind (build_request o e request b) _ λ b₁ e₁.
        let q = (request-IsBuilt o e request b).at b₁ e₁ in
        let same : ok t ≡ ok q.0 = sym et ∙ q.1 in
        let g : t ≡ q.0 = cc in kept_loop rest b₁ (q.2.checks (inr (ap sets_check (sym g) ∙ h)))
  checked_loop (request ∷ rest) b (there _ _ h) =
      Ensures-bind (build_request o e request b) _ λ b₁ e₁. checked_loop rest b₁ h

  checked_build :
      (pool : Pool) (from : Address) (requests : List Request) (s : Storage Chain)
      → HasCheck requests
      → Ensures (λ b. b.check_health ≡ true) (build_actions_from_request o e pool from requests s)
  unfolding build_actions_from_request
  checked_build pool from requests s h =
      let u = load_user from s in
      Ensures-bind (effective_count u.positions) _ λ n _.
        let b₀ : Building Chain = record {
          w = record { user = u; pool = pool; storage = s };
          actions = record { spender_transfer = []; pool_transfer = [] };
          check_health = false;
        } in
        Ensures-bind (build_loop o e requests b₀) _ λ b eb.
          Ensures-bind (require_under_max b.w.user.positions n b.w.pool) _
            λ _ _. Ensures-ok b ((checked_loop requests b₀ h).at b eb)

  -- What the check of a user's health has found.
  abbrev IsChecked : Building Chain → Type 0
  IsChecked b =
      (d : PositionData) × (p : Pool) × (calculate_from_positions o.math o.oracle e
          b.w.user.positions b.w.storage b.w.pool
        ≡ ok (d, p))
      × (is_hf_under o.math min_health d ≡ ok false)

  not_under : (x y : Bool) → x && (not y && true) ≡ false → x ≡ true → y ≡ true
  not_under x y h k = ground arith

  healthy_lem :
      (b : Building Chain)
      → b.check_health ≡ true
      → o.deployment_seq < e.sequence
      → Ensures
          (λ p. (is_empty b.w.user.positions.liabilities ≡ true) ⊎ IsChecked b)
          (require_healthy o e b)
  unfolding require_healthy has_liabilities
  healthy_lem b h late =
      Ensures-bind
        (calculate_from_positions o.math o.oracle e b.w.user.positions b.w.storage b.w.pool) _
        λ d ed.
          Ensures-bind (unwrap (o.math.mul_floor d.0.scalar min_health (pos scalar_7))) _ λ _ _.
            Ensures-bind
              (if ltb o.deployment_seq e.sequence
                then is_hf_under o.math min_health d.0
                else ok false)
              _
              λ under eu.
                Ensures-panic_if (b.check_health && (has_liabilities b.w.user && under)) _ _ λ good.
                  Ensures-ok d.1 (elim (Bool-cases (is_empty b.w.user.positions.liabilities)) [
                    | inl t ↦ inl t
                    | inr f ↦
                        let l : ltb o.deployment_seq e.sequence ≡ true = ground arith in
                        let u : under ≡ false = ground (arith, good, h, f) in
                        inr (d.0, d.1, ed, (rw l at eu) ∙ ap ok u)
                  ])

  empty-nil : (m : Map ℕ ℤ) → is_empty m ≡ true → m ≡ []
  empty-nil [] h = refl
  empty-nil (x ∷ m) h = absurd (cc h)

  -- After the ledger of the deployment, a submit with a request to borrow, to withdraw collateral, to
  -- fill an auction of positions or of bad debt, or to delete a liquidation, wherever it stands in the
  -- list, only goes through if the user ends without liabilities, or with a health that is not found
  -- under 1.00001, as the reserves stand after all requests.
  pub submit-IsHealthy :
      (from spender to : Address) (requests : List Request) (s : Storage Chain)
      → HasCheck requests
      → o.deployment_seq < e.sequence
      → Ensures
          (λ r. (r.0.liabilities ≡ []) ⊎ IsHealthy from requests s r.0)
          (submit o e from spender to requests s)
  unfolding submit execute_submit
  submit-IsHealthy from spender to requests s h late =
      Ensures-bind (require_auth e spender) _ λ _ _.
        Ensures-bind (if from == spender then ok tt else require_auth e from) _ λ _ _.
          Ensures-panic_if
            (from == e.current_contract_address
              || (spender == e.current_contract_address || to == e.current_contract_address))
            _ _
            λ _. Ensures-bind (load_pool s) _ λ pool ep.
              Ensures-bind (build_actions_from_request o e pool from requests s) _ λ b eb.
                Ensures-bind (require_healthy o e b) _ λ q eq.
                  let st = b.w.storage in
                  let c =
                    transfer_loop o.tokens spender e.current_contract_address
                      b.actions.spender_transfer st.chain in
                  Ensures-bind (store_cached_reserves q (record st { chain = c })) _ λ stored _.
                    Ensures-ok _
                      (elim ((healthy_lem b ((checked_build pool from requests s h).at b eb)
                          late).at
                        q eq) [
                          | inl t ↦ inl (empty-nil b.w.user.positions.liabilities t)
                          | inr (d, p, v, g) ↦ inr (record {
                            start = pool;
                            built = b;
                            position_data = d;
                            valued_pool = p;
                            loaded = ep;
                            built_from = eb;
                            positions = refl;
                            valued = v;
                            healthy = g;
                          })
                        ])
