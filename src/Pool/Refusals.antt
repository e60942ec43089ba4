-- ===== src/Pool/Refusals.antt =====
-- The requests that a pool refuses: `build_actions_from_request` of pool/src/pool/actions.rs and
-- `require_action_allowed` of pool/src/pool/pool.rs.
use blend_contracts.Base.{
  ℕ, ◌<◌, ◌≤◌, ◌≡◌, ◌⊎◌, inl, inr, refl, ◌∙◌, false, ◌&&◌, ◌||◌, List, [], ◌∷◌, arith, ◌==◌, ltb,
  ltb_ℤ, ◌<ℤ◌, if◌then◌else◌, pos, ok, panic, Panic, settle, Outcome-cases, Ensures, Ensures-ok,
  Ensures-bind, Ensures-panic_if,
}
use blend_contracts.Base.Host.{Address, Env, require_auth}
use blend_contracts.Pool.State.{PoolConfig, Storage, get_pool_config, require_nonnegative}
use blend_contracts.Pool.Cache.{Pool, load_pool, effective_count, require_action_allowed}
use blend_contracts.Pool.User.{load_user}
use blend_contracts.Pool.Outside.{Outside}
use blend_contracts.Pool.Actions.{
  Request, RequestType, Building, from_u32, build_request, build_loop, build_actions_from_request,
}
use blend_contracts.Pool.Submit.{execute_submit, submit}
use blend_contracts.Pool.Calls.{submit_call, called, second, execute_call, step}
use blend_contracts.Pool.Settings.{load_pool-IsConfigured}
use blend_contracts.Pool.Ledger.Build.{request-IsBuilt}

-- Why a request is refused, under the status of the pool.
pub data IsRefused (status : ℕ) (request : Request) : Type 0 where
  negative : request.amount <ℤ pos 0 → IsRefused status request
  unknown : 9 < request.request_type → IsRefused status request
  not_active :
      1 < status
      → (request.request_type ≡ 4) ⊎ (request.request_type ≡ 9)
      → IsRefused status request
  frozen :
      3 < status
      → (request.request_type ≡ 0) ⊎ (request.request_type ≡ 2)
      → IsRefused status request

-- One of the requests is refused.
pub data HasRefused (status : ℕ) : List Request → Type 0 where
  here :
      (request : Request) (rest : List Request)
      → IsRefused status request
      → HasRefused status (request ∷ rest)
  there :
      (request : Request) (rest : List Request)
      → HasRefused status rest
      → HasRefused status (request ∷ rest)

known_type : (value : ℕ) (t : RequestType) → from_u32 value ≡ ok t → value ≤ 9
unfolding from_u32
known_type value t h = ground arith

admitted_lem :
    (status : ℕ) (request : Request)
    → ((ltb 1 status && (request.request_type == 4 || request.request_type == 9))
        || (ltb 3 status && (request.request_type == 2 || request.request_type == 0)))
      ≡ false
    → ltb_ℤ request.amount (pos 0) ≡ false
    → request.request_type ≤ 9
    → ¬ IsRefused status request
admitted_lem status request a n k (negative h) = ground (arith, h, n)
admitted_lem status request a n k (unknown h) = ground arith
admitted_lem status request a n k (not_active h (inl g)) = ground (arith, a, h, g)
admitted_lem status request a n k (not_active h (inr g)) = ground (arith, a, h, g)
admitted_lem status request a n k (frozen h (inl g)) = ground (arith, a, h, g)
admitted_lem status request a n k (frozen h (inr g)) = ground (arith, a, h, g)

module _ {Chain : Type 0} (o : Outside Chain) (e : Env) where
  request-IsRefused :
      (request : Request) (b : Building Chain)
      → Ensures (λ b'. ¬ IsRefused b.w.pool.config.status request) (build_request o e request b)
  unfolding build_request require_nonnegative require_action_allowed
  request-IsRefused request b = Ensures-panic_if (ltb_ℤ request.amount (pos 0)) _ _ λ n.
      Ensures-panic_if _ _ _ λ a. Ensures-bind (from_u32 request.request_type) _ λ t et. record {
        at = λ b' _.
            admitted_lem b.w.pool.config.status request a n (known_type request.request_type t et);
      }

  loop-HasRefused :
      (requests : List Request) (b : Building Chain) (c : PoolConfig)
      → b.w.pool.config ≡ c
      → Ensures (λ b'. ¬ HasRefused c.status requests) (build_loop o e requests b)
  unfolding build_loop
  loop-HasRefused [] b c h = Ensures-ok b (λ r. elim r [ ])
  loop-HasRefused (request ∷ rest) b c h = Ensures-bind (build_request o e request b) _ λ b₁ e₁.
      let q = (request-IsBuilt o e request b).at b₁ e₁ in
      let n = (request-IsRefused request b).at b₁ e₁ in
      record {
        at = λ b₂ e₂.
            not_any request rest c.status (rw h at n)
              ((loop-HasRefused rest b₁ c (q.2.config ∙ h)).at b₂ e₂);
      }
    where
      not_any :
          (request : Request) (rest : List Request) (status : ℕ)
          → ¬ IsRefused status request
          → ¬ HasRefused status rest
          → ¬ HasRefused status (request ∷ rest)
      not_any request rest status n m (here _ _ r) = n r
      not_any request rest status n m (there _ _ r) = m r

  build-HasRefused :
      (pool : Pool) (from : Address) (requests : List Request) (s : Storage Chain)
      → Ensures
          (λ b. ¬ HasRefused pool.config.status requests)
          (build_actions_from_request o e pool from requests s)
  unfolding build_actions_from_request
  build-HasRefused pool from requests s =
      let u = load_user from s in
      Ensures-bind (effective_count u.positions) _ λ n _.
        let b₀ : Building Chain = record {
          w = record { user = u; pool = pool; storage = s };
          actions = record { spender_transfer = []; pool_transfer = [] };
          check_health = false;
        } in
        Ensures-bind (build_loop o e requests b₀) _ λ b eb.
          let r = (loop-HasRefused requests b₀ pool.config refl).at b eb in record { at = λ _ _. r }

  submit-HasRefused :
      (from spender to : Address) (requests : List Request) (s : Storage Chain) (c : PoolConfig)
      → get_pool_config s ≡ ok c
      → Ensures (λ r. ¬ HasRefused c.status requests) (submit o e from spender to requests s)
  unfolding submit execute_submit load_pool
  submit-HasRefused from spender to requests s c h = Ensures-bind (require_auth e spender) _ λ _ _.
      Ensures-bind (if from == spender then ok tt else require_auth e from) _ λ _ _.
        Ensures-panic_if
          (from == e.current_contract_address
            || (spender == e.current_contract_address || to == e.current_contract_address))
          _ _
          λ _. Ensures-bind (load_pool s) _ λ pool ep.
            Ensures-bind (build_actions_from_request o e pool from requests s) _ λ b eb.
              let r = (build-HasRefused pool from requests s).at b eb in
              let k = (load_pool-IsConfigured s c h).at pool ep in
              let r' : ¬ HasRefused c.status requests = rw k at r in record { at = λ _ _. r' }

  -- A submit of which any request has a negative amount or an unknown type, borrows or deletes a
  -- liquidation in a pool that is not active, or supplies in a frozen one, wherever that request stands
  -- in the list, panics and leaves the storage as it was.
  pub submit_refused :
      (from spender to : Address) (requests : List Request) (s : Storage Chain) (c : PoolConfig)
      → get_pool_config s ≡ ok c
      → HasRefused c.status requests
      → ((p : Panic) × (submit o e from spender to requests s ≡ panic p))
        × (step o (called e (submit_call from spender to requests)) s ≡ s)
  unfolding step execute_call second settle
  submit_refused from spender to requests s c h r =
      elim (Outcome-cases (submit o e from spender to requests s)) [
        | inl f ↦ absurd ((submit-HasRefused from spender to requests s c h).at f.0 f.1 r)
        | inr f ↦ (f, rw f.1 refl)
      ]
