-- ===== src/Pool/Config/Lock.antt =====
-- The lock on a queued reserve: pool/src/pool/config.rs.
use blend_contracts.Base.{
  unwrap_ok, ℕ, ◌+◌, ◌≤◌, ◌≡◌, ◌⊎◌, inl, inr, sym, ap, ◌∙◌, Bool-cases, true, arith, ◌==◌, ltb,
  if◌then◌else◌, some, ok, >>=-eq-ok, panic_if, pool_error, PoolError, add_u, Ensures, Ensures-ok,
  Ensures-bind, Ensures-panic_if,
}
use blend_contracts.Base.Map.{nat_key, lookup, lookup-insert}
use blend_contracts.Base.FixedPoint.{FixedPoint}
use blend_contracts.Base.Host.{Address, Env}
use blend_contracts.Pool.State.{
  PoolConfig, ReserveConfig, QueuedReserveInit, Storage, seconds_per_week, get_pool_config,
  get_queued_reserve_set, has_queued_reserve_set, set_queued_reserve_set,
}
use blend_contracts.Pool.Config.{
  require_valid_reserve_metadata, execute_queue_set_reserve, execute_set_reserve,
}

module _ {Chain : Type 0} where
  -- The entry that a queue call leaves.
  queued_entry :
      (e : Env) (asset : Address) (metadata : ReserveConfig) (s : Storage Chain)
      → Ensures
          (λ s'.
            (q : QueuedReserveInit) × (lookup asset s'.queued_reserves ≡ some q)
            × ((e.timestamp + seconds_per_week ≤ q.unlock_time)
                ⊎ ((c : PoolConfig) × (get_pool_config s ≡ ok c) × (c.status ≡ 6))))
          (execute_queue_set_reserve e asset metadata s)
  unfolding execute_queue_set_reserve set_queued_reserve_set add_u
  queued_entry e asset metadata s = Ensures-panic_if (has_queued_reserve_set asset s) _ _ λ _.
      Ensures-bind (require_valid_reserve_metadata metadata) _ λ _ _.
        Ensures-bind (get_pool_config s) _ λ c ec.
          Ensures-bind
            (if c.status == 6 then ok e.timestamp else add_u 64 e.timestamp seconds_per_week) _
            λ unlock eu.
              let q : QueuedReserveInit = record { new_config = metadata; unlock_time = unlock } in
              Ensures-ok _ (
                q,
                lookup-insert asset asset q s.queued_reserves
                    ∙ ap (λ b. if b then some q else lookup asset s.queued_reserves) (same asset),
                elim (Bool-cases (c.status == 6)) [
                  | inl t ↦ inr (c, ec, ground arith)
                  | inr f ↦ inl (locked e.timestamp unlock (rw f at eu))
                ],
              )
    where
      same : (a : Address) → (a == a) ≡ true
      same a = ground arith

      locked :
          (t unlock : ℕ) → add_u 64 t seconds_per_week ≡ ok unlock → t + seconds_per_week ≤ unlock
      locked t unlock h = ground arith

  -- The entry that a call to set a reserve finds is unlocked.
  unlocked_entry :
      (e : Env) (math : FixedPoint) (asset : Address) (s : Storage Chain) (r : ℕ × Storage Chain)
      → execute_set_reserve e math asset s ≡ ok r
      → (q : QueuedReserveInit) × (lookup asset s.queued_reserves ≡ some q)
        × (q.unlock_time ≤ e.timestamp)
  unfolding execute_set_reserve get_queued_reserve_set
  unlocked_entry e math asset s r h =
      let a = >>=-eq-ok (get_queued_reserve_set asset s) _ h in
      let b =
        >>=-eq-ok
          (panic_if (ltb e.timestamp a.0.unlock_time) (pool_error PoolError.init_not_unlocked)) _
          a.2 in
      (a.0, unwrap_ok _ a.1, timely e.timestamp a.0.unlock_time b.1)
    where
      timely :
          (t u : ℕ) → panic_if (ltb t u) (pool_error PoolError.init_not_unlocked) ≡ ok tt → u ≤ t
      timely t u h = ground arith

  -- A reserve that was queued is only set a week later, as long as its entry in the queue is the same,
  -- unless the pool was in setup (6) when it was queued.
  pub queued_reserve_lock :
      (e e' : Env) (math : FixedPoint) (asset : Address) (metadata : ReserveConfig)
      (s s₁ t : Storage Chain) (r : ℕ × Storage Chain)
      → execute_queue_set_reserve e asset metadata s ≡ ok s₁
      → lookup asset t.queued_reserves ≡ lookup asset s₁.queued_reserves
      → execute_set_reserve e' math asset t ≡ ok r
      → (e.timestamp + seconds_per_week ≤ e'.timestamp)
        ⊎ ((c : PoolConfig) × (get_pool_config s ≡ ok c) × (c.status ≡ 6))
  queued_reserve_lock e e' math asset metadata s s₁ t r hq same hs =
      let q = (queued_entry e asset metadata s).at s₁ hq in
      let u = unlocked_entry e' math asset t r hs in
      let found : some u.0 ≡ some q.0 = sym u.1 ∙ same ∙ q.1 in
      let found' : u.0 ≡ q.0 = cc in
      let time = ap (λ x. x.unlock_time) found' in
      elim q.2 [ inl late ↦ inl (let v = u.2 in omega arith) | inr setup ↦ inr setup ]
