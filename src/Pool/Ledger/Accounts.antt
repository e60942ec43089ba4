-- ===== src/Pool/Ledger/Accounts.antt =====
-- The books of the pool between calls: pool/src/storage.rs.
use blend_contracts.Base.{
  ℕ, ◌≡◌, refl, sym, ap, ◌∙◌, some, ℤ, int_laws, Ensures, Ensures-ok, Ensures-bind,
}
use blend_contracts.Base.Map.{nat_key, lookup, insert}
use blend_contracts.Base.Host.{Address}
use blend_contracts.Pool.State.{
  ReserveConfig, ReserveData, Storage, get_pool_config, set_user_positions,
}
use blend_contracts.Pool.Cache.{Pool, load_pool}
use blend_contracts.Pool.User.{User, load_user, store_user}
use blend_contracts.Pool.Ledger.{IsBooked, IsListed, Matches}
use blend_contracts.Pool.Ledger.Totals.{
  position_debt, position_claims, all_debts, all_claims, insert-all_debts, insert-all_claims,
  load_user-positions,
}
use blend_contracts.Pool.Ledger.Keep.{keep-IsListed, keep-Matches}
use blend_contracts.Pool.Ledger.Stored.{IsSettled}
use blend_contracts.Pool.Ledger.Pending.{IsPending, with_pending}

-- The books of the pool: each reserve's supplies are the sums of all users' positions in it, each
-- reserve has its own place in the list, and there are no positions beyond the list.
pub record IsAccounted {Chain : Type 0} (s : Storage Chain) : Type 0 where
  pub places : IsListed (all_debts s.positions) (all_claims s.positions) s
  pub booked :
      (asset : Address) (config : ReserveConfig) (d : ReserveData)
      → lookup asset s.res_configs ≡ some config
      → lookup asset s.res_data ≡ some d
      → IsBooked (all_debts s.positions) (all_claims s.positions) config d

module _ {Chain : Type 0} where
  -- The memory of a call starts empty.
  pub start-Matches :
      (s : Storage Chain)
      → IsAccounted s
      → Ensures (Matches (all_debts s.positions) (all_claims s.positions) s) (load_pool s)
  unfolding load_pool lookup
  start-Matches s a = Ensures-bind (get_pool_config s) _ λ config _. Ensures-ok _ (record {
    places = a.places;
    cached = λ asset r h. absurd (cc h);
    stored = λ asset config d h g out. a.booked asset config d h g;
  })

  -- A user in memory as stored.
  pub start-IsPending :
      (from : Address) (s : Storage Chain) (pool : Pool)
      → Matches (all_debts s.positions) (all_claims s.positions) s pool
      → IsPending (record { user = load_user from s; pool = pool; storage = s })
  unfolding load_user
  start-IsPending from s pool m = record {
    books =
        keep-Matches _ _ _ _
          (λ i.
            let p = (load_user from s).positions in
            let h = insert-all_debts i from p s.positions in
            let l = ap (λ q. position_debt i from q) (load_user-positions from s) in omega int_laws)
          (λ i.
            let p = (load_user from s).positions in
            let h = insert-all_claims i from p s.positions in
            let l = ap (λ q. position_claims i from q) (load_user-positions from s) in
            omega int_laws)
          s s pool pool refl refl refl refl refl m;
  }

  -- Stored reserves that agree with the positions which are then stored.
  pub settled-IsAccounted :
      (owed held : ℕ → ℤ) (s s₁ s₂ : Storage Chain)
      → IsSettled owed held s s₁
      → s₂.res_configs ≡ s₁.res_configs
      → s₂.res_data ≡ s₁.res_data
      → s₂.res_list ≡ s₁.res_list
      → ((i : ℕ) → all_debts s₂.positions i ≡ owed i)
      → ((i : ℕ) → all_claims s₂.positions i ≡ held i)
      → IsAccounted s₂
  settled-IsAccounted owed held s s₁ s₂ t ec ed el d c = record {
    places = keep-IsListed owed held _ _ d c s₁ s₂ ec el t.places;
    booked = λ asset config reserve_data h g.
        let b =
          t.booked asset config reserve_data (ap (lookup asset) (sym ec) ∙ h)
            (ap (lookup asset) (sym ed) ∙ g) in
        record { debts = b.debts ∙ sym (d config.index); claims = b.claims ∙ sym (c config.index) };
  }

  pub store_user-settled :
      (u : User) (s s₁ s₂ : Storage Chain)
      → IsSettled (all_debts (with_pending u s)) (all_claims (with_pending u s)) s s₁
      → s₂ ≡ store_user u s₁
      → IsAccounted s₂
  unfolding store_user set_user_positions
  store_user-settled u s s₁ s₂ t e =
      let p : s₂.positions ≡ with_pending u s =
        ap (λ x. x.positions) e ∙ ap (insert u.address u.positions) t.positions in
      settled-IsAccounted _ _ s s₁ s₂ t (ap (λ x. x.res_configs) e) (ap (λ x. x.res_data) e)
        (ap (λ x. x.res_list) e) (λ i. ap (λ m. all_debts m i) p) (λ i. ap (λ m. all_claims m i) p)

  pub chain-IsAccounted :
      (s : Storage Chain) (c : Chain) → IsAccounted s → IsAccounted (record s { chain = c })
  chain-IsAccounted s c a = record {
    places = record { listed = a.places.listed; unlisted = a.places.unlisted };
    booked = a.booked;
  }
