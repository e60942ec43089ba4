-- ===== src/Pool/Ledger/Keep.antt =====
-- Books that still agree where none of their entries changes: pool/src/pool/pool.rs.
use blend_contracts.Base.{nth, ℕ, ◌≡◌, inl, inr, sym, ap, ◌∙◌, ℤ}
use blend_contracts.Base.Map.{nat_key, lookup}
use blend_contracts.Pool.State.{Storage}
use blend_contracts.Pool.Cache.{Pool, contains}
use blend_contracts.Pool.Ledger.{IsListed, Matches}

module _ {Chain : Type 0} (owed held owed' held' : ℕ → ℤ) (debts : (i : ℕ) → owed' i ≡ owed i)
    (claims : (i : ℕ) → held' i ≡ held i) where
  pub keep-IsListed :
      (s s' : Storage Chain)
      → s'.res_configs ≡ s.res_configs
      → s'.res_list ≡ s.res_list
      → IsListed owed held s
      → IsListed owed' held' s'
  keep-IsListed s s' ec el m = record {
    listed =
        λ b config g. ap (nth config.index) el ∙ m.listed b config (ap (lookup b) (sym ec) ∙ g);
    unlisted =
        λ i g. let u = m.unlisted i (ap (nth i) (sym el) ∙ g) in (debts i ∙ u.0, claims i ∙ u.1);
  }

  pub keep-Matches :
      (s s' : Storage Chain) (pool pool' : Pool)
      → s'.res_configs ≡ s.res_configs
      → s'.res_data ≡ s.res_data
      → s'.res_list ≡ s.res_list
      → pool'.reserves ≡ pool.reserves
      → pool'.reserves_to_store ≡ pool.reserves_to_store
      → Matches owed held s pool
      → Matches owed' held' s' pool'
  keep-Matches s s' pool pool' ec ed el er et m = record {
    places = keep-IsListed s s' ec el m.places;
    cached = λ b q g.
        (let c = m.cached b q (ap (lookup b) (sym er) ∙ g) in
          record {
            config = c.config;
            same_asset = c.same_asset;
            stored_config = ap (lookup b) ec ∙ c.stored_config;
            same_index = c.same_index;
            debts = c.debts ∙ sym (debts c.config.index);
            claims = c.claims ∙ sym (claims c.config.index);
          });
    stored = λ b config d g h out.
        (let booked =
            m.stored b config d (ap (lookup b) (sym ec) ∙ g) (ap (lookup b) (sym ed) ∙ h)
              (elim out [
                | inl z ↦ inl (ap (lookup b) (sym er) ∙ z)
                | inr z ↦ inr (ap (contains b) (sym et) ∙ z)
              ]) in
          record {
            debts = booked.debts ∙ sym (debts config.index);
            claims = booked.claims ∙ sym (claims config.index);
          });
  }
