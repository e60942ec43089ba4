-- ===== src/Pool/Ledger/Change.antt =====
-- A changed reserve put back into the memory of a call, in the books: `cache_reserve` of
-- pool/src/pool/pool.rs.
use blend_contracts.Base.{
  nth, ℕ, ◌≡◌, ◌⊎◌, inl, inr, refl, sym, ap, ◌∙◌, Bool, true, false, Bool-cases, none, some, arith,
  ◌==◌, if◌then◌else◌, ℤ, ◌+ℤ◌, int_laws,
}
use mathlib.Core.Path.{subst}
use blend_contracts.Base.Map.{nat_key, lookup, insert, lookup-insert}
use blend_contracts.Base.Host.{Address}
use blend_contracts.Pool.State.{ReserveConfig, ReserveData, Storage}
use blend_contracts.Pool.Reserve.{Reserve}
use blend_contracts.Pool.Cache.{Pool, contains, cache_reserve}
use blend_contracts.Pool.Emissions.Frame.{Kept}
use blend_contracts.Pool.Ledger.{IsBooked, IsCached, IsListed, Matches}
use blend_contracts.Pool.Ledger.Load.{IsMarked}

-- The supplies of a reserve move by what is owed and held at its index, and nothing else moves.
pub record Moved (owed held owed' held' : ℕ → ℤ) (r r' : Reserve) : Type 0 where
  pub same_asset : r'.asset ≡ r.asset
  pub same_index : r'.index ≡ r.index
  pub debts : r'.d_supply +ℤ owed r.index ≡ r.d_supply +ℤ owed' r.index
  pub claims : r'.b_supply +ℤ held r.index ≡ r.b_supply +ℤ held' r.index
  pub others : (i : ℕ) → (i == r.index) ≡ false → (owed' i ≡ owed i) × (held' i ≡ held i)

-- The books under which only what is owed and held at other places differs.
module _ {Chain : Type 0} (owed held owed' held' : ℕ → ℤ) (s s' : Storage Chain) (asset : Address)
    (r r' : Reserve) (places : IsListed owed held s) (c : IsCached owed held s asset r)
    (k : Kept s s') (v : Moved owed held owed' held' r r') where
  here_listed : nth r.index s.res_list ≡ some asset
  here_listed = let h = places.listed asset c.config c.stored_config in let e = c.same_index in cc

  -- Another asset has another index.
  other_index :
      (b : Address) (config : ReserveConfig)
      → lookup b s.res_configs ≡ some config
      → (asset == b) ≡ false
      → (config.index == r.index) ≡ false
  other_index b config h ne = elim (Bool-cases (config.index == r.index)) [
    | inr f ↦ f
    | inl t ↦
        let e : config.index ≡ r.index = ground arith in
        let l = places.listed b config h in
        let same : some b ≡ some asset = sym l ∙ ap (λ i. nth i s.res_list) e ∙ here_listed in
        ground arith
  ]

  places_after : IsListed owed' held' s'
  places_after = record {
    listed = λ b config h.
        let h' : lookup b s.res_configs ≡ some config = (let e = k.res_configs in cc) in
        let l = places.listed b config h' in let e = k.res_list in cc;
    unlisted = λ i h.
        let h' : nth i s.res_list ≡ none = (let e = k.res_list in cc) in
        let u = places.unlisted i h' in
        elim (Bool-cases (i == r.index)) [
          | inl t ↦
              (let e : i ≡ r.index = ground arith in
                absurd (let g = here_listed in let n : nth r.index s.res_list ≡ none = cc in cc))
          | inr f ↦ (let o = v.others i f in (o.0 ∙ u.0, o.1 ∙ u.1))
        ];
  }

  here_after : IsCached owed' held' s' asset r'
  here_after = record {
    config = c.config;
    same_asset = v.same_asset ∙ c.same_asset;
    stored_config = (let h = c.stored_config in let e = k.res_configs in cc);
    same_index = v.same_index ∙ c.same_index;
    debts =
        (let d = v.debts in
          let o = c.debts in
          let e : owed r.index ≡ owed c.config.index = ap owed c.same_index in
          let e' : owed' r.index ≡ owed' c.config.index = ap owed' c.same_index in omega int_laws);
    claims =
        (let d = v.claims in
          let o = c.claims in
          let e : held r.index ≡ held c.config.index = ap held c.same_index in
          let e' : held' r.index ≡ held' c.config.index = ap held' c.same_index in omega int_laws);
  }

  other-IsCached :
      (b : Address) (q : Reserve)
      → (asset == b) ≡ false
      → IsCached owed held s b q
      → IsCached owed' held' s' b q
  other-IsCached b q ne m =
      let o = v.others m.config.index (other_index b m.config m.stored_config ne) in
      record {
        config = m.config;
        same_asset = m.same_asset;
        stored_config = (let h = m.stored_config in let e = k.res_configs in cc);
        same_index = m.same_index;
        debts = m.debts ∙ sym o.0;
        claims = m.claims ∙ sym o.1;
      }

  other_booked :
      (b : Address) (config : ReserveConfig) (d : ReserveData)
      → (asset == b) ≡ false
      → lookup b s.res_configs ≡ some config
      → IsBooked owed held config d
      → IsBooked owed' held' config d
  other_booked b config d ne h m =
      let o = v.others config.index (other_index b config h ne) in
      record { debts = m.debts ∙ sym o.0; claims = m.claims ∙ sym o.1 }

  after_lookup :
      (pool pool' : Pool) (b : Address)
      → pool'.reserves ≡ pool.reserves
      → lookup b (insert r'.asset r' pool'.reserves)
        ≡ (if asset == b then some r' else lookup b pool.reserves)
  after_lookup pool pool' b e =
      let a : r'.asset ≡ asset = v.same_asset ∙ c.same_asset in
      lookup-insert r'.asset b r' pool'.reserves
      ∙ ap (λ x. if x == b then some r' else lookup b pool'.reserves) a
      ∙ ap (λ x. if asset == b then some r' else lookup b x) e

  -- The entries of the stored reserve at the asset itself.
  here_booked :
      (pool pool' : Pool) (flag : Bool) (config : ReserveConfig) (d : ReserveData)
      → Matches owed held s pool
      → IsMarked asset flag pool pool'
      → (flag ≡ true) ⊎ ((i : ℕ) → (owed' i ≡ owed i) × (held' i ≡ held i))
      → lookup asset s.res_configs ≡ some config
      → lookup asset s.res_data ≡ some d
      → contains asset pool'.reserves_to_store ≡ false
      → IsBooked owed' held' config d
  here_booked pool pool' true config d m marked own h g out =
      absurd (let t = marked.here refl in cc)
  here_booked pool pool' false config d m marked (inl t) h g out = absurd (cc t)
  here_booked pool pool' false config d m marked (inr same) h g out =
      let b = m.stored asset config d h g (inr (sym (marked.others asset (inl refl)) ∙ out)) in
      record {
        debts = b.debts ∙ sym (same config.index).0;
        claims = b.claims ∙ sym (same config.index).1;
      }

  -- The reserve goes back into memory, marked to be stored unless nothing has moved.
  pub cache-Matches :
      (flag : Bool) (pool pool' : Pool)
      → Matches owed held s pool
      → IsMarked asset flag pool pool'
      → (flag ≡ true) ⊎ ((i : ℕ) → (owed' i ≡ owed i) × (held' i ≡ held i))
      → Matches owed' held' s' (cache_reserve r' pool')
  unfolding cache_reserve
  cache-Matches flag pool pool' m marked own = record {
    places = places_after;
    cached = λ b q h.
        let l = after_lookup pool pool' b marked.reserves in
        elim (Bool-cases (asset == b)) [
          | inl t ↦
              let e : asset ≡ b = ground arith in
              let found : some r' ≡ some q =
                ap (λ x. if x then some r' else lookup b pool.reserves) (sym t) ∙ sym l ∙ h in
              let same : r' ≡ q = cc in
              subst (λ x. IsCached owed' held' s' x q) e
                (subst (λ x. IsCached owed' held' s' asset x) same here_after)
          | inr f ↦
              let found : lookup b pool.reserves ≡ some q =
                ap (λ x. if x then some r' else lookup b pool.reserves) (sym f) ∙ sym l ∙ h in
              other-IsCached b q f (m.cached b q found)
        ];
    stored = λ b config d h g out.
        let l = after_lookup pool pool' b marked.reserves in
        let h' : lookup b s.res_configs ≡ some config = (let e = k.res_configs in cc) in
        let g' : lookup b s.res_data ≡ some d = (let e = k.res_data in cc) in
        elim (Bool-cases (asset == b)) [
          | inl t ↦
              let e : b ≡ asset = ground arith in
              let l' : lookup b (insert r'.asset r' pool'.reserves) ≡ some r' =
                l ∙ ap (λ x. if x then some r' else lookup b pool.reserves) t in
              let hc : lookup asset s.res_configs ≡ some config = cc in
              let hd : lookup asset s.res_data ≡ some d = cc in
              elim out [
                | inl n ↦ absurd (cc n)
                | inr n ↦
                    here_booked pool pool' flag config d m marked own hc hd
                      (sym (ap (λ x. contains x pool'.reserves_to_store) e) ∙ n)
              ]
          | inr f ↦
              let same : lookup b (insert r'.asset r' pool'.reserves) ≡ lookup b pool.reserves =
                l ∙ ap (λ x. if x then some r' else lookup b pool.reserves) f in
              other_booked b config d f h' (
                m.stored b config d h' g' (elim out [
                  | inl n ↦ inl (sym same ∙ n)
                  | inr n ↦ inr (sym (marked.others b (inr f)) ∙ n)
                ]))
        ];
  }
