-- ===== src/Pool/Ledger/Stored.antt =====
-- The end of a call, in the books: `store_cached_reserves` of pool/src/pool/pool.rs.
use mathlib.Core.Path.{subst}
use blend_contracts.Base.{
  nth, ℕ, ◌≡◌, inl, inr, refl, sym, ap, ◌∙◌, false, ◌||◌, Bool-cases, some, List, [], ◌∷◌, arith,
  ◌==◌, if◌then◌else◌, ℤ, or_panic, or_panic_ok, pool_error, PoolError, Ensures, Ensures-ok,
  Ensures-bind,
}
use blend_contracts.Base.Map.{nat_key, lookup, lookup-insert}
use blend_contracts.Base.Host.{Address}
use blend_contracts.Pool.State.{ReserveConfig, ReserveData, Storage, set_res_data}
use blend_contracts.Pool.Reserve.{Reserve, store, to_stored}
use blend_contracts.Pool.Cache.{Pool, contains, store_loop, store_cached_reserves}
use blend_contracts.Pool.Ledger.{IsBooked, IsCached, IsListed, Matches}

-- Every stored reserve agrees with what is owed and held, and the positions are as before.
pub record IsSettled {Chain : Type 0} (owed held : ℕ → ℤ) (s s' : Storage Chain) : Type 0 where
  pub places : IsListed owed held s'
  pub booked :
      (asset : Address) (config : ReserveConfig) (d : ReserveData)
      → lookup asset s'.res_configs ≡ some config
      → lookup asset s'.res_data ≡ some d
      → IsBooked owed held config d
  pub positions : s'.positions ≡ s.positions

module _ {Chain : Type 0} (owed held : ℕ → ℤ) where
  stored_data :
      (r : Reserve) (b : Address) (s : Storage Chain)
      → lookup b (store r s).res_data
        ≡ (if r.asset == b then some (to_stored r) else lookup b s.res_data)
  unfolding store set_res_data
  stored_data r b s = lookup-insert r.asset b (to_stored r) s.res_data

  store-frame :
      (r : Reserve) (s : Storage Chain)
      → ((store r s).res_configs ≡ s.res_configs)
        × ((store r s).res_list ≡ s.res_list)
        × ((store r s).positions ≡ s.positions)
  unfolding store set_res_data
  store-frame r s = (refl, refl, refl)

  stored_booked :
      (r : Reserve) (a : Address) (config : ReserveConfig) (s : Storage Chain)
      → IsCached owed held s a r
      → lookup a s.res_configs ≡ some config
      → IsBooked owed held config (to_stored r)
  unfolding to_stored
  stored_booked r a config s c h =
      let found : some c.config ≡ some config = sym c.stored_config ∙ h in
      let e : c.config ≡ config = cc in
      record {
        debts = c.debts ∙ ap (λ x. owed x.index) e;
        claims = c.claims ∙ ap (λ x. held x.index) e;
      }

  -- One write of `store_loop`.
  store_step :
      (pool : Pool) (a : Address) (rest : List Address) (r : Reserve) (s : Storage Chain)
      → Matches owed held s (record pool { reserves_to_store = a ∷ rest })
      → lookup a pool.reserves ≡ some r
      → Matches owed held (store r s) (record pool { reserves_to_store = rest })
  store_step pool a rest r s m h =
      let f = store-frame r s in
      let c = m.cached a r h in
      record {
        places = record {
          listed = λ b config g.
              (let g' : lookup b s.res_configs ≡ some config = ap (lookup b) (sym f.0) ∙ g in
                ap (nth config.index) f.1 ∙ m.places.listed b config g');
          unlisted = λ i g. m.places.unlisted i (ap (nth i) (sym f.1) ∙ g);
        };
        cached = λ b q g.
            (let k = m.cached b q g in
              record {
                config = k.config;
                same_asset = k.same_asset;
                stored_config = ap (lookup b) f.0 ∙ k.stored_config;
                same_index = k.same_index;
                debts = k.debts;
                claims = k.claims;
              });
        stored = λ b config d g k out.
            (let g' : lookup b s.res_configs ≡ some config = ap (lookup b) (sym f.0) ∙ g in
              let k' : (if r.asset == b then some (to_stored r) else lookup b s.res_data) ≡ some d =
                sym (stored_data r b s) ∙ k in
              elim (Bool-cases (r.asset == b)) [
                | inl t ↦
                    let e : a ≡ b = (let ca = c.same_asset in ground arith) in
                    let w : some (to_stored r) ≡ some d =
                      ap (λ x. if x then some (to_stored r) else lookup b s.res_data) (sym t)
                      ∙ k' in
                    let w' : to_stored r ≡ d = cc in
                    subst (λ x. IsBooked owed held config x) w'
                      (stored_booked r a config s c (ap (λ x. lookup x s.res_configs) e ∙ g'))
                | inr n ↦
                    let ne : (a == b) ≡ false = ap (λ x. x == b) (sym c.same_asset) ∙ n in
                    let w : lookup b s.res_data ≡ some d =
                      ap (λ x. if x then some (to_stored r) else lookup b s.res_data) (sym n)
                      ∙ k' in
                    m.stored b config d g' w (elim out [
                      | inl z ↦ inl z
                      | inr z ↦ inr (ap (λ x. x || contains b rest) ne ∙ z)
                    ])
              ]);
      }

  store_loop-IsSettled :
      (pool : Pool) (l : List Address) (s : Storage Chain)
      → Matches owed held s (record pool { reserves_to_store = l })
      → Ensures (IsSettled owed held s) (store_loop pool.reserves l s)
  unfolding store_loop
  store_loop-IsSettled pool [] s m = Ensures-ok s (record {
    places = m.places;
    booked = λ asset config d h g. m.stored asset config d h g (inr refl);
    positions = refl;
  })
  store_loop-IsSettled pool (a ∷ rest) s m =
      Ensures-bind
        (or_panic (pool_error PoolError.internal_reserve_not_found) (lookup a pool.reserves)) _
        λ r er. record {
          at = λ s' es.
              let m' = store_step pool a rest r s m (or_panic_ok _ (lookup a pool.reserves) er) in
              let i = (store_loop-IsSettled pool rest (store r s) m').at s' es in
              record {
                places = i.places;
                booked = i.booked;
                positions = i.positions ∙ (store-frame r s).2;
              };
        }

  pub store_cached-IsSettled :
      (pool : Pool) (s : Storage Chain)
      → Matches owed held s pool
      → Ensures (IsSettled owed held s) (store_cached_reserves pool s)
  unfolding store_cached_reserves
  store_cached-IsSettled pool s m =
      store_loop-IsSettled pool pool.reserves_to_store s
        (record { places = m.places; cached = m.cached; stored = m.stored })
