-- ===== src/Pool/Reserve/Same.antt =====
-- What bringing a reserve up to date leaves alone: pool/src/pool/reserve.rs.
use blend_contracts.Base.{
  unwrap_ok, ℕ, ◌^◌, ◌≡◌, refl, ltb, ◌==◌, if◌then◌else◌, ℤ, pos, eqb_ℤ, ltb_ℤ, some, ok, unwrap,
  add_i128, sub_i128, checked, Ensures, Ensures-ok, Ensures-bind, Ensures-if,
}
use blend_contracts.Base.Map.{nat_key, lookup}
use blend_contracts.Base.FixedPoint.{FixedPoint}
use blend_contracts.Base.Host.{Address, Env}
use blend_contracts.Pool.State.{
  PoolConfig, ReserveConfig, ReserveData, Storage, scalar_7, scalar_9, get_res_config, get_res_data,
}
use blend_contracts.Pool.Interest.{calc_accrual}
use blend_contracts.Pool.Reserve.{
  Reserve, from_stored, total_supply, total_liabilities, utilization, credit_interest, accrue,
  update, load,
}

pub record IsSame (r r' : Reserve) : Type 0 where
  pub asset : r'.asset ≡ r.asset
  pub index : r'.index ≡ r.index
  pub d_supply : r'.d_supply ≡ r.d_supply
  pub b_supply : r'.b_supply ≡ r.b_supply

-- A reserve that was loaded has the index of its configuration and the supplies that are stored.
pub record IsLoaded {Chain : Type 0} (asset : Address) (s : Storage Chain) (r : Reserve)
    : Type 0 where
  pub config : ReserveConfig
  pub reserve_data : ReserveData
  pub stored_config : lookup asset s.res_configs ≡ some config
  pub stored_data : lookup asset s.res_data ≡ some reserve_data
  pub same_asset : r.asset ≡ asset
  pub same_index : r.index ≡ config.index
  pub d_supply : r.d_supply ≡ reserve_data.d_supply
  pub b_supply : r.b_supply ≡ reserve_data.b_supply

refl-IsSame : (r : Reserve) → IsSame r r
refl-IsSame r = record { asset = refl; index = refl; d_supply = refl; b_supply = refl }

timed-IsSame : (r r' : Reserve) (t : ℕ) → IsSame r r' → IsSame r (record r' { last_time = t })
timed-IsSame r r' t same = record {
  asset = same.asset;
  index = same.index;
  d_supply = same.d_supply;
  b_supply = same.b_supply;
}

module _ (math : FixedPoint) (e : Env) (pool_config : PoolConfig) where
  credit-IsSame :
      (supplied interest : ℤ) (r r₁ : Reserve)
      → IsSame r r₁
      → Ensures (IsSame r) (credit_interest math e pool_config supplied interest r₁)
  unfolding credit_interest
  credit-IsSame supplied interest r r₁ same =
      Ensures-bind
        (if ltb 0 pool_config.bstop_rate
          then unwrap (math.mul_floor interest (pos pool_config.bstop_rate) (pos scalar_7))
          else ok (pos 0))
        _
        λ c _.
          Ensures-bind
            (if ltb 0 pool_config.bstop_rate
              then add_i128 r₁.backstop_credit c
              else ok r₁.backstop_credit)
            _
            λ k _. Ensures-bind (add_i128 supplied interest) _ λ grown _.
              Ensures-bind (sub_i128 grown c) _ λ kept _.
                Ensures-bind (unwrap (math.div_floor kept r₁.b_supply (pos scalar_9))) _ λ rate _.
                  Ensures-ok _ (record {
                    asset = same.asset;
                    index = same.index;
                    d_supply = same.d_supply;
                    b_supply = same.b_supply;
                  })

  accrue-IsSame :
      (config : ReserveConfig) (u : ℤ) (r : Reserve)
      → Ensures (IsSame r) (accrue math e pool_config config u r)
  unfolding accrue
  accrue-IsSame config u r =
      Ensures-bind (calc_accrual math e config u r.ir_mod r.last_time) _ λ a _.
        Ensures-bind (total_supply math r) _ λ p _. Ensures-bind (total_liabilities math r) _ λ l _.
          Ensures-bind (unwrap (math.mul_ceil a.0 r.d_rate (pos scalar_9))) _ λ d _.
            let r₁ : Reserve = record r { ir_mod = a.1; d_rate = d } in
            Ensures-bind (total_liabilities math r₁) _ λ l' _. Ensures-bind (sub_i128 l' l) _ λ i _.
              Ensures-bind
                (if ltb_ℤ (pos 0) i then credit_interest math e pool_config p i r₁ else ok r₁) _
                λ r₂ e₂. Ensures-ok _ (
                  timed-IsSame r r₂ e.timestamp (
                    (credited p i r r₁ (record {
                      asset = refl;
                      index = refl;
                      d_supply = refl;
                      b_supply = refl;
                    })).at
                      r₂ e₂))
    where
      credited :
          (p i : ℤ) (r r₁ : Reserve)
          → IsSame r r₁
          → Ensures
              (IsSame r)
              (if ltb_ℤ (pos 0) i then credit_interest math e pool_config p i r₁ else ok r₁)
      credited p i r r₁ same =
          Ensures-if (ltb_ℤ (pos 0) i) _ _ (λ _. credit-IsSame p i r r₁ same)
            (λ _. Ensures-ok _ same)

  pub update-IsSame :
      (config : ReserveConfig) (r : Reserve)
      → Ensures (IsSame r) (update math e pool_config config r)
  unfolding update
  update-IsSame config r =
      Ensures-if (e.timestamp == r.last_time) _ _ (λ _. Ensures-ok r (refl-IsSame r))
        λ _.
          Ensures-if (eqb_ℤ r.b_supply (pos 0)) _ _
            (λ _. Ensures-ok _ (timed-IsSame r r e.timestamp (refl-IsSame r)))
            λ _. Ensures-bind (utilization math r) _ λ u _.
              Ensures-if (eqb_ℤ u (pos 0)) _ _
                (λ _. Ensures-ok _ (timed-IsSame r r e.timestamp (refl-IsSame r)))
                λ _. accrue-IsSame config u r

  pub load-IsLoaded :
      {Chain : Type 0} (asset : Address) (s : Storage Chain)
      → Ensures (IsLoaded asset s) (load math e pool_config asset s)
  unfolding load get_res_config get_res_data from_stored
  load-IsLoaded asset s = Ensures-bind (get_res_config asset s) _ λ config ec.
      Ensures-bind (get_res_data asset s) _ λ d ed.
        Ensures-bind (checked (pos (10 ^ config.decimals))) _ λ scalar _. record {
          at = λ r er.
              let same = (update-IsSame config (from_stored asset config d scalar)).at r er in
              record {
                config = config;
                reserve_data = d;
                stored_config = unwrap_ok _ ec;
                stored_data = unwrap_ok _ ed;
                same_asset = same.asset;
                same_index = same.index;
                d_supply = same.d_supply;
                b_supply = same.b_supply;
              };
        }
