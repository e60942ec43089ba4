-- ===== src/Pool/Emissions/Frame.antt =====
-- What an update of emissions leaves alone: pool/src/emissions/distributor.rs.
use blend_contracts.Base.{
  ℕ, ◌≡◌, refl, ◌∙◌, Bool, true, false, not, ◌||◌, ltb, leb, ◌==◌, if◌then◌else◌, ℤ, pos, eqb_ℤ,
  unwrap, add_i128, Ensures, Ensures-ok, Ensures-bind, Ensures-if, Ensures-option,
}
use blend_contracts.Base.FixedPoint.{FixedPoint}
use blend_contracts.Base.Host.{Address, Env}
use blend_contracts.Pool.State.{
  Storage, ReserveEmissionsConfig, ReserveEmissionsData, get_res_emis_config, get_res_emis_data,
  set_res_emis_data, get_user_emissions,
}
use blend_contracts.Pool.State.{set_user_emissions as write_user_emissions}
use blend_contracts.Pool.Emissions.{
  set_user_emissions, accrual, update_user_emissions, additional_index,
  update_emission_data_with_config, update_emission_data, emissions_call, update_emissions,
  claim_emissions,
}

-- The entries that the positions and the reserves are booked in are the same.
pub record Kept {Chain : Type 0} (s t : Storage Chain) : Type 0 where
  pub res_configs : t.res_configs ≡ s.res_configs
  pub res_data : t.res_data ≡ s.res_data
  pub res_list : t.res_list ≡ s.res_list
  pub positions : t.positions ≡ s.positions

module _ {Chain : Type 0} where
  pub same-Kept : (s : Storage Chain) → Kept s s
  same-Kept s = record { res_configs = refl; res_data = refl; res_list = refl; positions = refl }

  pub trans-Kept : (s t u : Storage Chain) → Kept s t → Kept t u → Kept s u
  trans-Kept s t u k l = record {
    res_configs = l.res_configs ∙ k.res_configs;
    res_data = l.res_data ∙ k.res_data;
    res_list = l.res_list ∙ k.res_list;
    positions = l.positions ∙ k.positions;
  }

  set_user-Kept :
      (user : Address) (id : ℕ) (index accrued : ℤ) (claim : Bool) (s : Storage Chain)
      → Kept s (set_user_emissions user id index accrued claim s).1
  unfolding set_user_emissions write_user_emissions
  set_user-Kept user id index accrued true s = record {
    res_configs = refl;
    res_data = refl;
    res_list = refl;
    positions = refl;
  }
  set_user-Kept user id index accrued false s = record {
    res_configs = refl;
    res_data = refl;
    res_list = refl;
    positions = refl;
  }

  pub set_data-Kept :
      (id : ℕ) (d : ReserveEmissionsData) (s : Storage Chain) → Kept s (set_res_emis_data id d s)
  unfolding set_res_emis_data
  set_data-Kept id d s = record {
    res_configs = refl;
    res_data = refl;
    res_list = refl;
    positions = refl;
  }

  user-Kept :
      (math : FixedPoint) (d : ReserveEmissionsData) (id : ℕ) (scalar : ℤ) (user : Address)
      (balance : ℤ) (claim : Bool) (s t : Storage Chain)
      → Kept s t
      → Ensures (λ r. Kept s r.1) (update_user_emissions math d id scalar user balance claim t)
  unfolding update_user_emissions
  user-Kept math d id scalar user balance claim s t k =
      Ensures-option (get_user_emissions user id t) _ _
        (λ e.
          Ensures-if (eqb_ℤ balance (pos 0)) _ _
            (λ z. Ensures-ok _ (trans-Kept s t _ k (set_user-Kept user id _ _ claim t)))
            (λ n.
              Ensures-bind (unwrap (math.mul_floor balance d.index scalar)) _
                λ a ea. Ensures-ok _ (trans-Kept s t _ k (set_user-Kept user id _ _ claim t))))
        (λ u e.
          Ensures-if (not (eqb_ℤ u.index d.index) || claim) _ _
            (λ z.
              Ensures-bind (accrual math d scalar balance u) _
                λ a ea. Ensures-ok _ (trans-Kept s t _ k (set_user-Kept user id _ _ claim t)))
            (λ n. Ensures-ok _ k))

  pub data-Kept :
      (math : FixedPoint) (e : Env) (id : ℕ) (supply scalar : ℤ) (config : ReserveEmissionsConfig)
      (s : Storage Chain)
      → Ensures
          (λ r. Kept s r.1)
          (update_emission_data_with_config math e id supply scalar config s)
  unfolding update_emission_data_with_config
  data-Kept math e id supply scalar config s =
      let now = if ltb config.expiration e.timestamp then config.expiration else e.timestamp in
      Ensures-bind (unwrap (get_res_emis_data id s)) _ λ old eo.
        Ensures-if
          (leb config.expiration old.last_time
            || (e.timestamp == old.last_time || (config.eps == 0 || eqb_ℤ supply (pos 0))))
          _ _ (λ t. Ensures-ok _ (same-Kept s))
          (λ f.
            Ensures-bind (additional_index math now old.last_time config.eps supply scalar) _
              λ x ex.
                Ensures-bind (add_i128 x old.index) _ λ i ei. Ensures-ok _ (set_data-Kept id _ s))

  update-data-Kept :
      (math : FixedPoint) (e : Env) (id : ℕ) (supply scalar : ℤ) (s : Storage Chain)
      → Ensures (λ r. Kept s r.1) (update_emission_data math e id supply scalar s)
  unfolding update_emission_data
  update-data-Kept math e id supply scalar s =
      Ensures-option (get_res_emis_config id s) _ _ (λ n. Ensures-ok _ (same-Kept s))
        (λ config c.
          Ensures-bind (update_emission_data_with_config math e id supply scalar config s) _
            λ r er. Ensures-ok _ ((data-Kept math e id supply scalar config s).at r er))

  pub emissions_call-Kept :
      (claim : Bool) (math : FixedPoint) (e : Env) (id : ℕ) (supply scalar : ℤ) (user : Address)
      (balance : ℤ) (s : Storage Chain)
      → Ensures (λ r. Kept s r.1) (emissions_call math claim e id supply scalar user balance s)
  unfolding emissions_call
  emissions_call-Kept claim math e id supply scalar user balance s =
      Ensures-bind (update_emission_data math e id supply scalar s) _ λ r er.
        Ensures-option r.0 _ _
          (λ n. Ensures-ok _ ((update-data-Kept math e id supply scalar s).at r er))
          (λ d ed.
            user-Kept math d id scalar user balance claim s r.1
              ((update-data-Kept math e id supply scalar s).at r er))

  pub update_emissions-Kept :
      (math : FixedPoint) (e : Env) (id : ℕ) (supply scalar : ℤ) (user : Address) (balance : ℤ)
      (s : Storage Chain)
      → Ensures (λ r. Kept s r.1) (update_emissions math e id supply scalar user balance s)
  unfolding update_emissions
  update_emissions-Kept = emissions_call-Kept false

  pub claim_emissions-Kept :
      (math : FixedPoint) (e : Env) (id : ℕ) (supply scalar : ℤ) (user : Address) (balance : ℤ)
      (s : Storage Chain)
      → Ensures (λ r. Kept s r.1) (claim_emissions math e id supply scalar user balance s)
  unfolding claim_emissions
  claim_emissions-Kept = emissions_call-Kept true
