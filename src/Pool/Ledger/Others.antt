-- ===== src/Pool/Ledger/Others.antt =====
-- The calls that touch neither reserves nor positions: pool/src/emissions, pool/src/auctions and
-- pool/src/pool/status.rs.
use blend_contracts.Base.{
  to_u64, nth, ℕ, ◌^◌, ◌/◌, ◌%◌, refl, Bool, true, false, Option, List, [], ◌∷◌, ◌==◌, ltb,
  if◌then◌else◌, ℤ, pos, ltb_ℤ, div_ℤ, ok, or_panic, unwrap, host, pool_error, PoolError, add_i128,
  add_u, checked, Ensures, Ensures-ok, Ensures-bind, Ensures-if, Ensures-panic_if, Ensures-option,
}
use blend_contracts.Base.Map.{Map, nat_key}
use blend_contracts.Base.FixedPoint.{FixedPoint}
use blend_contracts.Base.Host.{Address, Env}
use blend_contracts.Pool.State.{
  AuctionData, Storage, ReserveEmissionsConfig, scalar_7, get_backstop, get_blnd_token,
  get_res_config, get_res_data, get_res_emis_config, set_res_emis_config, set_pool_emissions,
  set_auction,
}
use blend_contracts.Pool.Emissions.{update_emission_data_with_config}
use blend_contracts.Pool.Emissions.Frame.{
  Kept, same-Kept, trans-Kept, data-Kept, set_data-Kept, claim_emissions-Kept,
}
use blend_contracts.Pool.Emissions.Manager.{
  emission_cycle, unspent, refresh, carry_over, update_reserve_emission_config, gulp_loop,
  do_gulp_emissions, gulp_emissions, ReserveEmissionMetadata, share_loop, set_emissions,
}
use blend_contracts.Pool.User.{User, load_user, get_liabilities, get_total_supply}
use blend_contracts.Pool.Claim.{claim_token, claim_loop, execute_claim}
use blend_contracts.Pool.Outside.{Outside}

module _ {Chain : Type 0} where
  pub chain-Kept : (s : Storage Chain) (c : Chain) → Kept s (record s { chain = c })
  chain-Kept s c = record { res_configs = refl; res_data = refl; res_list = refl; positions = refl }

  pub auction-Kept :
      (kind : ℕ) (user : Address) (a : AuctionData) (s : Storage Chain)
      → Kept s (set_auction kind user a s)
  unfolding set_auction
  auction-Kept kind user a s = record {
    res_configs = refl;
    res_data = refl;
    res_list = refl;
    positions = refl;
  }

  emis_config-Kept :
      (id : ℕ) (d : ReserveEmissionsConfig) (s : Storage Chain)
      → Kept s (set_res_emis_config id d s)
  unfolding set_res_emis_config
  emis_config-Kept id d s = record {
    res_configs = refl;
    res_data = refl;
    res_list = refl;
    positions = refl;
  }

  pub set_emissions-Kept :
      (metadata : List ReserveEmissionMetadata) (s : Storage Chain)
      → Ensures (Kept s) (set_emissions metadata s)
  unfolding set_emissions set_pool_emissions
  set_emissions-Kept metadata s = Ensures-bind (share_loop s.res_list metadata ([], 0)) _ λ found _.
      Ensures-panic_if (ltb scalar_7 found.1) _ _ λ _.
        Ensures-ok _
          (record { res_configs = refl; res_data = refl; res_list = refl; positions = refl })

  module _ (math : FixedPoint) (e : Env) where
    refresh-Kept :
        (asset : Address) (id : ℕ) (config : ReserveEmissionsConfig) (s : Storage Chain)
        → Ensures (Kept s) (refresh math e asset id config s)
    unfolding refresh
    refresh-Kept asset id config s = Ensures-bind (get_res_config asset s) _ λ c _.
        Ensures-bind (get_res_data asset s) _ λ d _.
          Ensures-bind (checked (pos (10 ^ c.decimals))) _ λ scalar _.
            let supply = if id % 2 == 0 then d.d_supply else d.b_supply in
            Ensures-bind (update_emission_data_with_config math e id supply scalar config s) _
              λ r er.
                let k = (data-Kept math e id supply scalar config s).at r er in
                Ensures-ok _ (
                  chosen (r.0.last_time == e.timestamp) s r.1 _ k
                    (trans-Kept s r.1 _ k (set_data-Kept id _ r.1)))
      where
        chosen :
            (b : Bool) (s t u : Storage Chain) → Kept s t → Kept s u → Kept s (if b then t else u)
        chosen true s t u k l = k
        chosen false s t u k l = l

    carry-Kept :
        (asset : Address) (id : ℕ) (new : ℤ) (s : Storage Chain)
        → Ensures (λ r. Kept s r.1) (carry_over math e asset id new s)
    unfolding carry_over
    carry-Kept asset id new s =
        Ensures-option (get_res_emis_config id s) _ _ (λ _. Ensures-ok _ (set_data-Kept id _ s))
          (λ config _. Ensures-bind (refresh math e asset id config s) _ λ s₁ e₁.
            Ensures-bind (unspent e config new) _
              λ tokens _. Ensures-ok _ ((refresh-Kept asset id config s).at s₁ e₁))

    update_config-Kept :
        (asset : Address) (id : ℕ) (new : ℤ) (s : Storage Chain)
        → Ensures (Kept s) (update_reserve_emission_config math e asset id new s)
    unfolding update_reserve_emission_config
    update_config-Kept asset id new s = Ensures-bind (carry_over math e asset id new s) _ λ r er.
        Ensures-bind (add_u 64 e.timestamp emission_cycle) _ λ expiration _.
          Ensures-bind (to_u64 (div_ℤ r.0 emission_cycle)) _ λ eps _.
            Ensures-ok _
              (trans-Kept s r.1 _ ((carry-Kept asset id new s).at r er) (emis_config-Kept id _ r.1))

    gulp_loop-Kept :
        (new : ℤ) (shares : Map ℕ ℕ) (s t : Storage Chain)
        → Kept s t
        → Ensures (Kept s) (gulp_loop math e new shares t)
    unfolding gulp_loop
    gulp_loop-Kept new [] s t k = Ensures-ok t k
    gulp_loop-Kept new ((id, share) ∷ rest) s t k =
        Ensures-bind (or_panic host (nth (id / 2) t.res_list)) _ λ asset _.
          Ensures-bind (unwrap (math.mul_floor (pos share) new (pos scalar_7))) _ λ tokens _.
            Ensures-bind (update_reserve_emission_config math e asset id tokens t) _ λ t₁ e₁.
              gulp_loop-Kept new rest s t₁
                (trans-Kept s t t₁ k ((update_config-Kept asset id tokens t).at t₁ e₁))

    pub gulp-Kept :
        (gulp : Chain → Address → Address → Option (ℤ × Chain)) (s : Storage Chain)
        → Ensures (λ r. Kept s r.1) (gulp_emissions math e gulp s)
    unfolding gulp_emissions do_gulp_emissions
    gulp-Kept gulp s = Ensures-bind (get_backstop s) _ λ k _.
        Ensures-bind (or_panic host (gulp s.chain k e.current_contract_address)) _ λ g _.
          let s' : Storage Chain = record s { chain = g.1 } in
          Ensures-bind (do_gulp_emissions math e g.0 s') _ λ s₁ e₁. Ensures-ok _ (
            (Ensures-panic_if {P = Kept s} (ltb_ℤ g.0 (pos scalar_7)) _ _
                λ _. gulp_loop-Kept g.0 s.pool_emissions s s' (chain-Kept s g.1)).at
              s₁ e₁)

  module _ (o : Outside Chain) (e : Env) where
    claim_token-Kept :
        (u : User) (id : ℕ) (s : Storage Chain) → Ensures (λ r. Kept s r.1) (claim_token o e u id s)
    unfolding claim_token
    claim_token-Kept u id s =
        Ensures-bind (or_panic (pool_error PoolError.bad_request) (nth (id / 2) s.res_list)) _
          λ a _. Ensures-bind (get_res_config a s) _ λ c _. Ensures-bind (get_res_data a s) _ λ d _.
            Ensures-bind
              (if id % 2 == 0 then ok (get_liabilities (id / 2) u) else get_total_supply (id / 2) u)
              _
              λ balance _. Ensures-bind (checked (pos (10 ^ c.decimals))) _ λ scalar _.
                claim_emissions-Kept o.math e id (if id % 2 == 0 then d.d_supply else d.b_supply)
                  scalar u.address balance s

    claim_loop-Kept :
        (u : User) (ids : List ℕ) (x : ℤ) (s t : Storage Chain)
        → Kept s t
        → Ensures (λ r. Kept s r.1) (claim_loop o e u ids (x, t))
    unfolding claim_loop
    claim_loop-Kept u [] x s t k = Ensures-ok _ k
    claim_loop-Kept u (id ∷ rest) x s t k = Ensures-bind (claim_token o e u id t) _ λ r er.
        Ensures-bind (add_i128 x r.0) _ λ total _.
          claim_loop-Kept u rest total s r.1
            (trans-Kept s t r.1 k ((claim_token-Kept u id t).at r er))

    pub claim-Kept :
        (from : Address) (ids : List ℕ) (to : Address) (s : Storage Chain)
        → Ensures (λ r. Kept s r.1) (execute_claim o e from ids to s)
    unfolding execute_claim
    claim-Kept from ids to s =
        Ensures-bind (claim_loop o e (load_user from s) ids (pos 0, s)) _ λ r er.
          let k = (claim_loop-Kept (load_user from s) ids (pos 0) s s (same-Kept s)).at r er in
          Ensures-if (ltb_ℤ (pos 0) r.0) _ _
            (λ _. Ensures-bind (get_backstop r.1) _ λ b _.
              Ensures-bind (get_blnd_token r.1) _
                λ t _. Ensures-ok _ (trans-Kept s r.1 _ k (chain-Kept r.1 _)))
            (λ _. Ensures-ok _ k)
