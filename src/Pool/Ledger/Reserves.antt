-- ===== src/Pool/Ledger/Reserves.antt =====
-- The books over the configuration of reserves: pool/src/pool/config.rs.
use mathlib.Core.Path.{subst}
use blend_contracts.Base.{
  length, nth, ℕ, ◌≡◌, inl, inr, refl, sym, ap, ◌∙◌, Bool, true, false, not, Bool-cases, none, some,
  List, [], ◌∷◌, ◌++◌, arith, ◌==◌, ltb, if◌then◌else◌, pos, Ensures, Ensures-ok, Ensures-bind,
  Ensures-if, Ensures-panic_if,
}
use blend_contracts.Base.Map.{nat_key, lookup, insert, lookup-insert}
use blend_contracts.Base.FixedPoint.{FixedPoint}
use blend_contracts.Base.Host.{Address, Env}
use blend_contracts.Pool.State.{
  ReserveConfig, ReserveData, Storage, scalar_9, has_res, get_res_config, set_res_config,
  set_res_data, push_res_list, get_queued_reserve_set, del_queued_reserve_set,
}
use blend_contracts.Pool.Reserve.{Reserve, store, to_stored}
use blend_contracts.Pool.Reserve.Same.{IsSame}
use blend_contracts.Pool.Cache.{load_pool, load_reserve}
use blend_contracts.Pool.Config.{
  same_curve, create_reserve, accrue_reserve, initialize_reserve, execute_set_reserve,
}
use blend_contracts.Pool.Ledger.{IsBooked, IsCached}
use blend_contracts.Pool.Ledger.Totals.{all_debts, all_claims}
use blend_contracts.Pool.Ledger.Load.{load_reserve-IsCached}
use blend_contracts.Pool.Ledger.Places.{
  nth-length, nth-length-none, length-++, nth-++_some, nth-++_none,
}
use blend_contracts.Pool.Ledger.Accounts.{IsAccounted, start-Matches}

curve-IsSame :
    (b : Bool) (q : Reserve) → IsSame q (if b then q else record q { ir_mod = pos scalar_9 })
curve-IsSame true q = record { asset = refl; index = refl; d_supply = refl; b_supply = refl }
curve-IsSame false q = record { asset = refl; index = refl; d_supply = refl; b_supply = refl }

module _ {Chain : Type 0} where
  -- A reserve that is configured at its place, with supplies that agree, keeps the books.
  configured :
      (asset : Address) (config : ReserveConfig) (d : ReserveData) (s s' : Storage Chain)
      → s'.res_configs ≡ insert asset config s.res_configs
      → s'.res_data ≡ insert asset d s.res_data
      → s'.positions ≡ s.positions
      → nth config.index s'.res_list ≡ some asset
      → ((i : ℕ) (b : Address) → nth i s.res_list ≡ some b → nth i s'.res_list ≡ some b)
      → ((i : ℕ) → nth i s'.res_list ≡ none → nth i s.res_list ≡ none)
      → IsBooked (all_debts s.positions) (all_claims s.positions) config d
      → IsAccounted s
      → IsAccounted s'
  configured asset config d s s' ec ed ep here keep less booked a = record {
    places = record {
      listed = λ b q h.
          let l = ap (lookup b) ec ∙ lookup-insert asset b config s.res_configs in
          elim (Bool-cases (asset == b)) [
            | inl t ↦
                let e : asset ≡ b = ground arith in
                let f : some config ≡ some q =
                  ap (λ x. if x then some config else lookup b s.res_configs) (sym t) ∙ sym l ∙ h in
                let g : config ≡ q = cc in
                ap (λ x. nth x.index s'.res_list) (sym g) ∙ here ∙ ap some e
            | inr n ↦
                let f : lookup b s.res_configs ≡ some q =
                  ap (λ x. if x then some config else lookup b s.res_configs) (sym n) ∙ sym l ∙ h in
                keep q.index b (a.places.listed b q f)
          ];
      unlisted = λ i h.
          let u = a.places.unlisted i (less i h) in
          (ap (λ m. all_debts m i) ep ∙ u.0, ap (λ m. all_claims m i) ep ∙ u.1);
    };
    booked = λ b q z h g.
        let l = ap (lookup b) ec ∙ lookup-insert asset b config s.res_configs in
        let k = ap (lookup b) ed ∙ lookup-insert asset b d s.res_data in
        subst (λ m. IsBooked (all_debts m) (all_claims m) q z) (sym ep)
          (elim (Bool-cases (asset == b)) [
            | inl t ↦
                let f : some config ≡ some q =
                  ap (λ x. if x then some config else lookup b s.res_configs) (sym t) ∙ sym l ∙ h in
                let r : some d ≡ some z =
                  ap (λ x. if x then some d else lookup b s.res_data) (sym t) ∙ sym k ∙ g in
                let f' : config ≡ q = cc in
                let r' : d ≡ z = cc in
                subst (λ x. IsBooked (all_debts s.positions) (all_claims s.positions) q x) r'
                  (subst (λ x. IsBooked (all_debts s.positions) (all_claims s.positions) x d) f'
                    booked)
            | inr n ↦
                let f : lookup b s.res_configs ≡ some q =
                  ap (λ x. if x then some config else lookup b s.res_configs) (sym n) ∙ sym l ∙ h in
                let r : lookup b s.res_data ≡ some z =
                  ap (λ x. if x then some d else lookup b s.res_data) (sym n) ∙ sym k ∙ g in
                a.booked b q z f r
          ]);
  }

module _ {Chain : Type 0} (e : Env) (math : FixedPoint) (asset : Address)
    (config : ReserveConfig) where
  -- A reserve with the index and the supplies of the loaded one, stored under the new configuration.
  stored-IsAccounted :
      (s : Storage Chain) (q r : Reserve)
      → IsCached (all_debts s.positions) (all_claims s.positions) s asset q
      → IsSame q r
      → IsAccounted s
      → IsAccounted (set_res_config asset (record config { index = q.index }) (store r s))
  unfolding set_res_config store set_res_data to_stored
  stored-IsAccounted s q r c same a =
      configured asset (record config { index = q.index }) (to_stored r) s _ refl
        (ap (λ x. insert x (to_stored r) s.res_data) (same.asset ∙ c.same_asset)) refl
        (ap (λ i. nth i s.res_list) c.same_index ∙ a.places.listed asset c.config c.stored_config)
        (λ i b h. h) (λ i h. h)
        (record {
          debts = same.d_supply ∙ c.debts ∙ ap (all_debts s.positions) (sym c.same_index);
          claims = same.b_supply ∙ c.claims ∙ ap (all_claims s.positions) (sym c.same_index);
        })
        a

  accrued-IsAccounted :
      (s : Storage Chain)
      → IsAccounted s
      → Ensures
          (λ r. IsAccounted (set_res_config asset (record config { index = r.0 }) r.1))
          (accrue_reserve e math asset config s)
  unfolding accrue_reserve
  accrued-IsAccounted s a = Ensures-bind (load_pool s) _ λ pool ep.
      Ensures-bind (load_reserve math e asset false s pool) _ λ r er.
        Ensures-bind (get_res_config asset s) _ λ old eo.
          Ensures-panic_if (not (old.decimals == config.decimals)) _ _ λ _.
            let q = r.0 in
            let c =
              (load_reserve-IsCached math e _ _ asset false s pool
                  ((start-Matches s a).at pool ep)).at
                r er in
            Ensures-ok _ (stored-IsAccounted s q _ c.0 (curve-IsSame (same_curve old config) q) a)

  created-IsAccounted :
      (s : Storage Chain)
      → IsAccounted s
      → Ensures
          (λ r. IsAccounted (set_res_config asset (record config { index = r.0 }) r.1))
          (create_reserve e asset s)
  unfolding create_reserve push_res_list set_res_config set_res_data
  created-IsAccounted s a =
      Ensures-bind (push_res_list asset s) _
        λ r er. Ensures-ok _ (pushed r ((pushed-IsPushed).at r er))
    where
      l : List Address
      l = s.res_list

      pushed-IsPushed :
          Ensures
            (λ r. (r.0 ≡ length l) × (r.1 ≡ record s { res_list = l ++ (asset ∷ []) }))
            (push_res_list asset s)
      pushed-IsPushed =
          Ensures-panic_if (length l == 32) _ _
            λ _. Ensures-ok _ (let h = length-++ asset l in omega arith, refl)

      init : ReserveData
      init = record {
        d_rate = pos scalar_9;
        b_rate = pos scalar_9;
        ir_mod = pos scalar_9;
        b_supply = pos 0;
        d_supply = pos 0;
        backstop_credit = pos 0;
        last_time = e.timestamp;
      }

      pushed :
          (r : ℕ × Storage Chain)
          → (r.0 ≡ length l) × (r.1 ≡ record s { res_list = l ++ (asset ∷ []) })
          → IsAccounted
              (set_res_config asset (record config { index = r.0 }) (set_res_data asset init r.1))
      pushed r (en, es) =
          let u = a.places.unlisted (length l) (nth-length-none l) in
          configured asset (record config { index = r.0 }) init s _
            (ap (λ x. insert asset (record config { index = r.0 }) x.res_configs) es)
            (ap (λ x. insert asset init x.res_data) es) (ap (λ x. x.positions) es)
            (ap (nth r.0) (ap (λ x. x.res_list) es)
              ∙ ap (λ i. nth i (l ++ (asset ∷ []))) en
              ∙ nth-length asset l)
            (λ i b h. ap (nth i) (ap (λ x. x.res_list) es) ∙ nth-++_some i asset b l h)
            (λ i h. nth-++_none i asset l (ap (nth i) (sym (ap (λ x. x.res_list) es)) ∙ h))
            (record {
              debts = sym (ap (all_debts s.positions) en ∙ u.0);
              claims = sym (ap (all_claims s.positions) en ∙ u.1);
            })
            a

  initialized-IsAccounted :
      (s : Storage Chain)
      → IsAccounted s
      → Ensures (λ r. IsAccounted r.1) (initialize_reserve e math asset config s)
  unfolding initialize_reserve
  initialized-IsAccounted s a =
      Ensures-bind
        (if has_res asset s then accrue_reserve e math asset config s else create_reserve e asset s)
        _
        λ r er. Ensures-ok _ (
          (Ensures-if (has_res asset s) _ _ (λ _. accrued-IsAccounted s a)
              (λ _. created-IsAccounted s a)).at
            r er)

-- The configuration of a reserve, new or not, keeps each reserve's d and b supply the sum of what all
-- users owe and hold in it.
pub set_reserve-IsAccounted :
    {Chain : Type 0} (e : Env) (math : FixedPoint) (asset : Address) (s : Storage Chain)
    → IsAccounted s
    → Ensures (λ r. IsAccounted r.1) (execute_set_reserve e math asset s)
unfolding execute_set_reserve del_queued_reserve_set
set_reserve-IsAccounted e math asset s a = Ensures-bind (get_queued_reserve_set asset s) _ λ q _.
    Ensures-panic_if (ltb e.timestamp q.unlock_time) _ _ λ _.
      initialized-IsAccounted e math asset q.new_config (del_queued_reserve_set asset s) (record {
        places = record { listed = a.places.listed; unlisted = a.places.unlisted };
        booked = a.booked;
      })
