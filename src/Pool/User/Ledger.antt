-- ===== src/Pool/User/Ledger.antt =====
-- The positions of a user and the supplies of the reserves move together: pool/src/pool/user.rs.
use blend_contracts.Base.{
  ℕ, ◌≡◌, refl, true, false, arith, ◌==◌, ℤ, pos, ◌+ℤ◌, int_laws, eqb_ℤ, add_i128, sub_i128,
  checked_ok, add_u, mul_u, Ensures, Ensures-ok, Ensures-bind, Ensures-panic_if,
}
use blend_contracts.Base.Map.{nat_key}
use blend_contracts.Base.FixedPoint.{FixedPoint}
use blend_contracts.Base.Host.{Env}
use blend_contracts.Pool.State.{Storage, require_nonnegative}
use blend_contracts.Pool.Reserve.{Reserve}
use blend_contracts.Pool.Emissions.Frame.{Kept, update_emissions-Kept}
use blend_contracts.Pool.User.{
  User, Changed, get_liabilities, get_collateral, get_supply, get_total_supply, update_d_emissions,
  update_b_emissions, add_liabilities, remove_liabilities, add_collateral, remove_collateral,
  add_supply, remove_supply,
}
use blend_contracts.Pool.User.Balance.{balance, add-balance, sub-balance}

-- The user's debt and claims at the index of a reserve, and at any other index.
abbrev pub debt : ℕ → User → ℤ
debt i user = balance i user.positions.liabilities

abbrev pub claims : ℕ → User → ℤ
claims i user = balance i user.positions.collateral +ℤ balance i user.positions.supply

-- A change moves the supplies of the reserve by what it moves the user's positions there, in and out,
-- and leaves the positions in the other reserves and what is stored of reserves and positions.
pub record Together {Chain : Type 0} (user : User) (reserve : Reserve) (s : Storage Chain)
    (c : Changed Chain) : Type 0 where
  pub same_asset : c.reserve.asset ≡ reserve.asset
  pub same_index : c.reserve.index ≡ reserve.index
  pub same_address : c.user.address ≡ user.address
  pub kept : Kept s c.storage
  pub debts :
      c.reserve.d_supply +ℤ debt reserve.index user ≡ reserve.d_supply +ℤ debt reserve.index c.user
  pub claimed :
      c.reserve.b_supply +ℤ claims reserve.index user
      ≡ reserve.b_supply +ℤ claims reserve.index c.user
  pub others :
      (i : ℕ)
      → (i == reserve.index) ≡ false
      → (debt i c.user ≡ debt i user) × (claims i c.user ≡ claims i user)

module _ {Chain : Type 0} (math : FixedPoint) (e : Env) where
  update_d-Kept :
      (reserve : Reserve) (amount : ℤ) (user : User) (s : Storage Chain)
      → Ensures (λ r. Kept s r.1) (update_d_emissions math e reserve amount user s)
  unfolding update_d_emissions
  update_d-Kept reserve amount user s =
      Ensures-bind (mul_u 32 reserve.index 2) _ λ id _.
        update_emissions-Kept math e id reserve.d_supply reserve.scalar user.address amount s

  update_b-Kept :
      (reserve : Reserve) (amount : ℤ) (user : User) (s : Storage Chain)
      → Ensures (λ r. Kept s r.1) (update_b_emissions math e reserve amount user s)
  unfolding update_b_emissions
  update_b-Kept reserve amount user s = Ensures-bind (mul_u 32 reserve.index 2) _ λ twice _.
      Ensures-bind (add_u 32 twice 1) _ λ id _.
        update_emissions-Kept math e id reserve.b_supply reserve.scalar user.address amount s

  add_liabilities_lem :
      (x : ℤ) (reserve : Reserve) (user : User) (s : Storage Chain)
      → Ensures (Together user reserve s) (add_liabilities math e x reserve user s)
  unfolding add_liabilities get_liabilities
  add_liabilities_lem x reserve user s = Ensures-panic_if (eqb_ℤ x (pos 0)) _ _ λ _.
      Ensures-bind (update_d_emissions math e reserve (get_liabilities reserve.index user) user s) _
        λ r er. Ensures-bind (add_i128 (get_liabilities reserve.index user) x) _ λ v ev.
          Ensures-bind (add_i128 reserve.d_supply x) _ λ d ed.
            let b = λ (i : ℕ). add-balance i reserve.index x v user.positions.liabilities ev in
            let t : (reserve.index == reserve.index) ≡ true = ground arith in
            let es = checked_ok _ ed in
            Ensures-ok _ (record {
              same_asset = refl;
              same_index = refl;
              same_address = refl;
              kept = (update_d-Kept reserve (get_liabilities reserve.index user) user s).at r er;
              debts = (let h = b reserve.index in omega (int_laws, es, (rw t at h)));
              claimed = refl;
              others = λ i ne. let h = b i in (omega (int_laws, (rw ne at h)), refl);
            })

  remove_liabilities_lem :
      (x : ℤ) (reserve : Reserve) (user : User) (s : Storage Chain)
      → Ensures (Together user reserve s) (remove_liabilities math e x reserve user s)
  unfolding remove_liabilities get_liabilities
  remove_liabilities_lem x reserve user s = Ensures-panic_if (eqb_ℤ x (pos 0)) _ _ λ _.
      Ensures-bind (update_d_emissions math e reserve (get_liabilities reserve.index user) user s) _
        λ r er. Ensures-bind (sub_i128 (get_liabilities reserve.index user) x) _ λ v ev.
          Ensures-bind (require_nonnegative v) _ λ u _.
            Ensures-bind (sub_i128 reserve.d_supply x) _ λ d ed.
              let b = λ (i : ℕ). sub-balance i reserve.index x v user.positions.liabilities ev in
              let t : (reserve.index == reserve.index) ≡ true = ground arith in
              let es = checked_ok _ ed in
              Ensures-ok _ (record {
                same_asset = refl;
                same_index = refl;
                same_address = refl;
                kept = (update_d-Kept reserve (get_liabilities reserve.index user) user s).at r er;
                debts = (let h = b reserve.index in omega (int_laws, es, (rw t at h)));
                claimed = refl;
                others = λ i ne. let h = b i in (omega (int_laws, (rw ne at h)), refl);
              })

  add_collateral_lem :
      (x : ℤ) (reserve : Reserve) (user : User) (s : Storage Chain)
      → Ensures (Together user reserve s) (add_collateral math e x reserve user s)
  unfolding add_collateral get_collateral
  add_collateral_lem x reserve user s = Ensures-panic_if (eqb_ℤ x (pos 0)) _ _ λ _.
      Ensures-bind (get_total_supply reserve.index user) _ λ held _.
        Ensures-bind (update_b_emissions math e reserve held user s) _ λ r er.
          Ensures-bind (add_i128 (get_collateral reserve.index user) x) _ λ v ev.
            Ensures-bind (add_i128 reserve.b_supply x) _ λ d ed.
              let b = λ (i : ℕ). add-balance i reserve.index x v user.positions.collateral ev in
              let t : (reserve.index == reserve.index) ≡ true = ground arith in
              let es = checked_ok _ ed in
              Ensures-ok _ (record {
                same_asset = refl;
                same_index = refl;
                same_address = refl;
                kept = (update_b-Kept reserve held user s).at r er;
                debts = refl;
                claimed = (let h = b reserve.index in omega (int_laws, es, (rw t at h)));
                others = λ i ne. let h = b i in (refl, omega (int_laws, (rw ne at h)));
              })

  remove_collateral_lem :
      (x : ℤ) (reserve : Reserve) (user : User) (s : Storage Chain)
      → Ensures (Together user reserve s) (remove_collateral math e x reserve user s)
  unfolding remove_collateral get_collateral
  remove_collateral_lem x reserve user s = Ensures-panic_if (eqb_ℤ x (pos 0)) _ _ λ _.
      Ensures-bind (get_total_supply reserve.index user) _ λ held _.
        Ensures-bind (update_b_emissions math e reserve held user s) _ λ r er.
          Ensures-bind (sub_i128 (get_collateral reserve.index user) x) _ λ v ev.
            Ensures-bind (require_nonnegative v) _ λ u _.
              Ensures-bind (sub_i128 reserve.b_supply x) _ λ d ed.
                let b = λ (i : ℕ). sub-balance i reserve.index x v user.positions.collateral ev in
                let t : (reserve.index == reserve.index) ≡ true = ground arith in
                let es = checked_ok _ ed in
                Ensures-ok _ (record {
                  same_asset = refl;
                  same_index = refl;
                  same_address = refl;
                  kept = (update_b-Kept reserve held user s).at r er;
                  debts = refl;
                  claimed = (let h = b reserve.index in omega (int_laws, es, (rw t at h)));
                  others = λ i ne. let h = b i in (refl, omega (int_laws, (rw ne at h)));
                })

  add_supply_lem :
      (x : ℤ) (reserve : Reserve) (user : User) (s : Storage Chain)
      → Ensures (Together user reserve s) (add_supply math e x reserve user s)
  unfolding add_supply get_supply
  add_supply_lem x reserve user s = Ensures-panic_if (eqb_ℤ x (pos 0)) _ _ λ _.
      Ensures-bind (get_total_supply reserve.index user) _ λ held _.
        Ensures-bind (update_b_emissions math e reserve held user s) _ λ r er.
          Ensures-bind (add_i128 (get_supply reserve.index user) x) _ λ v ev.
            Ensures-bind (add_i128 reserve.b_supply x) _ λ d ed.
              let b = λ (i : ℕ). add-balance i reserve.index x v user.positions.supply ev in
              let t : (reserve.index == reserve.index) ≡ true = ground arith in
              let es = checked_ok _ ed in
              Ensures-ok _ (record {
                same_asset = refl;
                same_index = refl;
                same_address = refl;
                kept = (update_b-Kept reserve held user s).at r er;
                debts = refl;
                claimed = (let h = b reserve.index in omega (int_laws, es, (rw t at h)));
                others = λ i ne. let h = b i in (refl, omega (int_laws, (rw ne at h)));
              })

  remove_supply_lem :
      (x : ℤ) (reserve : Reserve) (user : User) (s : Storage Chain)
      → Ensures (Together user reserve s) (remove_supply math e x reserve user s)
  unfolding remove_supply get_supply
  remove_supply_lem x reserve user s = Ensures-panic_if (eqb_ℤ x (pos 0)) _ _ λ _.
      Ensures-bind (get_total_supply reserve.index user) _ λ held _.
        Ensures-bind (update_b_emissions math e reserve held user s) _ λ r er.
          Ensures-bind (sub_i128 (get_supply reserve.index user) x) _ λ v ev.
            Ensures-bind (require_nonnegative v) _ λ u _.
              Ensures-bind (sub_i128 reserve.b_supply x) _ λ d ed.
                let b = λ (i : ℕ). sub-balance i reserve.index x v user.positions.supply ev in
                let t : (reserve.index == reserve.index) ≡ true = ground arith in
                let es = checked_ok _ ed in
                Ensures-ok _ (record {
                  same_asset = refl;
                  same_index = refl;
                  same_address = refl;
                  kept = (update_b-Kept reserve held user s).at r er;
                  debts = refl;
                  claimed = (let h = b reserve.index in omega (int_laws, es, (rw t at h)));
                  others = λ i ne. let h = b i in (refl, omega (int_laws, (rw ne at h)));
                })

  -- Each of the six changes of a position that goes through moves the reserve's d or b supply by
  -- as much as it moves the user's debts or claims at the index of the reserve, keeps the
  -- reserve's asset and index and the user's address, leaves the user's debts and claims at every
  -- other index, and writes neither the stored reserves nor the stored positions.
  pub changes_Together :
      (x : ℤ) (reserve : Reserve) (user : User) (s : Storage Chain)
      → Ensures (Together user reserve s) (add_liabilities math e x reserve user s)
        × Ensures (Together user reserve s) (remove_liabilities math e x reserve user s)
        × Ensures (Together user reserve s) (add_collateral math e x reserve user s)
        × Ensures (Together user reserve s) (remove_collateral math e x reserve user s)
        × Ensures (Together user reserve s) (add_supply math e x reserve user s)
        × Ensures (Together user reserve s) (remove_supply math e x reserve user s)
  changes_Together x reserve user s = (
    add_liabilities_lem x reserve user s,
    remove_liabilities_lem x reserve user s,
    add_collateral_lem x reserve user s,
    remove_collateral_lem x reserve user s,
    add_supply_lem x reserve user s,
    remove_supply_lem x reserve user s,
  )
