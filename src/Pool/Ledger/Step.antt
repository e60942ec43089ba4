-- ===== src/Pool/Ledger/Step.antt =====
-- Steps of a call that move a user's positions and the reserves in memory together, in the books:
-- pool/src/pool/user.rs.
use blend_contracts.Base.{
  ℕ, ◌≡◌, inl, refl, ◌∙◌, true, [], ◌∷◌, ok, ℤ, ◌+ℤ◌, ◌-ℤ◌, int_laws, Outcome, Ensures, Ensures-ok,
  Ensures-bind,
}
use blend_contracts.Base.Map.{Map}
use blend_contracts.Base.FixedPoint.{FixedPoint}
use blend_contracts.Base.Host.{Address, Env}
use blend_contracts.Pool.State.{Storage}
use blend_contracts.Pool.Reserve.{Reserve}
use blend_contracts.Pool.Cache.{Pool, load_reserve, cache_reserve}
use blend_contracts.Pool.Emissions.Frame.{Kept, same-Kept, trans-Kept}
use blend_contracts.Pool.User.{
  User, Changed, add_liabilities, remove_liabilities, add_collateral, remove_collateral,
}
use blend_contracts.Pool.User.Ledger.{debt, claims, Together, changes_Together}
use blend_contracts.Pool.User.Moves.{
  Working, change_position, change_positions, rm_positions, add_positions,
}
use blend_contracts.Pool.Ledger.{Matches}
use blend_contracts.Pool.Ledger.Keep.{keep-Matches}
use blend_contracts.Pool.Ledger.Load.{load_reserve-IsCached}
use blend_contracts.Pool.Ledger.Change.{Moved, cache-Matches}

-- What is owed and held moves by what a user's positions move.
pub record IsShift (owed held owed' held' : ℕ → ℤ) (u u' : User) : Type 0 where
  pub debts : (i : ℕ) → owed' i +ℤ debt i u ≡ owed i +ℤ debt i u'
  pub claimed : (i : ℕ) → held' i +ℤ claims i u ≡ held i +ℤ claims i u'

-- The same user, the same stored reserves and positions, and books that still agree.
pub record IsStep {Chain : Type 0} (w w' : Working Chain) : Type 0 where
  pub same_address : w'.user.address ≡ w.user.address
  pub kept : Kept w.storage w'.storage
  pub moved :
      (owed held owed' held' : ℕ → ℤ)
      → Matches owed held w.storage w.pool
      → IsShift owed held owed' held' w.user w'.user
      → Matches owed' held' w'.storage w'.pool

module _ {Chain : Type 0} where
  -- A step that changes no position and no reserve.
  pub keep-IsStep :
      (w : Working Chain) (pool : Pool) (s : Storage Chain)
      → Kept w.storage s
      → pool.reserves ≡ w.pool.reserves
      → pool.reserves_to_store ≡ w.pool.reserves_to_store
      → IsStep w (record { user = w.user; pool = pool; storage = s })
  keep-IsStep w pool s k er et = record {
    same_address = refl;
    kept = k;
    moved = λ owed held owed' held' m sh.
        keep-Matches owed held owed' held' (λ i. let h = sh.debts i in omega int_laws)
          (λ i. let h = sh.claimed i in omega int_laws) w.storage s w.pool pool k.res_configs
          k.res_data k.res_list er et m;
  }

  pub trans-IsStep : (a b c : Working Chain) → IsStep a b → IsStep b c → IsStep a c
  trans-IsStep a b c p q = record {
    same_address = q.same_address ∙ p.same_address;
    kept = trans-Kept a.storage b.storage c.storage p.kept q.kept;
    moved = λ owed held owed' held' m sh.
        let owed₁ = λ (i : ℕ). owed i +ℤ debt i b.user -ℤ debt i a.user in
        let held₁ = λ (i : ℕ). held i +ℤ claims i b.user -ℤ claims i a.user in
        q.moved owed₁ held₁ owed' held'
          (p.moved owed held owed₁ held₁ m
            (record { debts = λ i. omega int_laws; claimed = λ i. omega int_laws }))
          (record {
            debts = λ i. let h = sh.debts i in omega int_laws;
            claimed = λ i. let h = sh.claimed i in omega int_laws;
          });
  }

  -- The supplies and the positions move together, so the books do.
  shift-Moved :
      (owed held owed' held' : ℕ → ℤ) (u : User) (r : Reserve) (s : Storage Chain)
      (c : Changed Chain)
      → Together u r s c
      → IsShift owed held owed' held' u c.user
      → Moved owed held owed' held' r c.reserve
  shift-Moved owed held owed' held' u r s c t sh = record {
    same_asset = t.same_asset;
    same_index = t.same_index;
    debts = (let h = sh.debts r.index in let k = t.debts in omega int_laws);
    claims = (let h = sh.claimed r.index in let k = t.claimed in omega int_laws);
    others = λ i ne.
        let o = t.others i ne in
        let h = sh.debts i in
        let k = sh.claimed i in let o₀ = o.0 in let o₁ = o.1 in (omega int_laws, omega int_laws);
  }

  module _ (math : FixedPoint) (e : Env) where
    -- A loaded reserve, and a change of the user's position in it.
    pub change-IsStep :
        (asset : Address) (w : Working Chain) (r : Reserve × Pool) (c : Changed Chain)
        → load_reserve math e asset true w.storage w.pool ≡ ok r
        → Together w.user r.0 w.storage c
        → IsStep w
            (record { user = c.user; pool = cache_reserve c.reserve r.1; storage = c.storage })
    change-IsStep asset w r c er t = record {
      same_address = t.same_address;
      kept = t.kept;
      moved = λ owed held owed' held' m sh.
          let l = (load_reserve-IsCached math e owed held asset true w.storage w.pool m).at r er in
          cache-Matches owed held owed' held' w.storage c.storage asset r.0 c.reserve m.places l.0
            t.kept (shift-Moved owed held owed' held' w.user r.0 w.storage c t sh) true w.pool r.1 m
            l.1 (inl refl);
    }

    change_position-IsStep :
        (change : Reserve → User → Storage Chain → Outcome (Changed Chain))
        (together : (r : Reserve) (u : User) (s : Storage Chain)
          → Ensures (Together u r s) (change r u s))
        (asset : Address) (w : Working Chain)
        → Ensures (IsStep w) (change_position math e change asset w)
    unfolding change_position
    change_position-IsStep change together asset w =
        Ensures-bind (load_reserve math e asset true w.storage w.pool) _ λ r er.
          Ensures-bind (change r.0 w.user w.storage) _ λ c ec.
            Ensures-ok _ (change-IsStep asset w r c er ((together r.0 w.user w.storage).at c ec))

    change_positions-IsStep :
        (change : ℤ → Reserve → User → Storage Chain → Outcome (Changed Chain))
        (together : (x : ℤ) (r : Reserve) (u : User) (s : Storage Chain)
          → Ensures (Together u r s) (change x r u s))
        (amounts : Map Address ℤ) (w : Working Chain)
        → Ensures (IsStep w) (change_positions math e change amounts w)
    unfolding change_positions
    change_positions-IsStep change together [] w =
        Ensures-ok w (keep-IsStep w w.pool w.storage (same-Kept w.storage) refl refl)
    change_positions-IsStep change together ((asset, amount) ∷ amounts) w =
        Ensures-bind (change_position math e (change amount) asset w) _ λ w₁ e₁. record {
          at = λ w₂ e₂.
              trans-IsStep w w₁ w₂
                ((change_position-IsStep (change amount) (together amount) asset w).at w₁ e₁)
                ((change_positions-IsStep change together amounts w₁).at w₂ e₂);
        }

    pub rm_positions-IsStep :
        (collateral liabilities : Map Address ℤ) (w : Working Chain)
        → Ensures (IsStep w) (rm_positions math e collateral liabilities w)
    unfolding rm_positions
    rm_positions-IsStep collateral liabilities w =
        Ensures-bind (change_positions math e (remove_collateral math e) collateral w) _ λ w₁ e₁.
          record {
            at = λ w₂ e₂.
                trans-IsStep w w₁ w₂
                  ((change_positions-IsStep (remove_collateral math e)
                      (λ x r u s. (changes_Together math e x r u s).3) collateral w).at
                    w₁ e₁)
                  ((change_positions-IsStep (remove_liabilities math e)
                      (λ x r u s. (changes_Together math e x r u s).1) liabilities w₁).at
                    w₂ e₂);
          }

    pub add_positions-IsStep :
        (collateral liabilities : Map Address ℤ) (w : Working Chain)
        → Ensures (IsStep w) (add_positions math e collateral liabilities w)
    unfolding add_positions
    add_positions-IsStep collateral liabilities w =
        Ensures-bind (change_positions math e (add_collateral math e) collateral w) _ λ w₁ e₁.
          record {
            at = λ w₂ e₂.
                trans-IsStep w w₁ w₂
                  ((change_positions-IsStep (add_collateral math e)
                      (λ x r u s. (changes_Together math e x r u s).2) collateral w).at
                    w₁ e₁)
                  ((change_positions-IsStep (add_liabilities math e)
                      (λ x r u s. (changes_Together math e x r u s).0) liabilities w₁).at
                    w₂ e₂);
          }
