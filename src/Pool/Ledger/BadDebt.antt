-- ===== src/Pool/Ledger/BadDebt.antt =====
-- The books over a transfer of bad debt to the backstop: pool/src/pool/bad_debt.rs.
use blend_contracts.Base.{
  nth, ℕ, ◌≡◌, inl, refl, ap, ◌∙◌, true, false, ◌||◌, not, [], ◌∷◌, arith, ◌==◌, ℤ, ◌+ℤ◌, ◌-ℤ◌,
  int_laws, or_panic, host, Ensures, Ensures-ok, Ensures-bind, Ensures-panic_if,
}
use blend_contracts.Base.Map.{Map, nat_key, get_or}
use blend_contracts.Base.Host.{Address, Env}
use blend_contracts.Pool.State.{Storage, env_default, get_backstop, set_user_positions}
use blend_contracts.Pool.Reserve.{Reserve}
use blend_contracts.Pool.Cache.{load_pool, load_reserve, cache_reserve, store_cached_reserves}
use blend_contracts.Pool.Emissions.Frame.{Kept, same-Kept, trans-Kept}
use blend_contracts.Pool.User.{
  User, Changed, load_user, store_user, is_empty, add_liabilities, remove_liabilities,
}
use blend_contracts.Pool.User.Ledger.{debt, claims, Together, changes_Together}
use blend_contracts.Pool.User.Moves.{Working}
use blend_contracts.Pool.Outside.{Outside}
use blend_contracts.Pool.Submit.{bad_debt_loop, transfer_bad_debt_to_backstop}
use blend_contracts.Pool.Ledger.{Matches}
use blend_contracts.Pool.Ledger.Totals.{
  position_debt, position_claims, all_debts, all_claims, load_user-positions,
}
use blend_contracts.Pool.Ledger.Keep.{keep-Matches}
use blend_contracts.Pool.Ledger.Load.{load_reserve-IsCached}
use blend_contracts.Pool.Ledger.Change.{Moved, cache-Matches}
use blend_contracts.Pool.Ledger.Stored.{IsSettled, store_cached-IsSettled}
use blend_contracts.Pool.Ledger.Pending.{two_debts, two_claims}
use blend_contracts.Pool.Ledger.Fill.{IsTwoShift}
use blend_contracts.Pool.Ledger.Accounts.{IsAccounted, start-Matches, settled-IsAccounted}

-- A step that moves the positions of two users in memory.
pub record IsTwoStep {Chain : Type 0} (w : Working Chain) (v : User) (r : Working Chain × User)
    : Type 0 where
  pub same_first : r.0.user.address ≡ w.user.address
  pub same_second : r.1.address ≡ v.address
  pub kept : Kept w.storage r.0.storage
  pub moved :
      (owed held owed' held' : ℕ → ℤ)
      → Matches owed held w.storage w.pool
      → IsTwoShift owed held owed' held' w.user r.0.user v r.1
      → Matches owed' held' r.0.storage r.0.pool

module _ {Chain : Type 0} where
  two_Moved :
      (owed held owed' held' : ℕ → ℤ) (u v : User) (r : Reserve) (s : Storage Chain)
      (c d : Changed Chain)
      → Together u r s c
      → Together v c.reserve c.storage d
      → IsTwoShift owed held owed' held' u c.user v d.user
      → Moved owed held owed' held' r d.reserve
  two_Moved owed held owed' held' u v r s c d t q sh = record {
    same_asset = q.same_asset ∙ t.same_asset;
    same_index = q.same_index ∙ t.same_index;
    debts =
        (let a = t.debts in
          let b = q.debts in
          let h = sh.debts r.index in
          let x = ap (λ i. debt i v) t.same_index in
          let y = ap (λ i. debt i d.user) t.same_index in omega int_laws);
    claims =
        (let a = t.claimed in
          let b = q.claimed in
          let h = sh.claimed r.index in
          let x = ap (λ i. claims i v) t.same_index in
          let y = ap (λ i. claims i d.user) t.same_index in omega int_laws);
    others = λ i ne.
        let a = t.others i ne in
        let b = q.others i (ap (λ x. i == x) t.same_index ∙ ne) in
        let a₀ = a.0 in
        let a₁ = a.1 in
        let b₀ = b.0 in
        let b₁ = b.1 in
        let h = sh.debts i in let k = sh.claimed i in (omega int_laws, omega int_laws);
  }

  trans-IsTwoStep :
      (w w₁ : Working Chain) (v v₁ : User) (r : Working Chain × User)
      → IsTwoStep w v (w₁, v₁)
      → IsTwoStep w₁ v₁ r
      → IsTwoStep w v r
  trans-IsTwoStep w w₁ v v₁ r p q = record {
    same_first = q.same_first ∙ p.same_first;
    same_second = q.same_second ∙ p.same_second;
    kept = trans-Kept _ _ _ p.kept q.kept;
    moved = λ owed held owed' held' m sh.
        let owed₁ = λ (i : ℕ). owed i +ℤ debt i w₁.user +ℤ debt i v₁ -ℤ debt i w.user -ℤ debt i v in
        let held₁ =
          λ (i : ℕ). held i +ℤ claims i w₁.user +ℤ claims i v₁ -ℤ claims i w.user -ℤ claims i v in
        q.moved owed₁ held₁ owed' held'
          (p.moved owed held owed₁ held₁ m
            (record { debts = λ i. omega int_laws; claimed = λ i. omega int_laws }))
          (record {
            debts = λ i. let h = sh.debts i in omega int_laws;
            claimed = λ i. let h = sh.claimed i in omega int_laws;
          });
  }

module _ {Chain : Type 0} (o : Outside Chain) (e : Env) where
  loop-IsTwoStep :
      (liabilities : Map ℕ ℤ) (w : Working Chain) (v : User)
      → Ensures (IsTwoStep w v) (bad_debt_loop o e liabilities w v)
  unfolding bad_debt_loop
  loop-IsTwoStep [] w v = Ensures-ok _ (record {
    same_first = refl;
    same_second = refl;
    kept = same-Kept w.storage;
    moved = λ owed held owed' held' m sh.
        keep-Matches owed held owed' held' (λ i. let h = sh.debts i in omega int_laws)
          (λ i. let h = sh.claimed i in omega int_laws) w.storage w.storage w.pool w.pool refl refl
          refl refl refl m;
  })
  loop-IsTwoStep ((i, amount) ∷ rest) w v =
      Ensures-bind (or_panic host (nth i w.storage.res_list)) _ λ asset _.
        Ensures-bind (load_reserve o.math e asset true w.storage w.pool) _ λ r er.
          Ensures-bind (add_liabilities o.math e amount r.0 w.user w.storage) _ λ c ec.
            Ensures-bind (remove_liabilities o.math e amount c.reserve v c.storage) _ λ d ed.
              let w₁ : Working Chain = record {
                user = c.user;
                pool = cache_reserve d.reserve r.1;
                storage = d.storage;
              } in
              let t = (changes_Together o.math e amount r.0 w.user w.storage).0.at c ec in
              let q = (changes_Together o.math e amount c.reserve v c.storage).1.at d ed in
              record {
                at = λ z ez.
                    trans-IsTwoStep w w₁ v d.user z
                      (record {
                        same_first = t.same_address;
                        same_second = q.same_address;
                        kept = trans-Kept _ _ _ t.kept q.kept;
                        moved = λ owed held owed' held' m sh.
                            let l =
                              (load_reserve-IsCached o.math e owed held asset true w.storage w.pool
                                  m).at
                                r er in
                            cache-Matches owed held owed' held' w.storage d.storage asset r.0
                              d.reserve m.places l.0 (trans-Kept _ _ _ t.kept q.kept)
                              (two_Moved owed held owed' held' w.user v r.0 w.storage c d t q sh)
                              true w.pool r.1 m l.1 (inl refl);
                      })
                      ((loop-IsTwoStep rest w₁ d.user).at z ez);
              }

  -- The end of the call: both users are stored.
  both_stored :
      (k user : Address) (u v : User) (s s₁ s' : Storage Chain) (owed held : ℕ → ℤ)
      → (user == k) ≡ false
      → u.address ≡ k
      → v.address ≡ user
      → s₁.positions ≡ s.positions
      → IsTwoShift
          (all_debts s.positions)
          (all_claims s.positions)
          owed
          held
          (load_user k s)
          u
          (load_user user s)
          v
      → IsSettled owed held s₁ s'
      → IsAccounted (store_user v (store_user u s'))
  unfolding store_user set_user_positions
  both_stored k user u v s s₁ s' owed held ne eu ev ep sh t =
      settled-IsAccounted owed held s₁ s' (store_user v (store_user u s')) t refl refl refl
        (λ i.
          let h = sh.debts i in
          let w = two_debts v u s' i nu in
          let lk = ap (λ q. position_debt i k q) (load_user-positions k s) in
          let lu = ap (λ q. position_debt i k q) (load_user-positions user s) in
          let gk = ap (λ q. position_debt i k q) (get_at k u.address eu) in
          let gu = ap (λ q. position_debt i k q) (get_at user v.address ev) in
          let gp = ap (λ m. all_debts m i) same in omega int_laws)
        (λ i.
          let h = sh.claimed i in
          let w = two_claims v u s' i nu in
          let lk = ap (λ q. position_claims i k q) (load_user-positions k s) in
          let lu = ap (λ q. position_claims i k q) (load_user-positions user s) in
          let gk = ap (λ q. position_claims i k q) (get_at k u.address eu) in
          let gu = ap (λ q. position_claims i k q) (get_at user v.address ev) in
          let gp = ap (λ m. all_claims m i) same in omega int_laws)
    where
      same : s'.positions ≡ s.positions
      same = t.positions ∙ ep

      nu : (u.address == v.address) ≡ false
      nu = ap (λ x. x == v.address) eu ∙ ap (λ x. k == x) ev ∙ ground (arith, ne)

      get_at :
          (a b : Address)
          → b ≡ a
          → get_or b env_default s'.positions ≡ get_or a env_default s.positions
      get_at a b h = ap (λ x. get_or x env_default s'.positions) h ∙ ap (get_or a env_default) same

  -- A transfer of bad debt keeps each reserve's d and b supply the sum of what all users owe and hold
  -- in it.
  pub bad_debt-IsAccounted :
      (user : Address) (s : Storage Chain)
      → IsAccounted s
      → Ensures IsAccounted (transfer_bad_debt_to_backstop o e user s)
  unfolding transfer_bad_debt_to_backstop load_user
  bad_debt-IsAccounted user s a = Ensures-bind (get_backstop s) _ λ k _.
      Ensures-panic_if (user == k) _ _ λ ne.
        let v = load_user user s in
        Ensures-panic_if (not (is_empty v.positions.collateral) || is_empty v.positions.liabilities)
          _ _
          λ _. Ensures-bind (load_pool s) _ λ pool ep.
            let w : Working Chain = record { user = load_user k s; pool = pool; storage = s } in
            Ensures-bind (bad_debt_loop o e v.positions.liabilities w v) _ λ r er.
              let t = (loop-IsTwoStep v.positions.liabilities w v).at r er in
              let u' = r.0.user in
              let v' = r.1 in
              let d = all_debts s.positions in
              let h = all_claims s.positions in
              let u = w.user in
              let owed = λ (i : ℕ). d i +ℤ debt i u' +ℤ debt i v' -ℤ debt i u -ℤ debt i v in
              let held = λ (i : ℕ). h i +ℤ claims i u' +ℤ claims i v' -ℤ claims i u -ℤ claims i v in
              let sh : IsTwoShift d h owed held u u' v v' = record {
                debts = λ i. omega int_laws;
                claimed = λ i. omega int_laws;
              } in
              let m = t.moved d h owed held ((start-Matches s a).at pool ep) sh in
              Ensures-bind (store_cached_reserves r.0.pool r.0.storage) _ λ stored es.
                Ensures-ok _ (
                  both_stored k user u' v' s r.0.storage stored owed held ne t.same_first
                    t.same_second t.kept.positions sh
                    ((store_cached-IsSettled owed held r.0.pool r.0.storage m).at stored es))
