-- ===== src/Pool/Ledger/Load.antt =====
-- A reserve that is loaded, changed and cached again, in the books: `load_reserve` and `cache_reserve`
-- of pool/src/pool/pool.rs.
use blend_contracts.Base.{
  ℕ, ◌≡◌, ◌⊎◌, inl, inr, refl, ◌∙◌, Bool, true, false, ◌||◌, Bool-cases, List, [], ◌∷◌, ◌++◌, arith,
  ◌==◌, ℤ, Ensures, Ensures-ok, Ensures-bind, Ensures-option,
}
use blend_contracts.Base.Map.{nat_key, lookup}
use blend_contracts.Base.FixedPoint.{FixedPoint}
use blend_contracts.Base.Host.{Address, Env}
use blend_contracts.Pool.State.{Storage}
use blend_contracts.Pool.Reserve.{load}
use blend_contracts.Pool.Reserve.Same.{load-IsLoaded}
use blend_contracts.Pool.Cache.{Pool, contains, mark, load_reserve}
use blend_contracts.Pool.Ledger.{IsCached, Matches}

-- The pool with an asset marked or not, by a flag.
pub record IsMarked (asset : Address) (flag : Bool) (pool pool' : Pool) : Type 0 where
  pub reserves : pool'.reserves ≡ pool.reserves
  pub here : flag ≡ true → contains asset pool'.reserves_to_store ≡ true
  pub others :
      (b : Address)
      → (flag ≡ false) ⊎ ((asset == b) ≡ false)
      → contains b pool'.reserves_to_store ≡ contains b pool.reserves_to_store

contains-++ :
    (b a : Address) (l : List Address) → contains b (l ++ (a ∷ [])) ≡ (contains b l || (a == b))
contains-++ b a [] = ground arith
contains-++ b a (c ∷ l) = ground (arith, contains-++ b a l)

pub mark-IsMarked :
    (asset : Address) (flag : Bool) (pool : Pool) → IsMarked asset flag pool (mark asset flag pool)
unfolding mark
mark-IsMarked asset false pool = record {
  reserves = refl;
  here = λ h. absurd (cc h);
  others = λ b h. refl;
}
mark-IsMarked asset true pool = elim (Bool-cases (contains asset pool.reserves_to_store)) [
  | inl t ↦ rw t (record { reserves = refl; here = λ h. t; others = λ b h. refl })
  | inr f ↦ rw f (record {
    reserves = refl;
    here = λ h. ground (arith, contains-++ asset asset pool.reserves_to_store);
    others = λ b h. ground (arith, contains-++ b asset pool.reserves_to_store);
  })
]

module _ {Chain : Type 0} (math : FixedPoint) (e : Env) where
  -- What `load_reserve` gives agrees with the books.
  pub load_reserve-IsCached :
      (owed held : ℕ → ℤ) (asset : Address) (flag : Bool) (s : Storage Chain) (pool : Pool)
      → Matches owed held s pool
      → Ensures
          (λ r. IsCached owed held s asset r.0 × IsMarked asset flag pool r.1)
          (load_reserve math e asset flag s pool)
  unfolding load_reserve
  load_reserve-IsCached owed held asset flag s pool m =
      Ensures-option (lookup asset pool.reserves) _ _
        (λ n. Ensures-bind (load math e pool.config asset s) _ λ r er.
          let l = (load-IsLoaded math e pool.config asset s).at r er in
          let b = m.stored asset l.config l.reserve_data l.stored_config l.stored_data (inl n) in
          Ensures-ok _ (
            record {
              config = l.config;
              same_asset = l.same_asset;
              stored_config = l.stored_config;
              same_index = l.same_index;
              debts = l.d_supply ∙ b.debts;
              claims = l.b_supply ∙ b.claims;
            },
            mark-IsMarked asset flag pool,
          ))
        (λ r er. Ensures-ok _ (m.cached asset r er, mark-IsMarked asset flag pool))
