-- ===== src/Pool/Emissions/Shares.antt =====
-- The shares of the pool's emissions: pool/src/emissions/manager.rs.
use blend_contracts.Base.{
  nth, ℕ, ◌+◌, ◌≤◌, ◌≡◌, inl, inr, not, ◌||◌, Bool-cases, List, [], ◌∷◌, arith, ltb, ◌==◌, ok,
  add_u, mul_u, Ensures, Ensures-ok, Ensures-bind, Ensures-panic_if,
}
use blend_contracts.Base.Map.{Map, nat_key, insert}
use blend_contracts.Base.Host.{Address}
use blend_contracts.Pool.State.{Storage, scalar_7, is_some, set_pool_emissions}
use blend_contracts.Pool.Emissions.Manager.{ReserveEmissionMetadata, share_loop, set_emissions}

-- The sum of all shares.
abbrev pub total_shares : Map ℕ ℕ → ℕ
total_shares [] = 0
total_shares ((id, share) ∷ m) = share + total_shares m

insert-total :
    (id share : ℕ) (m : Map ℕ ℕ) → total_shares (insert id share m) ≤ total_shares m + share
unfolding insert
insert-total id share [] = omega arith
insert-total id share ((j, w) ∷ m) = elim (Bool-cases (j == id)) [
  | inl t ↦ rw t (omega arith)
  | inr f ↦ rw f (let h = insert-total id share m in omega arith)
]

sum_exact : (w a b c : ℕ) → add_u w a b ≡ ok c → c ≡ a + b
unfolding add_u
sum_exact w a b c h = ground arith

loop-total :
    (reserves : List Address) (metadata : List ReserveEmissionMetadata) (found : Map ℕ ℕ × ℕ)
    → total_shares found.0 ≤ found.1
    → Ensures (λ r. total_shares r.0 ≤ r.1) (share_loop reserves metadata found)
unfolding share_loop
loop-total reserves [] found h = Ensures-ok found h
loop-total reserves (m ∷ rest) found h = Ensures-bind (mul_u 32 m.res_index 2) _ λ twice _.
    Ensures-bind (add_u 32 twice m.res_type) _ λ key _.
      Ensures-panic_if (ltb 1 m.res_type || not (is_some (nth m.res_index reserves))) _ _ λ _.
        Ensures-bind (add_u 64 found.1 m.share) _ λ total et.
          loop-total reserves rest (insert key m.share found.0, total)
            (let i = insert-total key m.share found.0 in
              let e = sum_exact 64 found.1 m.share total et in omega arith)

-- The shares that a change of the emissions stores add up to at most the whole, whatever it is given
-- and also where tokens are named twice.
pub set_emissions-bounded :
    {Chain : Type 0} (metadata : List ReserveEmissionMetadata) (s : Storage Chain)
    → Ensures (λ s'. total_shares s'.pool_emissions ≤ scalar_7) (set_emissions metadata s)
unfolding set_emissions set_pool_emissions
set_emissions-bounded metadata s =
    Ensures-bind (share_loop s.res_list metadata ([], 0)) _ λ found e.
      let h = (loop-total s.res_list metadata ([], 0) (omega arith)).at found e in
      Ensures-panic_if (ltb scalar_7 found.1) _ _ λ small. Ensures-ok _ (ground arith)
