-- ===== src/Pool/Ledger/Pending.antt =====
-- The books with the positions of one user still in memory: pool/src/pool/user.rs.
use blend_contracts.Base.{ℕ, ◌≡◌, ap, ◌∙◌, false, ◌==◌, if◌then◌else◌, ◌+ℤ◌, int_laws}
use blend_contracts.Base.Map.{Map, nat_key, insert, get_or, get_or-insert}
use blend_contracts.Base.Host.{Address}
use blend_contracts.Pool.State.{Positions, Storage, env_default}
use blend_contracts.Pool.User.{User}
use blend_contracts.Pool.User.Ledger.{debt, claims}
use blend_contracts.Pool.User.Moves.{Working}
use blend_contracts.Pool.Ledger.{Matches}
use blend_contracts.Pool.Ledger.Totals.{
  position_debt, position_claims, all_debts, all_claims, insert-all_debts, insert-all_claims,
}
use blend_contracts.Pool.Ledger.Step.{IsStep, IsShift}

-- All positions, with those of the user in memory in place of the stored ones.
abbrev pub with_pending : {Chain : Type 0} → User → Storage Chain → Map Address Positions
with_pending user s = insert user.address user.positions s.positions

-- The books in the middle of a call that has a user in memory.
pub record IsPending {Chain : Type 0} (w : Working Chain) : Type 0 where
  pub books :
      Matches
        (all_debts (with_pending w.user w.storage))
        (all_claims (with_pending w.user w.storage))
        w.storage
        w.pool

module _ {Chain : Type 0} where
  pub pending_debts :
      (u : User) (s : Storage Chain) (i : ℕ)
      → all_debts (with_pending u s) i
          +ℤ position_debt i u.address (get_or u.address env_default s.positions)
        ≡ all_debts s.positions i +ℤ debt i u
  pending_debts u s i = insert-all_debts i u.address u.positions s.positions

  pub pending_claims :
      (u : User) (s : Storage Chain) (i : ℕ)
      → all_claims (with_pending u s) i
          +ℤ position_claims i u.address (get_or u.address env_default s.positions)
        ≡ all_claims s.positions i +ℤ claims i u
  pending_claims u s i = insert-all_claims i u.address u.positions s.positions

  -- Another user in memory, under the same address and over the same stored positions.
  pub pending-IsShift :
      (u u' : User) (s s' : Storage Chain)
      → u'.address ≡ u.address
      → s'.positions ≡ s.positions
      → IsShift
          (all_debts (with_pending u s))
          (all_claims (with_pending u s))
          (all_debts (with_pending u' s'))
          (all_claims (with_pending u' s'))
          u
          u'
  pending-IsShift u u' s s' ea ep = record {
    debts = λ i.
        let a = pending_debts u s i in
        let b = pending_debts u' s' i in
        let ka : position_debt i u'.address (get_or u'.address env_default s'.positions)
            ≡ position_debt i u.address (get_or u.address env_default s.positions) =
          (let k : get_or u'.address env_default s'.positions
                ≡ get_or u.address env_default s.positions =
              ap (λ x. get_or x env_default s'.positions) ea
              ∙ ap (get_or u.address env_default) ep in
            ap (λ p. position_debt i u.address p) k) in
        let kb : all_debts s'.positions i ≡ all_debts s.positions i = ap (λ m. all_debts m i) ep in
        omega int_laws;
    claimed = λ i.
        let a = pending_claims u s i in
        let b = pending_claims u' s' i in
        let ka : position_claims i u'.address (get_or u'.address env_default s'.positions)
            ≡ position_claims i u.address (get_or u.address env_default s.positions) =
          (let k : get_or u'.address env_default s'.positions
                ≡ get_or u.address env_default s.positions =
              ap (λ x. get_or x env_default s'.positions) ea
              ∙ ap (get_or u.address env_default) ep in
            ap (λ p. position_claims i u.address p) k) in
        let kb : all_claims s'.positions i ≡ all_claims s.positions i =
          ap (λ m. all_claims m i) ep in
        omega int_laws;
  }

  pub step-IsPending : (w w' : Working Chain) → IsStep w w' → IsPending w → IsPending w'
  step-IsPending w w' t p = record {
    books =
        t.moved _ _ _ _ p.books
          (pending-IsShift w.user w'.user w.storage w'.storage t.same_address t.kept.positions);
  }

  -- The stored positions of `k` replaced, with another user in memory.
  pub two_debts :
      (f v : User) (s : Storage Chain) (i : ℕ)
      → (v.address == f.address) ≡ false
      → all_debts (insert f.address f.positions (insert v.address v.positions s.positions)) i
          +ℤ position_debt i f.address (get_or f.address env_default s.positions)
          +ℤ position_debt i v.address (get_or v.address env_default s.positions)
        ≡ all_debts s.positions i +ℤ debt i f +ℤ debt i v
  two_debts f v s i ne =
      let a = insert-all_debts i f.address f.positions (insert v.address v.positions s.positions) in
      let b = insert-all_debts i v.address v.positions s.positions in
      let g : get_or f.address env_default (insert v.address v.positions s.positions)
          ≡ get_or f.address env_default s.positions =
        get_or-insert v.address f.address env_default v.positions s.positions
        ∙ ap (λ x. if x then v.positions else get_or f.address env_default s.positions) ne in
      let k = ap (λ p. position_debt i f.address p) g in omega int_laws

  pub two_claims :
      (f v : User) (s : Storage Chain) (i : ℕ)
      → (v.address == f.address) ≡ false
      → all_claims (insert f.address f.positions (insert v.address v.positions s.positions)) i
          +ℤ position_claims i f.address (get_or f.address env_default s.positions)
          +ℤ position_claims i v.address (get_or v.address env_default s.positions)
        ≡ all_claims s.positions i +ℤ claims i f +ℤ claims i v
  two_claims f v s i ne =
      let a =
        insert-all_claims i f.address f.positions (insert v.address v.positions s.positions) in
      let b = insert-all_claims i v.address v.positions s.positions in
      let g : get_or f.address env_default (insert v.address v.positions s.positions)
          ≡ get_or f.address env_default s.positions =
        get_or-insert v.address f.address env_default v.positions s.positions
        ∙ ap (λ x. if x then v.positions else get_or f.address env_default s.positions) ne in
      let k = ap (λ p. position_claims i f.address p) g in omega int_laws
