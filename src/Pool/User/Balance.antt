-- ===== src/Pool/User/Balance.antt =====
-- The balance of a user at an index, as a sum over the entries of a map: pool/src/pool/user.rs.
use blend_contracts.Base.{
  ℕ, ◌≡◌, refl, [], ◌∷◌, ◌∙◌, Bool, true, false, arith, ◌==◌, if◌then◌else◌, ℤ, pos, ◌+ℤ◌, int_laws,
  eqb_ℤ, Bool-cases, inl, inr, ok, add_i128, sub_i128, checked_ok,
}
use blend_contracts.Base.Map.{
  Map, nat_key, insert, remove, get_or, total, total-insert, total-remove,
}
use blend_contracts.Pool.User.{set_balance}

-- The balance of a map at an index, as a sum over its entries.
weight : ℕ → ℕ → ℤ → ℤ
weight i j v = if i == j then v else pos 0

unfoldable pub balance : ℕ → Map ℕ ℤ → ℤ
unfolding weight
balance i m = total (weight i) m

pub balance-cons :
    (i k : ℕ) (v : ℤ) (m : Map ℕ ℤ)
    → balance i ((k, v) ∷ m) ≡ (if i == k then v else pos 0) +ℤ balance i m
unfolding balance weight total
balance-cons i k v m = refl

pub balance-empty : (i : ℕ) → balance i [] ≡ pos 0
unfolding balance total
balance-empty i = refl

weight_zero : (i k : ℕ) → weight i k (pos 0) ≡ pos 0
unfolding weight
weight_zero i k = ground arith

pub insert-balance :
    (i k : ℕ) (v : ℤ) (m : Map ℕ ℤ)
    → balance i (insert k v m) +ℤ (if i == k then get_or k (pos 0) m else pos 0)
      ≡ balance i m +ℤ (if i == k then v else pos 0)
unfolding balance weight
insert-balance i k v m = total-insert (weight i) k (pos 0) v m (weight_zero i k)

remove-balance :
    (i k : ℕ) (m : Map ℕ ℤ)
    → balance i (remove k m) +ℤ (if i == k then get_or k (pos 0) m else pos 0) ≡ balance i m
unfolding balance weight
remove-balance i k m = total-remove (weight i) k (pos 0) m (weight_zero i k)

plus_zero : (x : ℤ) (b : Bool) → x ≡ x +ℤ (if b then pos 0 else pos 0)
plus_zero x true = omega int_laws
plus_zero x false = omega int_laws

set_balance-balance :
    (i k : ℕ) (v : ℤ) (m : Map ℕ ℤ)
    → balance i (set_balance k v m) +ℤ (if i == k then get_or k (pos 0) m else pos 0)
      ≡ balance i m +ℤ (if i == k then v else pos 0)
unfolding set_balance
set_balance-balance i k v m = elim (Bool-cases (eqb_ℤ v (pos 0))) [
  | inl zero_v ↦
      let e : v ≡ pos 0 = ground arith in
      rw (zero_v, e) (remove-balance i k m ∙ plus_zero (balance i m) (i == k))
  | inr some_v ↦ rw some_v (insert-balance i k v m)
]

pub add-balance :
    (i k : ℕ) (x v : ℤ) (m : Map ℕ ℤ)
    → add_i128 (get_or k (pos 0) m) x ≡ ok v
    → balance i (insert k v m) ≡ balance i m +ℤ (if i == k then x else pos 0)
add-balance i k x v m h =
    let e = checked_ok _ h in
    let w = insert-balance i k v m in
    elim (Bool-cases (i == k)) [
      | inl same ↦ rw same (omega (int_laws, e, (rw same at w)))
      | inr other ↦ rw other (omega (int_laws, (rw other at w)))
    ]

pub sub-balance :
    (i k : ℕ) (x v : ℤ) (m : Map ℕ ℤ)
    → sub_i128 (get_or k (pos 0) m) x ≡ ok v
    → balance i (set_balance k v m) +ℤ (if i == k then x else pos 0) ≡ balance i m
sub-balance i k x v m h =
    let e = checked_ok _ h in
    let w = set_balance-balance i k v m in
    elim (Bool-cases (i == k)) [
      | inl same ↦ rw same (omega (int_laws, e, (rw same at w)))
      | inr other ↦ rw other (omega (int_laws, (rw other at w)))
    ]
