-- ===== src/Base/Map.antt =====
-- A storage map as an association list: `Map` of the SDK and the keyed entries of the ledger.
use Prim.Native.Nat.{ℕ}
use mathlib.Core.Path.{◌≡◌, refl}
use mathlib.Core.Logic.{◌↔◌, inl, inr}
use mathlib.Core.Bool.{Bool, true, ◌&&◌}
use mathlib.Core.Option.{Option, none, some}
use mathlib.Core.List.{List, [], ◌∷◌}
use native.Mathlib.Omega.{arith}
use blend_contracts.Base.Tests.{if◌then◌else◌, Bool-cases}
use blend_contracts.Base.Tests.{◌==◌ as nat_beq}
use blend_contracts.Base.Int.{ℤ, pos, ◌+ℤ◌, int_laws}

pub record Key (K : Type 0) : Type 0 where
  pub beq : K → K → Bool
  pub beq_iff : (a b : K) → (beq a b ≡ true) ↔ (a ≡ b)

pub nat_beq_iff : (a b : ℕ) → (nat_beq a b ≡ true) ↔ (a ≡ b)
nat_beq_iff a b = ground arith

instance abbrev pub nat_key : Key ℕ
nat_key = record { beq = nat_beq; beq_iff = nat_beq_iff }

-- A pool and a user: `PoolUserKey`.
abbrev pub pair_beq : ℕ × ℕ → ℕ × ℕ → Bool
pair_beq (a, b) (c, d) = nat_beq a c && nat_beq b d

pub pair_beq_iff : (a b : ℕ × ℕ) → (pair_beq a b ≡ true) ↔ (a ≡ b)
pair_beq_iff (a, b) (c, d) = ground arith

instance abbrev pub pair_key : Key (ℕ × ℕ)
pair_key = record { beq = pair_beq; beq_iff = pair_beq_iff }

abbrev pub Map : Type 0 → Type 0 → Type 0
Map K V = List (K × V)

module _ {K V : Type 0} ⦃key : Key K⦄ where
  unfoldable pub lookup : K → Map K V → Option V
  lookup k [] = none
  lookup k ((j, v) ∷ m) = if key.beq j k then some v else lookup k m

  unfoldable pub insert : K → V → Map K V → Map K V
  insert k v [] = (k, v) ∷ []
  insert k v ((j, w) ∷ m) = if key.beq j k then (j, v) ∷ m else (j, w) ∷ insert k v m

  unfoldable pub remove : K → Map K V → Map K V
  remove k [] = []
  remove k ((j, w) ∷ m) = if key.beq j k then m else (j, w) ∷ remove k m

  -- the value, or a default: `get(k).unwrap_or(d)`
  unfoldable pub get_or : K → V → Map K V → V
  unfolding lookup
  get_or k d m = elim (lookup k m) [ none ↦ d | some v ↦ v ]

  pub lookup-insert :
      (k j : K) (v : V) (m : Map K V)
      → lookup j (insert k v m) ≡ (if key.beq k j then some v else lookup j m)
  unfolding lookup insert
  lookup-insert k j v [] = refl
  lookup-insert k j v ((i, w) ∷ m) =
      ground (arith, key.beq_iff k j, key.beq_iff i k, key.beq_iff i j, lookup-insert k j v m)

  pub get_or-insert :
      (k j : K) (d v : V) (m : Map K V)
      → get_or j d (insert k v m) ≡ (if key.beq k j then v else get_or j d m)
  unfolding get_or
  get_or-insert k j d v m = ground (arith, lookup-insert k j v m)

  -- The sum of a weight over all entries.
  unfoldable pub total : (K → V → ℤ) → Map K V → ℤ
  total w [] = pos 0
  total w ((k, v) ∷ m) = w k v +ℤ total w m

  total-cons :
      (w : K → V → ℤ) (k : K) (v : V) (m : Map K V) → total w ((k, v) ∷ m) ≡ w k v +ℤ total w m
  unfolding total
  total-cons w k v m = refl

  insert-cons :
      (k i : K) (v u : V) (m : Map K V)
      → insert k v ((i, u) ∷ m) ≡ (if key.beq i k then (i, v) ∷ m else (i, u) ∷ insert k v m)
  unfolding insert
  insert-cons k i v u m = refl

  pub get_or-cons :
      (k i : K) (d u : V) (m : Map K V)
      → get_or k d ((i, u) ∷ m) ≡ (if key.beq i k then u else get_or k d m)
  unfolding get_or
  get_or-cons k i d u m = ground arith

  total-insert_step :
      (w : K → V → ℤ) (k : K) (d v : V) (i : K) (u : V) (m : Map K V)
      → total w (insert k v m) +ℤ w k (get_or k d m) ≡ total w m +ℤ w k v
      → total w (insert k v ((i, u) ∷ m)) +ℤ w k (get_or k d ((i, u) ∷ m))
        ≡ total w ((i, u) ∷ m) +ℤ w k v
  total-insert_step w k d v i u m ih = elim (Bool-cases (key.beq i k)) [
    | inl same ↦
        let e : i ≡ k = (key.beq_iff i k).0 same in
        simp (insert-cons, get_or-cons, same, total-cons) (simp e (omega int_laws))
    | inr other ↦ simp (insert-cons, get_or-cons, other, total-cons) (omega int_laws)
  ]

  -- A write changes the sum by the difference of the weights, where the default weighs nothing.
  pub total-insert :
      (w : K → V → ℤ) (k : K) (d v : V) (m : Map K V)
      → w k d ≡ pos 0
      → total w (insert k v m) +ℤ w k (get_or k d m) ≡ total w m +ℤ w k v
  unfolding total insert get_or
  total-insert w k d v [] z = rw z (omega int_laws)
  total-insert w k d v ((i, u) ∷ m) z = total-insert_step w k d v i u m (total-insert w k d v m z)

  remove-cons :
      (k i : K) (u : V) (m : Map K V)
      → remove k ((i, u) ∷ m) ≡ (if key.beq i k then m else (i, u) ∷ remove k m)
  unfolding remove
  remove-cons k i u m = refl

  total-remove_step :
      (w : K → V → ℤ) (k : K) (d : V) (i : K) (u : V) (m : Map K V)
      → total w (remove k m) +ℤ w k (get_or k d m) ≡ total w m
      → total w (remove k ((i, u) ∷ m)) +ℤ w k (get_or k d ((i, u) ∷ m)) ≡ total w ((i, u) ∷ m)
  total-remove_step w k d i u m ih = elim (Bool-cases (key.beq i k)) [
    | inl same ↦
        let e : i ≡ k = (key.beq_iff i k).0 same in
        simp (remove-cons, get_or-cons, same, total-cons) (simp e (omega int_laws))
    | inr other ↦ simp (remove-cons, get_or-cons, other, total-cons) (omega int_laws)
  ]

  -- A removal lowers the sum by the weight of the removed entry.
  pub total-remove :
      (w : K → V → ℤ) (k : K) (d : V) (m : Map K V)
      → w k d ≡ pos 0
      → total w (remove k m) +ℤ w k (get_or k d m) ≡ total w m
  unfolding total remove get_or
  total-remove w k d [] z = rw z (omega int_laws)
  total-remove w k d ((i, u) ∷ m) z = total-remove_step w k d i u m (total-remove w k d m z)
