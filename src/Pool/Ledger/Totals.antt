-- ===== src/Pool/Ledger/Totals.antt =====
-- What all users owe and hold in a reserve, by its index: the positions of pool/src/storage.rs.
use blend_contracts.Base.{ℕ, ◌≡◌, refl, none, some, ℤ, pos, ◌+ℤ◌}
use blend_contracts.Base.Map.{Map, nat_key, lookup, insert, get_or, total, total-insert}
use blend_contracts.Base.Host.{Address}
use blend_contracts.Pool.State.{Positions, Storage, env_default, get_user_positions}
use blend_contracts.Pool.User.{load_user}
use blend_contracts.Pool.User.Balance.{balance}

-- The debts and the claims of positions at an index.
abbrev pub position_debt : ℕ → Address → Positions → ℤ
position_debt i user p = balance i p.liabilities

abbrev pub position_claims : ℕ → Address → Positions → ℤ
position_claims i user p = balance i p.collateral +ℤ balance i p.supply

unfoldable pub all_debts : Map Address Positions → ℕ → ℤ
all_debts m i = total (position_debt i) m

unfoldable pub all_claims : Map Address Positions → ℕ → ℤ
all_claims m i = total (position_claims i) m

zero_debt : (i : ℕ) (k : Address) → position_debt i k env_default ≡ pos 0
unfolding balance total
zero_debt i k = refl

zero_claims : (i : ℕ) (k : Address) → position_claims i k env_default ≡ pos 0
unfolding balance total ◌+ℤ◌
zero_claims i k = refl

pub insert-all_debts :
    (i : ℕ) (k : Address) (p : Positions) (m : Map Address Positions)
    → all_debts (insert k p m) i +ℤ position_debt i k (get_or k env_default m)
      ≡ all_debts m i +ℤ position_debt i k p
unfolding all_debts
insert-all_debts i k p m = total-insert (position_debt i) k env_default p m (zero_debt i k)

pub insert-all_claims :
    (i : ℕ) (k : Address) (p : Positions) (m : Map Address Positions)
    → all_claims (insert k p m) i +ℤ position_claims i k (get_or k env_default m)
      ≡ all_claims m i +ℤ position_claims i k p
unfolding all_claims
insert-all_claims i k p m = total-insert (position_claims i) k env_default p m (zero_claims i k)

pub load_user-positions :
    {Chain : Type 0} (user : Address) (s : Storage Chain)
    → (load_user user s).positions ≡ get_or user env_default s.positions
unfolding load_user get_user_positions get_or
load_user-positions user s = elim (lookup user s.positions) [ none ↦ refl | some p ↦ refl ]
