-- ===== src/Base/Lists.antt =====
-- Vectors of the SDK as lists.
use Prim.Native.Nat.{ℕ, suc, ◌-◌}
use mathlib.Core.Option.{Option, none, some}
use mathlib.Core.List.{List, [], ◌∷◌}
use blend_contracts.Base.Tests.{◌==◌, if◌then◌else◌}

abbrev pub length {ℓ} : {A : Type ℓ} → List A → ℕ
length [] = 0
length (x ∷ xs) = suc (length xs)

-- The element at an index.
abbrev pub nth {ℓ} : {A : Type ℓ} → ℕ → List A → Option A
nth i [] = none
nth i (a ∷ list) = if i == 0 then some a else nth (i - 1) list
