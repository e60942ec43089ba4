-- ===== src/Base/Host.antt =====
-- What the host gives to a contract call.
use Prim.Native.Nat.{ℕ}
use mathlib.Core.Path.{◌≡◌}
use mathlib.Core.Bool.{Bool}
use mathlib.Core.Option.{Option, some}
use blend_contracts.Base.Int.{ℤ, ◌+ℤ◌}
use blend_contracts.Base.Errors.{host}
use blend_contracts.Base.Control.{Outcome, guard}

-- A contract or an account; the code only compares addresses.
abbrev pub Address : Type 0
Address = ℕ

pub record Env : Type 0 where
  pub timestamp : ℕ
  pub sequence : ℕ
  pub current_contract_address : Address
  -- whether the address has authorized the call
  pub authorized : Address → Bool

abbrev pub require_auth : Env → Address → Outcome (Unit {0})
require_auth e a = guard (e.authorized a) host

-- The token contracts, which the program calls: `Chain` is the state of the other contracts. The
-- first address is the token's. `none` is a call that fails.
pub record TokenClient (Chain : Type 0) : Type 0 where
  pub balance : Chain → Address → Address → ℤ
  pub transfer : Chain → Address → Address → Address → ℤ → Option Chain
  pub mint : Chain → Address → Address → ℤ → Option Chain

-- What the supply of a token is, and that minting adds to it.
pub record Supply {Chain : Type 0} (tokens : TokenClient Chain) : Type 0 where
  pub supply : Chain → Address → ℤ
  pub mint_supply :
      (c : Chain) (token to : Address) (x : ℤ) (c' : Chain)
      → tokens.mint c token to x ≡ some c'
      → supply c' token ≡ supply c token +ℤ x
