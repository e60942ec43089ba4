-- ===== src/Pool/User/Moves.antt =====
-- Several positions of a user changed at once: `rm_positions` and `add_positions` of
-- pool/src/pool/user.rs.
use blend_contracts.Base.{ℤ, true, [], ◌∷◌, Outcome, ok, ◌>>=◌}
use blend_contracts.Base.Map.{Map}
use blend_contracts.Base.FixedPoint.{FixedPoint}
use blend_contracts.Base.Host.{Address, Env}
use blend_contracts.Pool.State.{Storage}
use blend_contracts.Pool.Reserve.{Reserve}
use blend_contracts.Pool.Cache.{Pool, load_reserve, cache_reserve}
use blend_contracts.Pool.User.{
  User, Changed, add_liabilities, remove_liabilities, add_collateral, remove_collateral,
}

-- The user and the pool that a call holds in memory, and the storage.
pub record Working (Chain : Type 0) : Type 0 where
  pub user : User
  pub pool : Pool
  pub storage : Storage Chain

module _ {Chain : Type 0} (math : FixedPoint) (e : Env) where
  -- Loads the reserve of an asset, to be stored, changes the user's position in it and caches it.
  unfoldable pub change_position :
      (Reserve → User → Storage Chain → Outcome (Changed Chain))
      → Address
      → Working Chain
      → Outcome (Working Chain)
  change_position change asset w = do
    r ← load_reserve math e asset true w.storage w.pool
    c ← change r.0 w.user w.storage
    ok (record { user = c.user; pool = cache_reserve c.reserve r.1; storage = c.storage })

  unfoldable pub change_positions :
      (ℤ → Reserve → User → Storage Chain → Outcome (Changed Chain))
      → Map Address ℤ
      → Working Chain
      → Outcome (Working Chain)
  change_positions change [] w = ok w
  change_positions change ((asset, amount) ∷ amounts) w = do
    w₁ ← change_position (change amount) asset w
    change_positions change amounts w₁

  unfoldable pub rm_positions :
      Map Address ℤ → Map Address ℤ → Working Chain → Outcome (Working Chain)
  rm_positions collateral_amounts liability_amounts w = do
    w₁ ← change_positions (remove_collateral math e) collateral_amounts w
    change_positions (remove_liabilities math e) liability_amounts w₁

  unfoldable pub add_positions :
      Map Address ℤ → Map Address ℤ → Working Chain → Outcome (Working Chain)
  add_positions collateral_amounts liability_amounts w = do
    w₁ ← change_positions (add_collateral math e) collateral_amounts w
    change_positions (add_liabilities math e) liability_amounts w₁
