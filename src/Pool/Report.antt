-- ===== src/Pool/Report.antt =====
-- The records of an action that are emitted for an indexer: the `retroshades` blocks of
-- `build_actions_from_request` of pool/src/pool/actions.rs and the types of pool/src/contract.rs. The
-- event itself is left out; the calls that fill the record are not, since each of them may fail.
use blend_contracts.Base.{ℕ, ℤ, Outcome, ok, ◌>>=◌}
use blend_contracts.Base.Host.{Address, Env}
use blend_contracts.Pool.State.{Storage}
use blend_contracts.Pool.Reserve.{Reserve, total_supply, total_liabilities, utilization}
use blend_contracts.Pool.User.{User, get_total_supply, get_collateral, get_liabilities}
use blend_contracts.Pool.Outside.{Outside, get_token_amount_in_usdc_value}

pub data ActionType : Type 0 where
  supply withdraw borrow repay : ActionType

pub record CollateralActionInfo : Type 0 where
  pub pool : Address
  pub reserve_address : Address
  pub user_address : Address
  pub action_type : ActionType
  pub amount : ℤ
  pub b_tokens : ℤ
  pub user_reserve_total_supply : ℤ
  pub user_collateral_supply : ℤ
  pub user_updated_emissions : ℤ
  pub reserve_supply : ℤ
  pub reserve_liabilities : ℤ
  pub usdc_amount : ℤ
  pub usdc_reserve_supply : ℤ
  pub usdc_reserve_liabilities : ℤ
  pub usdc_user_reserve_total_supply : ℤ
  pub usdc_user_collateral_supply : ℤ
  pub ledger : ℕ
  pub timestamp : ℕ

pub record BorrowActionInfo : Type 0 where
  pub pool : Address
  pub reserve_address : Address
  pub user_address : Address
  pub action_type : ActionType
  pub amount : ℤ
  pub d_tokens : ℤ
  pub utilization_rate : ℤ
  pub user_reserve_total_supply : ℤ
  pub user_liabilities : ℤ
  pub user_updated_emissions : ℤ
  pub reserve_supply : ℤ
  pub reserve_liabilities : ℤ
  pub usdc_amount : ℤ
  pub usdc_reserve_supply : ℤ
  pub usdc_reserve_liabilities : ℤ
  pub usdc_user_reserve_total_supply : ℤ
  pub usdc_user_liabilities : ℤ
  pub ledger : ℕ
  pub timestamp : ℕ

module _ {Chain : Type 0} (o : Outside Chain) (e : Env) where
  -- The action, its asset, the amount, the tokens minted or burned, the emissions, the user and the
  -- reserve after the action, and the storage.
  unfoldable pub collateral_action_info :
      ActionType
      → Address
      → ℤ
      → ℤ
      → ℤ
      → User
      → Reserve
      → Storage Chain
      → Outcome CollateralActionInfo
  collateral_action_info action_type asset amount b_tokens updated_emissions user reserve s = do
    user_total ← get_total_supply reserve.index user
    let user_collateral = get_collateral reserve.index user
    reserve_supply ← total_supply o.math reserve
    reserve_liabilities ← total_liabilities o.math reserve
    let quote = get_token_amount_in_usdc_value o.reflector s.chain asset
    usdc_amount ← quote amount
    usdc_supply ← quote reserve_supply
    usdc_liabilities ← quote reserve_liabilities
    usdc_user_total ← quote user_total
    usdc_user_collateral ← quote user_collateral
    ok (record {
      pool = e.current_contract_address;
      reserve_address = asset;
      user_address = user.address;
      action_type = action_type;
      amount = amount;
      b_tokens = b_tokens;
      user_reserve_total_supply = user_total;
      user_collateral_supply = user_collateral;
      user_updated_emissions = updated_emissions;
      reserve_supply = reserve_supply;
      reserve_liabilities = reserve_liabilities;
      usdc_amount = usdc_amount;
      usdc_reserve_supply = usdc_supply;
      usdc_reserve_liabilities = usdc_liabilities;
      usdc_user_reserve_total_supply = usdc_user_total;
      usdc_user_collateral_supply = usdc_user_collateral;
      ledger = e.sequence;
      timestamp = e.timestamp;
    })

  -- The arguments as above, with the d tokens.
  unfoldable pub borrow_action_info :
      ActionType → Address → ℤ → ℤ → ℤ → User → Reserve → Storage Chain → Outcome BorrowActionInfo
  borrow_action_info action_type asset amount d_tokens updated_emissions user reserve s = do
    user_total ← get_total_supply reserve.index user
    let user_liabilities = get_liabilities reserve.index user
    reserve_supply ← total_supply o.math reserve
    reserve_liabilities ← total_liabilities o.math reserve
    let quote = get_token_amount_in_usdc_value o.reflector s.chain asset
    usdc_amount ← quote amount
    usdc_supply ← quote reserve_supply
    usdc_liabilities ← quote reserve_liabilities
    usdc_user_total ← quote user_total
    usdc_user_liabilities ← quote user_liabilities
    utilization_rate ← utilization o.math reserve
    ok (record {
      pool = e.current_contract_address;
      reserve_address = asset;
      user_address = user.address;
      action_type = action_type;
      amount = amount;
      d_tokens = d_tokens;
      utilization_rate = utilization_rate;
      user_reserve_total_supply = user_total;
      user_liabilities = user_liabilities;
      user_updated_emissions = updated_emissions;
      reserve_supply = reserve_supply;
      reserve_liabilities = reserve_liabilities;
      usdc_amount = usdc_amount;
      usdc_reserve_supply = usdc_supply;
      usdc_reserve_liabilities = usdc_liabilities;
      usdc_user_reserve_total_supply = usdc_user_total;
      usdc_user_liabilities = usdc_user_liabilities;
      ledger = e.sequence;
      timestamp = e.timestamp;
    })
