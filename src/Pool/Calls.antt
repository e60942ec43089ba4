-- ===== src/Pool/Calls.antt =====
-- Runs of the pool contract: the trait `Pool` of pool/src/contract.rs.
use blend_contracts.Base.{ℕ, List, [], ◌∷◌, Outcome, ok, ◌>>=◌, settle, none, false}
use blend_contracts.Base.Host.{Address, Env}
use blend_contracts.Pool.State.{ReserveConfig, Storage}
use blend_contracts.Pool.Status.{execute_update_pool_status}
use blend_contracts.Pool.Config.{execute_set_reserve}
use blend_contracts.Pool.Emissions.Manager.{ReserveEmissionMetadata, gulp_emissions}
use blend_contracts.Pool.Outside.{Outside}
use blend_contracts.Pool.Actions.{Request}
use blend_contracts.Pool.Submit.{submit, transfer_bad_debt_to_backstop}
use blend_contracts.Pool.Auction.{
  create_liquidation, create_bad_debt_auction, create_interest_auction,
}
use blend_contracts.Pool.Contract.{
  initialize, set_admin, update_pool, queue_set_reserve, cancel_set_reserve, set_status,
  set_emissions_config, claim,
}

-- The calls that change the state, with their arguments: the trait `Pool`.
pub data Call : Type 0 where
  initialize_call : Address → Address → ℕ → ℕ → Address → Address → Call
  set_admin_call cancel_set_reserve_call set_reserve_call bad_debt_call : Address → Call
  update_pool_call : ℕ → ℕ → Call
  queue_set_reserve_call : Address → ReserveConfig → Call
  submit_call : Address → Address → Address → List Request → Call
  update_status_call gulp_emissions_call new_bad_debt_auction_call : Call
  set_status_call : ℕ → Call
  set_emissions_config_call : List ReserveEmissionMetadata → Call
  claim_call : Address → List ℕ → Address → Call
  new_liquidation_auction_call : Address → ℕ → Call
  new_interest_auction_call : List Address → Call

-- The storage that a call gives, its result left out.
unfoldable pub second {ℓ κ} : {A : Type ℓ} {B : Type κ} → Outcome (A × B) → Outcome B
second o = do r ← o; ok r.1

module _ {Chain : Type 0} (o : Outside Chain) (e : Env) where
  unfoldable pub execute_call : Call → Storage Chain → Outcome (Storage Chain)
  execute_call (initialize_call admin oracle rate n backstop blnd) s =
      initialize o e admin oracle rate n backstop blnd s
  execute_call (set_admin_call new_admin) s = set_admin o e new_admin s
  execute_call (cancel_set_reserve_call asset) s = cancel_set_reserve o e asset s
  execute_call (set_reserve_call asset) s = second (execute_set_reserve e o.math asset s)
  execute_call (bad_debt_call user) s = transfer_bad_debt_to_backstop o e user s
  execute_call (update_pool_call rate n) s = update_pool o e rate n s
  execute_call (queue_set_reserve_call asset metadata) s = queue_set_reserve o e asset metadata s
  execute_call (submit_call from spender to requests) s =
      second (submit o e from spender to requests s)
  execute_call update_status_call s = second (execute_update_pool_status o.backstop.pool_data e s)
  execute_call gulp_emissions_call s =
      second (gulp_emissions o.math e o.backstop.gulp_pool_emissions s)
  execute_call new_bad_debt_auction_call s = second (create_bad_debt_auction o e s)
  execute_call (set_status_call status) s = set_status o e status s
  execute_call (set_emissions_config_call metadata) s = set_emissions_config o e metadata s
  execute_call (claim_call from ids to) s = second (claim o e from ids to s)
  execute_call (new_liquidation_auction_call user percent) s =
      second (create_liquidation o e user percent s)
  execute_call (new_interest_auction_call assets) s = second (create_interest_auction o e assets s)

-- What happens to the pool: a call, or a change of the other contracts.
pub data Step (Chain : Type 0) : Type 0 where
  called : Env → Call → Step Chain
  others : Chain → Step Chain

module _ {Chain : Type 0} (o : Outside Chain) where
  unfoldable pub step : Step Chain → Storage Chain → Storage Chain
  step (called e c) s = settle (execute_call o e c s) s
  step (others chain) s = record s { chain = chain }

  -- Any sequence of calls, each in its own environment; one that panics changes nothing.
  unfoldable pub run : List (Step Chain) → Storage Chain → Storage Chain
  run [] s = s
  run (first ∷ steps) s = run steps (step first s)

-- The storage of a contract that was just deployed.
abbrev pub deployed : {Chain : Type 0} → Chain → Storage Chain
deployed chain = record {
  backstop = none;
  pool_config = none;
  res_configs = [];
  res_data = [];
  res_list = [];
  emis_configs = [];
  emis_data = [];
  user_emis = [];
  positions = [];
  auctions = [];
  queued_reserves = [];
  pool_emissions = [];
  is_init = false;
  admin = none;
  blnd_token = none;
  chain = chain;
}
