-- ===== src/Lib.antt =====
-- The Blend lending protocol, as it stands in this repository: four contracts of the Soroban platform.
--
-- The emitter (emitter/src) mints one BLND token for each second to the current backstop, and its
-- backstop can be swapped for a larger one after a wait of 31 days. The backstop (backstop/src) takes
-- deposits of backstop tokens for each pool, gives shares for them, and lets them leave through a
-- queue of 21 days; pools draw on it and donate to it, and depositors earn emissions. A pool
-- (pool/src) lends: its reserves keep the supplies and the rates of b tokens and d tokens, its users
-- hold positions in them, and its status follows the health of its backstop. The factory
-- (pool-factory/src) deploys pools, and the backstop asks it whether an address is a pool.
--
-- Where each part is modelled:
--   Base.antt, Base/          what the parts share. Int: the values of an i128 as unbounded integers,
--                             I128: the checked operations (the build has overflow checks on),
--                             Control: the outcome of code that may panic, with rules for what every
--                             result satisfies, Map: storage maps, Host: the ledger and the token
--                             contracts, FixedPoint: the crate soroban_fixed_point_math, Errors: the
--                             error enumerations.
--   Emitter.antt, Emitter/    State: emitter/src/storage.rs; Execute: emitter.rs and
--                             backstop_manager.rs; Contract: contract.rs as one transition.
--   Backstop.antt, Backstop/  User: backstop/user.rs; Pool: backstop/pool.rs; Emissions:
--                             emissions/distributor.rs; Claim: emissions/claim.rs; Zone:
--                             emissions/manager.rs; Execute: deposit.rs, withdrawal.rs and fund_management.rs; State: storage.rs;
--                             Contract: contract.rs as one transition.
--   Pool.antt, Pool/          State: storage.rs; Interest: pool/interest.rs; Reserve:
--                             pool/reserve.rs; Status: pool/status.rs; Cache: pool/pool.rs; User:
--                             pool/user.rs; Health: pool/health_factor.rs; Emissions:
--                             emissions/distributor.rs, and Emissions/Manager: emissions/manager.rs;
--                             Claim: execute_claim; Auction, Auction/: auctions/; Outside: the oracle
--                             of lib.rs and the contracts a pool calls; Report: the records of
--                             contract.rs for the indexer; Actions: pool/actions.rs; Submit:
--                             pool/submit.rs and pool/bad_debt.rs; Config: pool/config.rs; Contract and
--                             Calls: contract.rs as one transition, and sequences of calls. Ledger
--                             carries the proof on the supplies of reserves through all of them, and
--                             Safety the one on health; Settings and Refusals tell which requests are
--                             turned away.
--   Factory.antt, Factory/    pool-factory/src/pool_factory.rs and storage.rs.
--   Samples.antt              concrete stand-ins for the code outside the repository, at which the
--                             theorems are tried in the modules named Tests.
--
-- A function of the source is a definition of the same name. It takes the storage and gives its result
-- with the new storage, or the panic; a panic ends the call, and the host discards its writes (settle).
-- An i128 is an integer and each operation on it traps where the result does not fit; a u64 or u32 is a
-- natural number, with the same traps. A loop over a vector is recursion on a list, so no fuel is
-- needed. The loops of the withdrawal queue end because each step removes an entry or stops.
--
-- Parameters: the token contracts, the oracle, the backstop as the pool calls it, the price feeds of the
-- indexer and the ledger of the deployment that the build names, the hash and the deployment of the host,
-- and the fixed-point crate, of which the theorems assume the documented values of its four operations:
-- rounded down or up, where a result is given; one where the product fits, and none for a divisor of
-- zero. The supply of a token is assumed to grow by what is minted.
--
-- A map of the host is iterated in the order of its keys, and the association lists here in the order
-- of their entries. No contract calls back into the pool while a call of the pool runs: the host refuses
-- that.
--
-- Not modelled: the lifetime of storage entries, events, what is only sent to the indexer (AuctionResult
-- and the lists of a claim), the name of a pool, the initialization of the backstop and its drop.
pub mod Base
pub mod Emitter
pub mod Factory
pub mod Pool
pub mod Backstop
pub mod Samples
