-- ===== src/Emitter.antt =====
-- The emitter contract (emitter/src): BLND for the current backstop, and the swap of the backstop.
pub mod State
pub mod Execute
pub mod Contract
pub mod Supply
pub mod Drops
pub mod Swaps
pub mod Frame
pub mod Stability
mod Tests
