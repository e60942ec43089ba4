-- ===== src/Backstop/Ledger.antt =====
-- The books of the backstop (backstop/src/backstop): a pool's shares are those of its depositors, and
-- its queued shares those in their withdrawal queues.
mod Write
mod Frame
mod Calls
mod Funds
pub mod Steps
pub use Write.*
pub use Frame.*
pub use Calls.*
pub use Funds.*
