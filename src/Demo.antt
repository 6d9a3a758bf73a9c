-- ===== src/Demo.antt =====
-- The demo account of demo/: its arithmetic, its ledger in database/database.py, and the executor.
pub mod Account
pub mod Ledger
pub mod Positions
pub mod Trades
pub mod Fills
pub mod Executor
pub mod Balance
pub mod Recording
pub mod Recorded
pub mod Opening
pub mod Accounts
pub mod Lifecycle
pub mod Runs
pub mod Repeats
pub mod Reset
mod Tests
