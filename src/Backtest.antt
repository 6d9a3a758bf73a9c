-- ===== src/Backtest.antt =====
-- backtest/: a replay of the signal's life over historical candles, in memory.
pub mod Config
pub mod Data
pub mod Records
pub mod Fills
pub mod Minutes
pub mod Decisions
pub mod Replay
pub mod Steps
pub mod Invariant
pub mod Counts
pub mod Totals
pub mod Equity
pub mod Ascending
pub mod Moments
pub mod Times
pub mod Metrics
pub mod Statistics
pub mod Completed
pub mod Scores
pub mod Priced
pub mod Computed
pub mod Drawdown
mod Tests
