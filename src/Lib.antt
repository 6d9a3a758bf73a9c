-- ===== src/Lib.antt =====
-- The trading core of a signal daemon: a language model's decision becomes a stored signal, a monitor
-- moves the signal through its life on closed candles, and a demo executor books a position and a trade
-- for it. No order is ever sent.
--
-- Parts and files:
--   Models        database/models.py, and the price conversions of database/database.py
--   Market        binance/market_data.py: symbols and intervals; Market.Klines: candles and their parsing
--   Store         the SQLite tables of database/database.py and `Database.transaction`
--   SignalRepository  the class of that name: create_signal, transition_signal, cancel_signal,
--                 delete_signals, delete_all_signals and the reads of the lifecycle
--   Monitor       signal_engine/monitor.py: `SignalMonitor.poll` and what it calls
--   Validator     signal_engine/validator.py: guardrails and the checks of an analysis
--   Engine        signal_engine/engine.py and state.py: `process`, `analyze_and_create`, the lock
--   Recovery      signal_engine/recovery.py: the active signal that a start finds
--   Backtest.Config, Backtest.Data  backtest/config.py; `HistoricalData` of backtest/data.py
--   Backtest.Records, Backtest.Fills, Backtest.Minutes, Backtest.Decisions, Backtest.Replay
--                 backtest/engine.py: records; fills and exits; `monitor` and the minute loops; one
--                 decision; `run`
--   Backtest.Metrics, Backtest.Statistics  backtest/metrics.py: the loop over the trades; `compute`
--   Demo.Account  demo/account.py: configuration, sizing, profit, fees, slippage, peak and drawdown
--   Demo.Ledger, Demo.Positions, Demo.Trades  `DemoRepository`: accounts; positions; trades
--   Demo.Fills, Demo.Executor  demo/executor.py: the numbers of a fill; open, close and reconcile
--   Common, Text, Decimal, Result  lists and tables, strings, decimal.Decimal, exceptions
--
-- A table is the list of its rows in the order of their ids, with the next id beside it. An action is a
-- function from the tables to a result and the tables after it: an exception is a value, and a transaction
-- that raises puts the tables back. A call that reads the clock takes the time, in milliseconds. The monitor
-- reads the active signal of the repository and calls transition_signal in a later transaction; what other
-- processes write in between is a function in the model of a poll. The executor reads the signal that the
-- monitor returns, and calls the repository of the demo account, each call a transaction of its own.
--
-- A backtest touches no table: its state is a record, `Minute` and `Decision` of Backtest.Steps are what one
-- minute candle and one decision can do to it, and an invariant of these is one of the run. Indicators and the
-- decision provider are functions of the candles up to the decision.
--
-- Decimals are a coefficient and an exponent, compared exactly and rounded half-even to 28 digits after each
-- operation; the sign of a zero and the bounds of exponents are left out. Upper and lower case are those of
-- ASCII letters. A price argument is what
-- Decimal(str(value)) makes of it: a number, a NaN, an infinity or a failure. No loop needs fuel: all
-- recursion is on lists.
--
-- Not modelled: SQLite's own work (schema, migrations, locks), the foreign key from a trade to its position,
-- message texts and logs, display columns, the HTTP client (a parameter of the fetch), the language model
-- (a parameter of the engine), settings, scheduler, the demo account's statistics, the
-- backtest's files and providers, indicators, user interfaces, and the LLM agent framework under
-- tradingagents/.
pub mod Common
pub mod Decimal
pub mod Text
pub mod Result
pub mod Models
pub mod Market
pub mod Store
pub mod Samples
pub mod SignalRepository
pub mod Monitor
pub mod Validator
pub mod Engine
pub mod Recovery
pub mod Demo
pub mod Backtest
