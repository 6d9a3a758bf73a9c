-- ===== src/Engine.antt =====
-- `SignalEngine` of signal_engine/engine.py, with `SignalState` of signal_engine/state.py: from an
-- analysis to a stored signal. The repository's calls are transactions of their own; `Between` is what
-- other processes do to the tables between them.
pub mod Gate
pub mod Created
pub mod Evolution
pub mod Reports
mod Tests
use tool_trade.Common.{
  ℕ, ◌-◌, Bool, true, false, ◌&&◌, Option, none, some, pos, ◌*ℤ◌, find, if◌then◌else◌,
}
use tool_trade.Decimal
use tool_trade.Decimal.{Decimal}
use tool_trade.Market.{validate_symbol}
use tool_trade.Models
use tool_trade.Models.{
  Direction, long, short, unknown, Status, pending_entry, is_active, status_eq, number, integer,
  Timestamp, Signal,
}
use tool_trade.Result.{Result, ok, err, Error, signal_exists, signal_validation}
use tool_trade.SignalRepository.{active_for, create_signal, cancel_signal}
use tool_trade.SignalRepository.Types.{NewSignal}
use tool_trade.Store.{Db}
use tool_trade.Text.{Text}
use tool_trade.Validator.{
  SignalAnalysis, SignalCandidate, is_positive, validate_decision, validate_analysis,
}
use tool_trade.Validator.Guardrails.{Source, GuardrailConfig, from_stored}

pub data SignalOutcome : Type 0 where
  created wait blocked_open_signal rejected error : SignalOutcome

pub record SignalEngineResult : Type 0 where
  pub outcome : SignalOutcome
  pub signal : Option Signal

abbrev pub plain : SignalOutcome → SignalEngineResult
plain outcome = record { outcome = outcome; signal = none }

abbrev pub created_result : Signal → SignalEngineResult
created_result s = record { outcome = created; signal = some s }

-- The stored overlay, where its row is a JSON mapping with a key, and the environment.
pub record Settings : Type 0 where
  pub stored : Option Source
  pub env : Source

-- `_live_guardrails`
abbrev pub live_guardrails : Settings → Option GuardrailConfig → GuardrailConfig
live_guardrails settings (some guards) = guards
live_guardrails settings none = from_stored settings.stored settings.env

-- The hours in milliseconds, exactly.
abbrev pub hours_in_ms : Decimal → Decimal
hours_in_ms hours = record { coeff = hours.coeff *ℤ pos 3_600_000; exp = hours.exp }

-- `_pending_expired`, compared exactly and not in floats; a signal of the future has age 0, which no
-- positive expiry is below.
abbrev pub pending_expired : Signal → Decimal → Timestamp → Bool
pending_expired s hours now =
    status_eq s.status pending_entry
    && is_positive hours
    && Decimal.lt (hours_in_ms hours) (Decimal.of_ℕ (now - s.created_at))

-- `active_signal`, as the repository's query answers it.
abbrev pub active_signal : Db → Option Signal
active_signal db = find (λ s. is_active s.status) db.signals

-- `active_signal_for`: a malformed symbol falls back to any active signal.
abbrev pub active_signal_for : Text → Db → Option Signal
active_signal_for symbol db = elim (validate_symbol symbol) [
  | ok s ↦ find (active_for s) db.signals
  | err _ ↦ active_signal db
]

-- What other processes do between the reads and writes of the engine.
pub record Between : Type 0 where
  pub before_cancel : Db → Db
  pub before_create : Db → Db

after_cancel : Result Signal × Db → Bool × Db
after_cancel (ok _, db) = (true, db)
after_cancel (err _, db) = (false, db)

-- The lock of the active signal that was read: whether the engine may go on. A stale pending signal is
-- cancelled first.
pub pass_lock : Option Signal → Decimal → (Db → Db) → Timestamp → Db → Bool × Db
unfolding after_cancel
pass_lock none hours between now db = (true, db)
pass_lock (some active) hours between now db =
    if pending_expired active hours now
    then after_cancel (cancel_signal active.id none now (between db))
    else (false, db)

-- The arguments of `create_signal` for a candidate.
abbrev pub new_signal : SignalCandidate → NewSignal
new_signal c = record {
  symbol = c.symbol;
  timeframe = c.timeframe;
  direction = c.decision;
  entry = number c.entry;
  stop_loss = number c.stop_loss;
  take_profit = number c.take_profit;
  confidence = some (integer c.confidence);
  risk_reward = none;
  rationale = some c.reasoning;
  provider = some c.provider;
  model_name = some c.model_name;
  temperature = c.temperature;
  strategy_name = none;
  strategy_version = none;
  created_at = none;
  opened_at = none;
  analysis_timestamp = some c.analysis_timestamp;
  market_timestamp = some c.market_timestamp;
  candle_close_price = elim c.candle_close_price [ none ↦ none | some d ↦ some (number d) ];
}

-- The outcome of an insert that raises.
abbrev pub refusal : Error → SignalOutcome
refusal signal_exists = blocked_open_signal
refusal signal_validation = rejected
refusal _ = error

pub after_create : Result Signal × Db → SignalEngineResult × Db
after_create (ok s, db) = (created_result s, db)
after_create (err e, db) = (plain (refusal e), db)

-- Validation and the insert.
pub persist : Result SignalCandidate → (Db → Db) → Timestamp → Db → SignalEngineResult × Db
unfolding after_create
persist (err _) between now db = (plain rejected, db)
persist (ok c) between now db = after_create (create_signal (new_signal c) now (between db))

-- After the lock.
pub validated :
    SignalAnalysis → GuardrailConfig → (Db → Db) → Timestamp → Bool × Db → SignalEngineResult × Db
unfolding persist
validated a guards between now (false, db) = (plain blocked_open_signal, db)
validated a guards between now (true, db) = persist (validate_analysis a guards) between now db

after_lock :
    SignalAnalysis
    → GuardrailConfig
    → Between
    → Timestamp
    → Option Signal
    → Db
    → SignalEngineResult × Db
unfolding validated pass_lock
after_lock a guards between now active db =
    validated a guards between.before_create now
      (pass_lock active guards.pending_expiry_hours between.before_cancel now db)

by_decision :
    Result Direction
    → SignalAnalysis
    → GuardrailConfig
    → Between
    → Timestamp
    → Db
    → SignalEngineResult × Db
unfolding after_lock
by_decision (err _) a guards between now db = (plain rejected, db)
by_decision (ok Models.wait) a guards between now db = (plain wait, db)
by_decision (ok _) a guards between now db =
    after_lock a guards between now (active_signal_for a.symbol db) db

-- `none` is a value that is no `SignalAnalysis`.
pub process :
    Settings
    → Option GuardrailConfig
    → Between
    → Timestamp
    → Option SignalAnalysis
    → Db
    → SignalEngineResult × Db
unfolding by_decision
process settings given between now none db = (plain rejected, db)
process settings given between now (some a) db =
    by_decision (validate_decision a.decision) a (live_guardrails settings given) between now db

-- What an analyzer does to the tables, while it runs, and returns.
abbrev pub Analyzer : Type 0
Analyzer = Db → Result (Option SignalAnalysis) × Db

after_analysis :
    Settings
    → GuardrailConfig
    → Between
    → Timestamp
    → Result (Option SignalAnalysis) × Db
    → SignalEngineResult × Db
unfolding process
after_analysis settings guards between now (err _, db) = (plain error, db)
after_analysis settings guards between now (ok a, db) =
    process settings (some guards) between now a db

analyze :
    Settings
    → GuardrailConfig
    → Analyzer
    → Between
    → Timestamp
    → Bool × Db
    → SignalEngineResult × Db
unfolding after_analysis
analyze settings guards analyzer between now (false, db) = (plain blocked_open_signal, db)
analyze settings guards analyzer between now (true, db) =
    after_analysis settings guards between now (analyzer db)

-- The lock of one symbol, or the global one.
abbrev pub lock_of : Option Text → Db → Option Signal
lock_of none db = active_signal db
lock_of (some symbol) db = active_signal_for symbol db

-- `first` is what others do before the cancellation that this call makes, `between` that of `process`.
pub analyze_and_create :
    Settings
    → Option GuardrailConfig
    → Option Text
    → Analyzer
    → (Db → Db)
    → Between
    → Timestamp
    → Db
    → SignalEngineResult × Db
unfolding analyze pass_lock
analyze_and_create settings given symbol analyzer first between now db =
    let guards = live_guardrails settings given in
    analyze settings guards analyzer between now
      (pass_lock (lock_of symbol db) guards.pending_expiry_hours first now db)
