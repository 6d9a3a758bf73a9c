-- ===== src/Engine/Tests.antt =====
-- Runs of the engine, and its theorems at them.
use tool_trade.Common.{◌≡◌, refl, ap, subst, pos, digits, ◌+ℤ◌, ◌-ℤ◌, ◌*ℤ◌, none, some, ℕ}
use tool_trade.Decimal
use tool_trade.Market.{validate_symbol, validate_interval}
use tool_trade.Models.{
  long, pending_entry, Signal, to_decimal, temperature_to_text, validate_signal_prices,
}
use tool_trade.Result.{ok, err, client_error}
use tool_trade.Store.{Db, empty_db}
use tool_trade.Text.{codes, strip, upper, lower}
use tool_trade.Samples.{sample_analysis, no_metadata}
use tool_trade.SignalRepository.Types.{
  check_signal, check_levels, check_metadata, check_confidence, check_text,
}
use tool_trade.SignalRepository.Calls.{IsTable, with_new}
use tool_trade.SignalRepository.History.{Evolves, IsLater-refl}
use tool_trade.SignalRepository.Runs.{empty_db-IsTable}
use tool_trade.Validator.{
  SignalCandidate, validate_decision, validate_confidence, validate_funding_crowd,
  validate_htf_bias, check_risk_reward, check_fee_cover, check_atr, check_bounds,
  validate_trade_levels, check_prices, validate_analysis,
}
use tool_trade.Validator.Guardrails.{defaults, absent, from_stored, from_env}
use tool_trade.Engine.{
  created_result, plain, blocked_open_signal, Settings, Analyzer, process, new_signal, by_decision,
  after_lock, pass_lock, validated, analyze_and_create,
}
use tool_trade.Engine.Evolution.{AreFair, process-Evolves, analyze_and_create-Evolves}
use tool_trade.Engine.Created.{IsCreated, process-IsCreated}
use tool_trade.Engine.Gate.{IsHolding, not_yet, analyze_and_create_locked, process_locks}
use tool_trade.Engine.Reports.{quiet, IsSpared, process-IsSpared, process_creates}

abbrev settings : Settings
settings = record {
  stored = none;
  env = record {
    min_confidence = absent;
    min_risk_reward = absent;
    fee_rate = absent;
    pending_expiry_hours = absent;
    max_funding_rate = absent;
    htf_bias = absent;
  };
}

-- The row that the sample analysis becomes.
abbrev created_row : ℕ → Signal
created_row i = record {
  id = i;
  symbol = codes "BTCUSDT";
  timeframe = codes "1h";
  direction = long;
  status = pending_entry;
  entry = Decimal.of_ℕ 100;
  stop_loss = Decimal.of_ℕ 95;
  take_profit = Decimal.of_ℕ 110;
  created_at = 7;
  opened_at = none;
  closed_at = none;
  close_price = none;
  close_reason = none;
  result = none;
  meta = record no_metadata {
    confidence = some (pos 73);
    rationale = some (codes "trend");
    provider = some (codes "openai");
    model_name = some (codes "m");
    analysis_timestamp = some (codes "t");
    market_timestamp = some (codes "t");
    candle_close_price = some (Decimal.of_ℕ 101);
  };
}

abbrev sample_candidate : SignalCandidate
sample_candidate = record {
  decision = long;
  entry = Decimal.of_ℕ 100;
  stop_loss = Decimal.of_ℕ 95;
  take_profit = Decimal.of_ℕ 110;
  confidence = pos 73;
  reasoning = codes "trend";
  provider = codes "openai";
  model_name = codes "m";
  temperature = none;
  symbol = codes "btcusdt";
  timeframe = codes "1h";
  analysis_timestamp = codes "t";
  market_timestamp = codes "t";
  candle_close_price = some (Decimal.of_ℕ 101);
}

accepted : validate_analysis sample_analysis defaults ≡ ok sample_candidate
unfolding validate_analysis validate_decision check_prices to_decimal validate_signal_prices
    validate_confidence validate_funding_crowd validate_htf_bias validate_trade_levels
    check_risk_reward check_fee_cover check_atr check_bounds Decimal.le Decimal.sub Decimal.mul
    Decimal.div Decimal.fix Decimal.quotient digits ◌+ℤ◌ ◌-ℤ◌ ◌*ℤ◌
accepted = refl

checked : check_signal (new_signal sample_candidate) 7 ≡ ok created_row
unfolding check_signal check_levels check_metadata check_confidence check_text validate_symbol
    validate_interval to_decimal validate_signal_prices temperature_to_text strip upper lower
    Decimal.le ◌*ℤ◌
checked = refl

abbrev fair : AreFair quiet
fair = (λ db v. (v, IsLater-refl db), λ db v. (v, IsLater-refl db))

first_run :
    process settings none quiet 7 (some sample_analysis) empty_db
    ≡ (created_result (created_row 1), with_new empty_db (created_row 1))
unfolding validate_symbol strip upper from_stored
first_run =
    process_creates settings none 7 sample_analysis empty_db sample_candidate created_row
      empty_db-IsTable refl accepted checked

-- The tables with the new signal.
abbrev pending_db : Db
pending_db = with_new empty_db (created_row 1)

pending_db-IsTable : IsTable pending_db
pending_db-IsTable =
    let kept =
      process-Evolves settings none quiet 7 (some sample_analysis) fair empty_db empty_db-IsTable in
    subst (λ r. IsTable r.1) first_run kept.0

blocked :
    (process settings none quiet 8 (some sample_analysis) pending_db).0.outcome
    ≡ blocked_open_signal
unfolding process by_decision after_lock validate_decision validate_symbol strip upper from_stored
    from_env pass_lock validated Decimal.le ◌*ℤ◌
blocked = refl

process-Evolves_example :
    Evolves empty_db (process settings none quiet 7 (some sample_analysis) empty_db).1
process-Evolves_example =
    process-Evolves settings none quiet 7 (some sample_analysis) fair empty_db empty_db-IsTable

process-IsSpared_example :
    IsSpared defaults sample_analysis 8 pending_db
      (process settings none quiet 8 (some sample_analysis) pending_db).1
unfolding from_stored
process-IsSpared_example =
    process-IsSpared settings none 8 sample_analysis pending_db pending_db-IsTable
      (λ e. cc (blocked))

-- An analyzer that raises.
abbrev failing : Analyzer
failing db = (err client_error, db)

analyze_and_create-Evolves_example :
    Evolves empty_db (analyze_and_create settings none none failing (λ db. db) quiet 7 empty_db).1
analyze_and_create-Evolves_example =
    analyze_and_create-Evolves settings none none failing (λ db. db) quiet 7
      (λ db v. (v, IsLater-refl db)) (λ db v. (v, IsLater-refl db)) fair empty_db empty_db-IsTable

process_creates_example :
    process settings none quiet 7 (some sample_analysis) empty_db
    ≡ (created_result (created_row 1), with_new empty_db (created_row 1))
unfolding validate_symbol strip upper from_stored
process_creates_example =
    process_creates settings none 7 sample_analysis empty_db sample_candidate created_row
      empty_db-IsTable refl accepted checked

process-IsCreated_example :
    IsCreated defaults sample_analysis empty_db
      (created_row 1)
      (process settings none quiet 7 (some sample_analysis) empty_db).1
unfolding from_stored
process-IsCreated_example =
    process-IsCreated settings none quiet 7 sample_analysis empty_db (created_row 1) fair
      empty_db-IsTable (ap (λ r. r.0) first_run)

holding : IsHolding defaults.pending_expiry_hours 9 (created_row 1)
unfolding Decimal.le ◌*ℤ◌
holding = not_yet refl refl

analyze_and_create_locked_example :
    analyze_and_create settings none
      (some (codes "btcusdt"))
      failing
      (λ db. empty_db)
      quiet
      9
      pending_db
    ≡ (plain blocked_open_signal, pending_db)
unfolding from_stored validate_symbol strip upper
analyze_and_create_locked_example =
    analyze_and_create_locked settings none (codes "btcusdt") failing (λ db. empty_db) quiet 9
      pending_db 1 (created_row 1) pending_db-IsTable refl refl holding

process_locks_example :
    analyze_and_create settings none
      (some (codes "btcusdt"))
      failing
      (λ db. empty_db)
      quiet
      9
      (process settings none quiet 7 (some sample_analysis) empty_db).1
    ≡ (plain blocked_open_signal, (process settings none quiet 7 (some sample_analysis) empty_db).1)
unfolding from_stored validate_symbol strip upper
process_locks_example =
    process_locks settings none quiet 7 sample_analysis empty_db (created_row 1) settings none
      (codes "btcusdt") failing (λ db. empty_db) quiet 9 fair empty_db-IsTable
      (ap (λ r. r.0) first_run) refl holding
