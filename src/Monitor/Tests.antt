-- ===== src/Monitor/Tests.antt =====
-- The theorems on `SignalMonitor` at concrete tables and candles.
use tool_trade.Common.{◌≡◌, ◌↔◌, refl, true, false, some, List, [], ◌∷◌, ◌*ℤ◌}
use tool_trade.Decimal
use tool_trade.Decimal.{Decimal, le}
use tool_trade.Market.Klines.{Candle}
use tool_trade.Models.{to_decimal}
use tool_trade.Result.{ok}
use tool_trade.Samples.{sample_signal, sample_db}
use tool_trade.SignalRepository.{transition_signal, apply_transition, get_signal, get_active_signal}
use tool_trade.SignalRepository.History.{Evolves, IsLater-refl}
use tool_trade.SignalRepository.Runs.{empty_db-IsTable}
use tool_trade.Store.{empty_db}
use tool_trade.Models.{Signal}
use tool_trade.Monitor.{
  any_symbol, active, after_close, close_signal, on_exit, by_status, evaluate_open_position,
  on_latest, after_fetch, after_read, poll,
}
use tool_trade.Monitor.Candles.{
  entry_hit, monitoring, ambiguous, tp_hit, sl_hit, evaluate_candle, evaluate_entry, exit_outcome,
}
use tool_trade.Monitor.Exits.{ClosedByLatest, poll-Closed}
use tool_trade.Monitor.Polls.{poll-Evolves}
use tool_trade.Monitor.Touches.{
  at_tp, at_sl, reaches, evaluate_candle_iff, evaluate_entry_iff, tp_hit-ambiguous,
}

-- A closed candle from 99 to 111.
abbrev up_candle : Candle
up_candle = record {
  timestamp = 60_000;
  open_price = Decimal.of_ℕ 100;
  high = Decimal.of_ℕ 111;
  low = Decimal.of_ℕ 99;
  close = Decimal.of_ℕ 110;
  volume = Decimal.of_ℕ 1;
  close_time = 119_999;
  is_closed = true;
}

abbrev up_market : List Candle
up_market =
    up_candle
    ∷ record up_candle { timestamp = 120_000; close_time = 179_999; is_closed = false }
    ∷ []

poll-Closed_example :
    (s : Signal) × (active any_symbol sample_db ≡ ok (some s))
    × ClosedByLatest s
        (ok up_market)
        (poll any_symbol (λ _. ok up_market) (λ db. db) 130_000 sample_db).0
        sample_db
        (poll any_symbol (λ _. ok up_market) (λ db. db) 130_000 sample_db).1
unfolding poll after_read after_fetch on_latest by_status evaluate_open_position on_exit
    close_signal after_close evaluate_candle exit_outcome transition_signal apply_transition
    get_signal get_active_signal to_decimal le ◌*ℤ◌
poll-Closed_example = poll-Closed any_symbol (λ _. ok up_market) (λ db. db) 130_000 sample_db tt

poll-Evolves_example :
    Evolves empty_db (poll any_symbol (λ _. ok up_market) (λ db. db) 130_000 empty_db).1
poll-Evolves_example =
    poll-Evolves any_symbol (λ _. ok up_market) (λ db. db) 130_000 empty_db
      (λ db v. (v, IsLater-refl db)) empty_db-IsTable

evaluate_candle_iff_example :
    ((evaluate_candle sample_signal (Decimal.of_ℕ 111) (Decimal.of_ℕ 94) ≡ ok tp_hit) ↔ (
      (at_tp sample_signal (Decimal.of_ℕ 111) (Decimal.of_ℕ 94) ≡ true)
      × (at_sl sample_signal (Decimal.of_ℕ 111) (Decimal.of_ℕ 94) ≡ false)))
    × ((evaluate_candle sample_signal (Decimal.of_ℕ 111) (Decimal.of_ℕ 94) ≡ ok sl_hit) ↔ (
        (at_tp sample_signal (Decimal.of_ℕ 111) (Decimal.of_ℕ 94) ≡ false)
        × (at_sl sample_signal (Decimal.of_ℕ 111) (Decimal.of_ℕ 94) ≡ true)))
    × ((evaluate_candle sample_signal (Decimal.of_ℕ 111) (Decimal.of_ℕ 94) ≡ ok ambiguous) ↔ (
        (at_tp sample_signal (Decimal.of_ℕ 111) (Decimal.of_ℕ 94) ≡ true)
        × (at_sl sample_signal (Decimal.of_ℕ 111) (Decimal.of_ℕ 94) ≡ true)))
    × ((evaluate_candle sample_signal (Decimal.of_ℕ 111) (Decimal.of_ℕ 94) ≡ ok monitoring) ↔ (
        (at_tp sample_signal (Decimal.of_ℕ 111) (Decimal.of_ℕ 94) ≡ false)
        × (at_sl sample_signal (Decimal.of_ℕ 111) (Decimal.of_ℕ 94) ≡ false)))
unfolding le ◌*ℤ◌
evaluate_candle_iff_example =
    evaluate_candle_iff sample_signal (Decimal.of_ℕ 111) (Decimal.of_ℕ 94) (refl, refl)

evaluate_entry_iff_example :
    (evaluate_entry sample_signal (Decimal.of_ℕ 101) (Decimal.of_ℕ 99) ≡ ok entry_hit) ↔ (
      (reaches sample_signal.direction sample_signal.entry (Decimal.of_ℕ 101) (Decimal.of_ℕ 99)
        ≡ true)
      × (evaluate_candle sample_signal (Decimal.of_ℕ 101) (Decimal.of_ℕ 99) ≡ ok monitoring))
unfolding le ◌*ℤ◌
evaluate_entry_iff_example =
    evaluate_entry_iff sample_signal (Decimal.of_ℕ 101) (Decimal.of_ℕ 99) (refl, refl)

tp_hit-ambiguous_example :
    evaluate_entry sample_signal (Decimal.of_ℕ 111) (Decimal.of_ℕ 99) ≡ ok ambiguous
unfolding evaluate_candle exit_outcome le ◌*ℤ◌
tp_hit-ambiguous_example =
    tp_hit-ambiguous sample_signal (Decimal.of_ℕ 111) (Decimal.of_ℕ 99) (refl, refl) refl
