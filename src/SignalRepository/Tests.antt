-- ===== src/SignalRepository/Tests.antt =====
-- The theorems on `SignalRepository` at concrete tables.
use tool_trade.Common.{◌≡◌, refl, false, true, none, some, List, [], ◌∷◌, find, if◌then◌else◌, ◌*ℤ◌}
use tool_trade.Decimal
use tool_trade.Decimal.{le}
use tool_trade.Models.{win, tp, to_decimal, Signal, open_, tp_hit, number, Timestamp}
use tool_trade.Store.{Db, empty_db}
use tool_trade.Samples.{sample_new, sample_db, sample_signal, pending_signal}
use tool_trade.SignalRepository.{
  transition_signal, apply_transition, get_signal, no_details, has_signal_id,
}
use tool_trade.SignalRepository.Delete.{delete_signals, delete_body, delete_ids, delete_rows}
use tool_trade.SignalRepository.Deleted.{delete_signals-find, removable}
use tool_trade.SignalRepository.History.{Evolves}
use tool_trade.SignalRepository.Ids.{unique_ids, sort_ids, insert_id}
use tool_trade.SignalRepository.Types.{Transition}
use tool_trade.SignalRepository.Outcomes.{Moved, transition_signal-Moved}
use tool_trade.SignalRepository.Runs.{
  Call, create, transition, delete, delete_all, run_all, run_all-Evolves, empty_db-IsTable,
}

abbrev sample_calls : List (Call × Timestamp)
sample_calls =
    (create sample_new, 5)
    ∷ (transition 1 (some open_) no_details, 6)
    ∷ (create sample_new, 7)
    ∷ (
      transition 1 (some tp_hit)
          (record no_details { close_price = some (number (Decimal.of_ℕ 110)) }),
      8,
    )
    ∷ (delete (1 ∷ 9 ∷ []) false, 9)
    ∷ (delete_all true, 10)
    ∷ []

run_all-Evolves_example : Evolves empty_db (run_all sample_calls empty_db)
run_all-Evolves_example = run_all-Evolves sample_calls empty_db empty_db-IsTable

-- An OPEN signal and a pending one of another symbol.
abbrev two_signals : Db
two_signals = record sample_db { signals = sample_signal ∷ pending_signal ∷ []; next_signal = 3 }

delete_signals-find_example :
    find (has_signal_id 2) (delete_signals (2 ∷ 1 ∷ 2 ∷ []) false two_signals).1.signals ≡ (
      if removable (2 ∷ 1 ∷ 2 ∷ []) false two_signals 2
      then none
      else find (has_signal_id 2) two_signals.signals)
unfolding delete_signals delete_body delete_ids delete_rows unique_ids sort_ids insert_id
delete_signals-find_example = delete_signals-find (2 ∷ 1 ∷ 2 ∷ []) false two_signals 2 refl

abbrev take_profit_hit : Transition
take_profit_hit = record no_details {
  close_price = some (number (Decimal.of_ℕ 110));
  close_reason = some tp;
  result = some win;
}

abbrev hit_row : Signal
hit_row = record sample_signal {
  status = tp_hit;
  closed_at = some 9;
  close_price = some (Decimal.of_ℕ 110);
  close_reason = some tp;
  result = some win;
}

transition_signal-Moved_example :
    Moved 1 tp_hit take_profit_hit 9 sample_db hit_row
      (transition_signal 1 (some tp_hit) take_profit_hit 9 sample_db).1
unfolding transition_signal apply_transition get_signal to_decimal le ◌*ℤ◌
transition_signal-Moved_example =
    transition_signal-Moved 1 tp_hit take_profit_hit 9 sample_db hit_row refl
