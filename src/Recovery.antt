-- ===== src/Recovery.antt =====
-- `RecoveryService.recover` of signal_engine/recovery.py: the active signal at a start, read back from
-- the tables. It writes nothing.
pub mod Slot
mod Tests
use tool_trade.Common.{
  Bool, true, false, not, ◌&&◌, Option, none, some, List, [], ◌∷◌, ◌++◌, select, if◌then◌else◌,
}
use tool_trade.Models.{
  Status, pending_entry, open_, status_eq, is_direction, Signal, validate_signal_prices,
}
use tool_trade.Result.{Result, ok, err, is_ok}
use tool_trade.SignalRepository.Listing.{all_signals, list_signals}
use tool_trade.Store.{Db}
use tool_trade.Text.{Text, text_eq, strip, is_empty}

pub data RecoveryOutcome : Type 0 where
  recovered_open no_open_signal recovery_error : RecoveryOutcome

pub record RecoveryResult : Type 0 where
  pub outcome : RecoveryOutcome
  pub signal : Option Signal

abbrev pub recovered : Signal → RecoveryResult
recovered s = record { outcome = recovered_open; signal = some s }

abbrev pub nothing_active : RecoveryResult
nothing_active = record { outcome = no_open_signal; signal = none }

abbrev pub recovery_failed : RecoveryResult
recovery_failed = record { outcome = recovery_error; signal = none }

-- `_is_valid`
pub is_valid : Signal → Bool
is_valid s =
    is_direction s.direction
    && not (is_empty (strip s.symbol))
    && is_ok (validate_signal_prices s.direction s.entry s.stop_loss s.take_profit)

abbrev pub is_given {ℓ} : {A : Type ℓ} → Option A → Bool
is_given none = false
is_given (some _) = true

-- What is made of the one active signal.
pub check_active : Signal → RecoveryResult
check_active s =
    if status_eq s.status pending_entry && is_given s.opened_at
    then recovery_failed
    else if is_valid s
    then recovered s
    else recovery_failed

pub of_active : List Signal → RecoveryResult
unfolding check_active
of_active [] = nothing_active
of_active (s ∷ []) = check_active s
of_active (s ∷ t ∷ rest) = recovery_failed

-- `[signal for signal in active if signal.symbol == symbol]`, where a symbol is given.
abbrev pub for_symbol : Option Text → List Signal → List Signal
for_symbol none active = active
for_symbol (some symbol) active = select (λ s. text_eq s.symbol symbol) active

joined : Option Text → Result (List Signal) → Result (List Signal) → RecoveryResult
unfolding of_active
joined symbol (ok pending) (ok opened) = of_active (for_symbol symbol (pending ++ opened))
joined symbol _ _ = recovery_failed

pub recover : Option Text → Db → RecoveryResult
unfolding joined
recover symbol db =
    joined symbol (list_signals (record all_signals { status = some pending_entry }) db).0
      (list_signals (record all_signals { status = some open_ }) db).0
