-- ===== src/Engine/Gate.antt =====
-- The lock of `analyze_and_create`, signal_engine/engine.py, against the rows of the table.
use tool_trade.Common.{
  ℕ, ◌-◌, ◌≡◌, refl, sym, subst, true, false, Option, some, count, find, arith, find-unique_row,
  find-append,
}
use tool_trade.Decimal
use tool_trade.Decimal.{Decimal}
use tool_trade.Market.{validate_symbol}
use tool_trade.Models.{pending_entry, open_, is_active, Timestamp, Signal}
use tool_trade.Result.{ok}
use tool_trade.Store.{Db}
use tool_trade.Text.{Text, text_eq_refl}
use tool_trade.SignalRepository.{has_signal_id, active_for}
use tool_trade.SignalRepository.Calls.{IsTable, with_new}
use tool_trade.SignalRepository.Invariant.{fresh-count}
use tool_trade.Validator.{SignalAnalysis}
use tool_trade.Validator.Guardrails.{GuardrailConfig}
use tool_trade.Engine.Created.{process-IsCreated}
use tool_trade.Engine.Evolution.{AreFair, process-Evolves}
use tool_trade.Engine.{
  blocked_open_signal, created_result, plain, Settings, Between, live_guardrails, hours_in_ms,
  pending_expired, active_signal_for, pass_lock, Analyzer, analyze, lock_of, process,
  analyze_and_create,
}

-- A row that keeps its symbol's slot: it is open, or it is pending and does not expire, or its age is
-- at most the expiry.
pub data IsHolding (hours : Decimal) (now : Timestamp) (s : Signal) : Type 0 where
  is_open : s.status ≡ open_ → IsHolding hours now s
  never_expires :
      s.status ≡ pending_entry → Decimal.le hours (Decimal.of_ℕ 0) ≡ true → IsHolding hours now s
  not_yet :
      s.status ≡ pending_entry
      → Decimal.le (Decimal.of_ℕ (now - s.created_at)) (hours_in_ms hours) ≡ true
      → IsHolding hours now s

IsHolding-pending_expired :
    (hours : Decimal) (now : Timestamp) (s : Signal)
    → IsHolding hours now s
    → (pending_expired s hours now ≡ false) × (is_active s.status ≡ true)
IsHolding-pending_expired hours now s (is_open e) = rw e (refl, refl)
IsHolding-pending_expired hours now s (never_expires e z) = rw e (ground arith, refl)
IsHolding-pending_expired hours now s (not_yet e le) = rw e (ground arith, refl)

-- On valid tables, while some row of the symbol is open, or pending and not past its expiry, the answer is
-- BLOCKED_OPEN_SIGNAL with nothing written, for every analyzer and every interference: neither has run.
pub analyze_and_create_locked :
    (settings : Settings) (given : Option GuardrailConfig) (symbol : Text) (analyzer : Analyzer)
    (first : Db → Db) (between : Between) (now : Timestamp) (db : Db) (i : ℕ) (s : Signal)
    → IsTable db
    → find (has_signal_id i) db.signals ≡ some s
    → validate_symbol symbol ≡ ok s.symbol
    → IsHolding (live_guardrails settings given).pending_expiry_hours now s
    → analyze_and_create settings given (some symbol) analyzer first between now db
      ≡ (plain blocked_open_signal, db)
unfolding analyze_and_create analyze pass_lock
analyze_and_create_locked settings given symbol analyzer first between now db i s v row named
      holds =
    let hours = (live_guardrails settings given).pending_expiry_hours in
    let (fresh, active) = IsHolding-pending_expired hours now s holds in
    let here : active_for s.symbol s ≡ true = rw (text_eq_refl s.symbol, active) refl in
    let found : lock_of (some symbol) db ≡ some s =
      rw (lock_of, active_signal_for, named)
        (find-unique_row (active_for s.symbol) (has_signal_id i) db.signals s (v.slot s.symbol) row
          here) in
    let locked : pass_lock (lock_of (some symbol) db) hours first now db ≡ (false, db) =
      rw (found, pass_lock) (rw fresh refl) in
    rw locked refl

with_new-found :
    (db : Db) (s : Signal)
    → IsTable db
    → s.id ≡ db.next_signal
    → find (has_signal_id s.id) (with_new db s).signals ≡ some s
with_new-found db s v e =
    let none_left =
      subst (λ i. count (has_signal_id i) db.signals ≡ 0) (sym e)
        (fresh-count db.signals db.next_signal v.fresh) in
    find-append (has_signal_id s.id) db.signals s none_left (ground arith)

-- After an answer CREATED on valid tables, a cycle for the symbol of the new signal, under any settings by which the signal
-- does not expire yet, answers BLOCKED_OPEN_SIGNAL and writes nothing, whatever its analyzer.
pub process_locks :
    (settings : Settings) (given : Option GuardrailConfig) (between : Between) (now : Timestamp)
    (a : SignalAnalysis) (db : Db) (s : Signal) (settings' : Settings)
    (given' : Option GuardrailConfig) (symbol : Text) (analyzer : Analyzer) (first' : Db → Db)
    (between' : Between) (now' : Timestamp)
    → AreFair between
    → IsTable db
    → (process settings given between now (some a) db).0 ≡ created_result s
    → validate_symbol symbol ≡ ok s.symbol
    → IsHolding (live_guardrails settings' given').pending_expiry_hours now' s
    → analyze_and_create settings' given'
        (some symbol)
        analyzer
        first'
        between'
        now'
        (process settings given between now (some a) db).1
      ≡ (plain blocked_open_signal, (process settings given between now (some a) db).1)
process_locks settings given between now a db s settings' given' symbol analyzer first' between'
      now' fair v made named holds =
    let after = (process settings given between now (some a) db).1 in
    let c = process-IsCreated settings given between now a db s fair v made in
    let kept : IsTable after = (process-Evolves settings given between now (some a) fair db v).0 in
    let row : find (has_signal_id s.id) after.signals ≡ some s =
      rw c.inserted (with_new-found c.before s c.evolved.0 c.numbered) in
    analyze_and_create_locked settings' given' symbol analyzer first' between' now' after s.id s
      kept row named holds
