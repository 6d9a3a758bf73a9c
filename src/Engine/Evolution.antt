-- ===== src/Engine/Evolution.antt =====
-- Whatever the engine is given, and whatever others do meanwhile, the signal table evolves as the
-- repository lets it.
use tool_trade.Common.{Bool, true, false, inl, inr, Option, none, some, Bool-cases}
use tool_trade.Decimal.{Decimal}
use tool_trade.Models
use tool_trade.Models.{Direction, cancelled, Timestamp, Signal}
use tool_trade.Result.{Result, ok, err}
use tool_trade.Store.{Db}
use tool_trade.Text.{Text}
use tool_trade.SignalRepository.{create_signal, cancel_signal}
use tool_trade.SignalRepository.Calls.{IsTable}
use tool_trade.SignalRepository.History.{Evolves, Evolves-trans, IsFair, IsLater-refl}
use tool_trade.SignalRepository.Evolution.{create_signal-Evolves, cancel_signal-Evolves}
use tool_trade.Validator.{SignalAnalysis, SignalCandidate, validate_decision, validate_analysis}
use tool_trade.Validator.Guardrails.{GuardrailConfig}
use tool_trade.Engine.{
  Settings, Between, live_guardrails, pending_expired, active_signal_for, after_cancel, pass_lock,
  new_signal, after_create, persist, validated, after_lock, by_decision, process, Analyzer,
  after_analysis, analyze, lock_of, analyze_and_create,
}

after_cancel-Evolves :
    (start : Db) (r : Result Signal × Db) → Evolves start r.1 → Evolves start (after_cancel r).1
unfolding after_cancel
after_cancel-Evolves start (ok s, db) e = e
after_cancel-Evolves start (err x, db) e = e

pub pass_lock-Evolves :
    (active : Option Signal) (hours : Decimal) (between : Db → Db) (now : Timestamp)
    → IsFair between
    → IsFair (λ db. (pass_lock active hours between now db).1)
unfolding pass_lock
pass_lock-Evolves none hours between now fair db v = (v, IsLater-refl db)
pass_lock-Evolves (some s) hours between now fair db v =
    elim (Bool-cases (pending_expired s hours now)) [
      | inr fresh ↦ rw fresh (v, IsLater-refl db)
      | inl stale ↦ rw stale (
          after_cancel-Evolves db (cancel_signal s.id none now (between db)) (
            Evolves-trans db (between db) _ v (fair db v)
              (cancel_signal-Evolves s.id none now (between db))))
    ]

after_create-Evolves :
    (start : Db) (r : Result Signal × Db) → Evolves start r.1 → Evolves start (after_create r).1
unfolding after_create
after_create-Evolves start (ok s, db) e = e
after_create-Evolves start (err x, db) e = e

persist-Evolves :
    (r : Result SignalCandidate) (between : Db → Db) (now : Timestamp)
    → IsFair between
    → IsFair (λ db. (persist r between now db).1)
unfolding persist
persist-Evolves (err _) between now fair db v = (v, IsLater-refl db)
persist-Evolves (ok c) between now fair db v =
    after_create-Evolves db (create_signal (new_signal c) now (between db)) (
      Evolves-trans db (between db) _ v (fair db v)
        (create_signal-Evolves (new_signal c) now (between db)))

validated-Evolves :
    (a : SignalAnalysis) (guards : GuardrailConfig) (between : Db → Db) (now : Timestamp)
    (p : Bool × Db) (start : Db)
    → IsFair between
    → IsTable start
    → Evolves start p.1
    → Evolves start (validated a guards between now p).1
unfolding validated
validated-Evolves a guards between now (false, db) start fair v e = e
validated-Evolves a guards between now (true, db) start fair v e =
    Evolves-trans start db _ v e (persist-Evolves (validate_analysis a guards) between now fair db)

-- What the others do between the calls keeps the tables too.
abbrev pub AreFair : Between → Type 0
AreFair b = IsFair b.before_cancel × IsFair b.before_create

by_decision-Evolves :
    (d : Result Direction) (a : SignalAnalysis) (guards : GuardrailConfig) (between : Between)
    (now : Timestamp)
    → AreFair between
    → IsFair (λ db. (by_decision d a guards between now db).1)
unfolding by_decision after_lock
by_decision-Evolves (err _) a guards between now fair db v = (v, IsLater-refl db)
by_decision-Evolves (ok Models.wait) a guards between now fair db v = (v, IsLater-refl db)
by_decision-Evolves (ok _) a guards between now (first, second) db v =
    let active = active_signal_for a.symbol db in
    let hours = guards.pending_expiry_hours in
    validated-Evolves a guards between.before_create now
      (pass_lock active hours between.before_cancel now db) db second v
      (pass_lock-Evolves active hours between.before_cancel now first db v)

-- Whatever analysis the engine is given, the signal table stays valid and every signal's history holds,
-- if what other processes do between its reads and writes keeps both.
pub process-Evolves :
    (settings : Settings) (given : Option GuardrailConfig) (between : Between) (now : Timestamp)
    (a : Option SignalAnalysis)
    → AreFair between
    → IsFair (λ db. (process settings given between now a db).1)
unfolding process
process-Evolves settings given between now none fair db v = (v, IsLater-refl db)
process-Evolves settings given between now (some a) fair db v =
    by_decision-Evolves (validate_decision a.decision) a (live_guardrails settings given) between
      now fair db v

after_analysis-Evolves :
    (settings : Settings) (guards : GuardrailConfig) (between : Between) (now : Timestamp)
    (r : Result (Option SignalAnalysis) × Db) (start : Db)
    → AreFair between
    → IsTable start
    → Evolves start r.1
    → Evolves start (after_analysis settings guards between now r).1
unfolding after_analysis
after_analysis-Evolves settings guards between now (err _, db) start fair v e = e
after_analysis-Evolves settings guards between now (ok a, db) start fair v e =
    Evolves-trans start db _ v e (process-Evolves settings (some guards) between now a fair db)

analyze-Evolves :
    (settings : Settings) (guards : GuardrailConfig) (analyzer : Analyzer) (between : Between)
    (now : Timestamp) (p : Bool × Db) (start : Db)
    → IsFair (λ db. (analyzer db).1)
    → AreFair between
    → IsTable start
    → Evolves start p.1
    → Evolves start (analyze settings guards analyzer between now p).1
unfolding analyze
analyze-Evolves settings guards analyzer between now (false, db) start calls fair v e = e
analyze-Evolves settings guards analyzer between now (true, db) start calls fair v e =
    after_analysis-Evolves settings guards between now (analyzer db) start fair v
      (Evolves-trans start db _ v e (calls db))

-- The whole cycle keeps the signal table valid and every signal's history, whatever the analyzer returns
-- or raises, if what other processes do while it runs and between the writes keeps both.
pub analyze_and_create-Evolves :
    (settings : Settings) (given : Option GuardrailConfig) (symbol : Option Text)
    (analyzer : Analyzer) (first : Db → Db) (between : Between) (now : Timestamp)
    → IsFair (λ db. (analyzer db).1)
    → IsFair first
    → AreFair between
    → IsFair (λ db. (analyze_and_create settings given symbol analyzer first between now db).1)
unfolding analyze_and_create
analyze_and_create-Evolves settings given symbol analyzer first between now calls before fair db v =
    let guards = live_guardrails settings given in
    let hours = guards.pending_expiry_hours in
    analyze-Evolves settings guards analyzer between now
      (pass_lock (lock_of symbol db) hours first now db) db calls fair v
      (pass_lock-Evolves (lock_of symbol db) hours first now before db v)
