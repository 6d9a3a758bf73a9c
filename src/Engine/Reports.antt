-- ===== src/Engine/Reports.antt =====
-- What the other outcomes leave behind, and when a signal is created for certain.
use tool_trade.Common.{
  ◌≡◌, ◌≢◌, ◌⊎◌, refl, ap, ◌∙◌, Bool, true, false, inl, inr, Option, none, some, any, any-of_none,
  ℕ, arith, Bool-cases,
}
use tool_trade.Models
use tool_trade.Models.{Direction, long, short, unknown, Timestamp, Signal}
use tool_trade.Models.Prices.{IsOrdered}
use tool_trade.Decimal.{Decimal}
use tool_trade.Text.{Text}
use tool_trade.Result.{Result, ok, err, Error, Ensures-eq_ok, Result-cases}
use tool_trade.Store.{Db}
use tool_trade.Market.{validate_symbol}
use tool_trade.SignalRepository.{create_signal, cancel_signal, active_for}
use tool_trade.SignalRepository.Types.{NewSignal, check_signal}
use tool_trade.SignalRepository.Create.{IsPrepared, check_signal-Ensures}
use tool_trade.SignalRepository.Calls.{
  IsTable, with_new, create_signal_checked, create_signal_refused,
}
use tool_trade.SignalRepository.Evolution.{cancel_signal-Evolves}
use tool_trade.Validator.{SignalAnalysis, SignalCandidate, validate_decision, validate_analysis}
use tool_trade.Validator.Guardrails.{GuardrailConfig}
use tool_trade.Validator.Accepted.{IsTradable, validate_analysis-Ensures}
use tool_trade.Engine.{
  created, created_result, Settings, Between, live_guardrails, pending_expired, active_signal_for,
  after_cancel, pass_lock, new_signal, after_create, persist, validated, after_lock, by_decision,
  process,
}

-- No other process writes.
abbrev pub quiet : Between
quiet = record { before_cancel = λ db. db; before_create = λ db. db }

-- An insert that raises leaves the tables as they were.
create_signal_failed :
    (n : NewSignal) (now : Timestamp) (db : Db) (e : Error)
    → IsTable db
    → (create_signal n now db).0 ≡ err e
    → (create_signal n now db).1 ≡ db
create_signal_failed n now db e v h = elim (Result-cases (check_signal n now)) [
  | inr (x, k) ↦ ap (λ r. r.1) (create_signal_refused n now x db k)
  | inl (row, k) ↦
      let call = create_signal_checked n now row db v k in
      elim (Bool-cases (any (active_for (row 0).symbol) db.signals)) [
        | inl taken ↦ ground (arith, call)
        | inr free ↦ absurd (ground (arith, call))
      ]
]

after_create_failed :
    (db : Db) (r : Result Signal × Db)
    → ((e : Error) → r.0 ≡ err e → r.1 ≡ db)
    → (after_create r).0.outcome ≢ created
    → (after_create r).1 ≡ db
unfolding after_create
after_create_failed db (ok s, db') f h = absurd (h refl)
after_create_failed db (err e, db') f h = f e refl

persist_failed :
    (r : Result SignalCandidate) (now : Timestamp) (db : Db)
    → IsTable db
    → (persist r (λ x. x) now db).0.outcome ≢ created
    → (persist r (λ x. x) now db).1 ≡ db
unfolding persist
persist_failed (err e) now db v h = refl
persist_failed (ok c) now db v h =
    after_create_failed db (create_signal (new_signal c) now db)
      (λ e. create_signal_failed (new_signal c) now db e v) h

validated_failed :
    (a : SignalAnalysis) (guards : GuardrailConfig) (now : Timestamp) (p : Bool × Db)
    → IsTable p.1
    → (validated a guards (λ x. x) now p).0.outcome ≢ created
    → (validated a guards (λ x. x) now p).1 ≡ p.1
unfolding validated
validated_failed a guards now (false, db) v h = refl
validated_failed a guards now (true, db) v h =
    persist_failed (validate_analysis a guards) now db v h

-- Nothing was written, or the stale pending signal in the analysis's slot was cancelled.
abbrev pub IsSpared : GuardrailConfig → SignalAnalysis → Timestamp → Db → Db → Type 0
IsSpared guards a now db after =
    (after ≡ db)
    ⊎ ((s : Signal) × (active_signal_for a.symbol db ≡ some s)
        × (pending_expired s guards.pending_expiry_hours now ≡ true)
        × (after ≡ (cancel_signal s.id none now db).1))

after_cancel_db : (r : Result Signal × Db) → (after_cancel r).1 ≡ r.1
unfolding after_cancel
after_cancel_db (ok s, db) = refl
after_cancel_db (err e, db) = refl

lock-IsSpared :
    (guards : GuardrailConfig) (a : SignalAnalysis) (now : Timestamp) (db : Db)
    (active : Option Signal)
    → active_signal_for a.symbol db ≡ active
    → IsTable db
    → let p = pass_lock active guards.pending_expiry_hours (λ x. x) now db in
      IsTable p.1 × IsSpared guards a now db p.1
unfolding pass_lock
lock-IsSpared guards a now db none e v = (v, inl refl)
lock-IsSpared guards a now db (some s) e v =
    elim (Bool-cases (pending_expired s guards.pending_expiry_hours now)) [
      | inr fresh ↦ rw fresh (v, inl refl)
      | inl stale ↦ rw stale (
          rw (after_cancel_db (cancel_signal s.id none now db))
            ((cancel_signal-Evolves s.id none now db v).0, inr (s, e, stale, refl)))
    ]

by_decision-IsSpared :
    (d : Result Direction) (a : SignalAnalysis) (guards : GuardrailConfig) (now : Timestamp)
    (db : Db)
    → IsTable db
    → (by_decision d a guards quiet now db).0.outcome ≢ created
    → IsSpared guards a now db (by_decision d a guards quiet now db).1
unfolding by_decision after_lock
by_decision-IsSpared (err _) a guards now db v h = inl refl
by_decision-IsSpared (ok Models.wait) a guards now db v h = inl refl
by_decision-IsSpared (ok _) a guards now db v h =
    let active = active_signal_for a.symbol db in
    let (v', spared) = lock-IsSpared guards a now db active refl v in
    let p = pass_lock active guards.pending_expiry_hours (λ x. x) now db in
    rw (validated_failed a guards now p v' h) spared

-- Unless the outcome is CREATED, an analysis leaves the tables as they were, but for the cancellation of
-- a stale pending signal in its slot; no other process writes meanwhile.
pub process-IsSpared :
    (settings : Settings) (given : Option GuardrailConfig) (now : Timestamp) (a : SignalAnalysis)
    (db : Db)
    → IsTable db
    → (process settings given quiet now (some a) db).0.outcome ≢ created
    → IsSpared
        (live_guardrails settings given)
        a
        now
        db
        (process settings given quiet now (some a) db).1
unfolding process
process-IsSpared settings given now a db v h =
    by_decision-IsSpared (validate_decision a.decision) a (live_guardrails settings given) now db v
      h

decided :
    (d : Direction) (entry stop take : Decimal) (a : SignalAnalysis) (guards : GuardrailConfig)
    (between : Between) (now : Timestamp) (db : Db)
    → IsOrdered d entry stop take
    → by_decision (validate_decision d) a guards between now db
      ≡ after_lock a guards between now (active_signal_for a.symbol db) db
unfolding by_decision validate_decision
decided long entry stop take a guards between now db h = refl
decided short entry stop take a guards between now db h = refl
decided Models.wait entry stop take a guards between now db h = absurd h
decided unknown entry stop take a guards between now db h = absurd h

free_slot :
    (symbol normal : Text) (db : Db)
    → validate_symbol symbol ≡ ok normal
    → active_signal_for symbol db ≡ none
    → any (active_for normal) db.signals ≡ false
free_slot symbol normal db k h =
    any-of_none (active_for normal) db.signals (rw (k, active_signal_for) at h)

stored :
    (a : SignalAnalysis) (guards : GuardrailConfig) (now : Timestamp) (c : SignalCandidate)
    (db : Db) (s : Signal) (after : Db)
    → validate_analysis a guards ≡ ok c
    → create_signal (new_signal c) now db ≡ (ok s, after)
    → after_lock a guards quiet now none db ≡ (created_result s, after)
unfolding after_lock validated persist pass_lock after_create
stored a guards now c db s after accepted done =
    rw (accepted, persist) (rw (done, after_create) refl)

-- With a free slot, an analysis that the validator accepts and whose texts and numbers the repository
-- takes is stored, whatever the symbol's closed signals are: the answer is CREATED with the new row.
pub process_creates :
    (settings : Settings) (given : Option GuardrailConfig) (now : Timestamp) (a : SignalAnalysis)
    (db : Db) (c : SignalCandidate) (row : ℕ → Signal)
    → IsTable db
    → active_signal_for a.symbol db ≡ none
    → validate_analysis a (live_guardrails settings given) ≡ ok c
    → check_signal (new_signal c) now ≡ ok row
    → process settings given quiet now (some a) db
      ≡ (created_result (row db.next_signal), with_new db (row db.next_signal))
unfolding process
process_creates settings given now a db c row v free accepted checked =
    let guards = live_guardrails settings given in
    let t = Ensures-eq_ok (IsTradable guards a) _ c (validate_analysis-Ensures a guards) accepted in
    let ordered = t.given.6 in
    let prepared =
      Ensures-eq_ok (IsPrepared (new_signal c) now) _ row (check_signal-Ensures (new_signal c) now)
        checked in
    let same : c.symbol ≡ a.symbol = ap (λ x. x.symbol) t.is_candidate in
    let slot : any (active_for (row 0).symbol) db.signals ≡ false =
      free_slot a.symbol (row 0).symbol db (rw same at prepared.0) free in
    let done : create_signal (new_signal c) now db
        ≡ (ok (row db.next_signal), with_new db (row db.next_signal)) =
      rw (create_signal_checked (new_signal c) now row db v checked) (rw slot refl) in
    decided a.decision t.prices.entry t.prices.stop_loss t.prices.take_profit a guards quiet now db
      ordered
    ∙ ap (λ active. after_lock a guards quiet now active db) free
    ∙ stored a guards now c db (row db.next_signal) _ accepted done
