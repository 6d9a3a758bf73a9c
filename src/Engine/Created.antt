-- ===== src/Engine/Created.antt =====
-- What the engine's CREATED stands for.
use tool_trade.Common.{
  ◌≡◌, ◌≢◌, ap, refl, sym, Bool, true, false, inl, inr, Option, some, any, arith, Bool-cases,
}
use tool_trade.Decimal.{Decimal}
use tool_trade.Models
use tool_trade.Models.{Direction, number, pending_entry, Timestamp, Signal}
use tool_trade.Result.{Result, ok, err, Error, Ensures-eq_ok, Result-cases}
use tool_trade.Store.{Db}
use tool_trade.SignalRepository.{create_signal, active_for}
use tool_trade.SignalRepository.Types.{check_signal}
use tool_trade.SignalRepository.Create.{
  IsPrepared, check_signal-Ensures, HasTerms, check_signal-HasTerms,
}
use tool_trade.SignalRepository.Calls.{
  IsTable, with_new, create_signal_checked, create_signal_refused,
}
use tool_trade.SignalRepository.History.{Evolves, Evolves-trans, IsFair}
use tool_trade.Validator.{SignalAnalysis, SignalCandidate, validate_decision, validate_analysis}
use tool_trade.Validator.Guardrails.{GuardrailConfig}
use tool_trade.Validator.Accepted.{IsTradable, validate_analysis-Ensures}
use tool_trade.Engine.{
  created, created_result, Settings, Between, live_guardrails, active_signal_for, pass_lock,
  new_signal, refusal, after_create, persist, validated, after_lock, by_decision, process,
}
use tool_trade.Engine.Evolution.{AreFair, pass_lock-Evolves}

-- The row that was inserted, into tables that hold no active signal of its symbol, with the decision and
-- the levels of a candidate that the validator accepted.
pub record IsCreated (guards : GuardrailConfig) (a : SignalAnalysis) (start : Db) (s : Signal)
    (after : Db) : Type 0 where
  pub candidate : SignalCandidate
  pub before : Db
  pub accepted : IsTradable guards a candidate
  pub evolved : Evolves start before
  pub free : any (active_for s.symbol) before.signals ≡ false
  pub inserted : after ≡ with_new before s
  pub numbered : s.id ≡ before.next_signal
  pub pending : s.status ≡ pending_entry
  pub terms :
      (s.direction ≡ candidate.decision)
      × (s.entry ≡ candidate.entry)
      × (s.stop_loss ≡ candidate.stop_loss)
      × (s.take_profit ≡ candidate.take_profit)

number-injective : (a b : Decimal) → number a ≡ number b → b ≡ a
number-injective a b e = cc

not-created : (e : Error) → refusal e ≢ created
not-created e h = ground arith

-- An insert that returns.
insert-IsCreated :
    (guards : GuardrailConfig) (a : SignalAnalysis) (c : SignalCandidate) (now : Timestamp)
    (start db : Db) (s : Signal)
    → IsTradable guards a c
    → Evolves start db
    → (create_signal (new_signal c) now db).0 ≡ ok s
    → IsCreated guards a start s (create_signal (new_signal c) now db).1
insert-IsCreated guards a c now start db s t e h =
    let n = new_signal c in
    elim (Result-cases (check_signal n now)) [
      | inr (x, k) ↦ absurd (let call = create_signal_refused n now x db k in ground arith)
      | inl (row, k) ↦
          let (_, ids, symbols, pending, _) =
            Ensures-eq_ok (IsPrepared n now) _ row (check_signal-Ensures n now) k in
          let (d, en, st, tk) =
            Ensures-eq_ok (HasTerms n) _ row (check_signal-HasTerms n now) k db.next_signal in
          let call = create_signal_checked n now row db e.0 k in
          elim (Bool-cases (any (active_for (row 0).symbol) db.signals)) [
            | inl taken ↦ absurd (ground (arith, call))
            | inr free ↦
                let done : create_signal n now db
                    ≡ (ok (row db.next_signal), with_new db (row db.next_signal)) =
                  rw free at call in
                let same : row db.next_signal ≡ s = let first = ap (λ r. r.0) done in cc in
                let here : IsCreated guards a start (row db.next_signal)
                    (with_new db (row db.next_signal)) =
                  record {
                    candidate = c;
                    before = db;
                    accepted = t;
                    evolved = e;
                    free = rw (symbols db.next_signal) free;
                    inserted = refl;
                    numbered = ids db.next_signal;
                    pending = pending db.next_signal;
                    terms = (
                      d,
                      number-injective c.entry (row db.next_signal).entry en,
                      number-injective c.stop_loss (row db.next_signal).stop_loss st,
                      number-injective c.take_profit (row db.next_signal).take_profit tk,
                    );
                  } in
                rw (ap (λ r. r.1) done, sym same) here
          ]
    ]

after_create-IsCreated :
    (guards : GuardrailConfig) (a : SignalAnalysis) (start : Db) (s : Signal)
    (r : Result Signal × Db)
    → (r.0 ≡ ok s → IsCreated guards a start s r.1)
    → (after_create r).0 ≡ created_result s
    → IsCreated guards a start s (after_create r).1
unfolding after_create
after_create-IsCreated guards a start s (ok x, db) f h = f (cc)
after_create-IsCreated guards a start s (err e, db) f h = absurd (not-created e (cc))

persist-IsCreated :
    (guards : GuardrailConfig) (a : SignalAnalysis) (between : Db → Db) (now : Timestamp)
    (start db : Db) (s : Signal)
    → IsFair between
    → IsTable start
    → Evolves start db
    → (persist (validate_analysis a guards) between now db).0 ≡ created_result s
    → IsCreated guards a start s (persist (validate_analysis a guards) between now db).1
unfolding persist
persist-IsCreated guards a between now start db s fair v e h =
    elim (Result-cases (validate_analysis a guards)) [
      | inr (x, k) ↦ absurd (let h' = rw (k, persist) at h in cc)
      | inl (c, k) ↦
          let tradable =
            Ensures-eq_ok (IsTradable guards a) _ c (validate_analysis-Ensures a guards) k in
          let e' = Evolves-trans start db (between db) v e (fair db) in
          rw (k, persist)
            (after_create-IsCreated guards a start s (create_signal (new_signal c) now (between db))
              (insert-IsCreated guards a c now start (between db) s tradable e')
              (rw (k, persist) at h))
    ]

validated-IsCreated :
    (guards : GuardrailConfig) (a : SignalAnalysis) (between : Db → Db) (now : Timestamp)
    (start : Db) (p : Bool × Db) (s : Signal)
    → IsFair between
    → IsTable start
    → Evolves start p.1
    → (validated a guards between now p).0 ≡ created_result s
    → IsCreated guards a start s (validated a guards between now p).1
unfolding validated
validated-IsCreated guards a between now start (false, db) s fair v e h = absurd (cc)
validated-IsCreated guards a between now start (true, db) s fair v e h =
    persist-IsCreated guards a between now start db s fair v e h

by_decision-IsCreated :
    (d : Result Direction) (guards : GuardrailConfig) (a : SignalAnalysis) (between : Between)
    (now : Timestamp) (db : Db) (s : Signal)
    → AreFair between
    → IsTable db
    → (by_decision d a guards between now db).0 ≡ created_result s
    → IsCreated guards a db s (by_decision d a guards between now db).1
unfolding by_decision after_lock
by_decision-IsCreated (err _) guards a between now db s fair v h = absurd (cc)
by_decision-IsCreated (ok Models.wait) guards a between now db s fair v h = absurd (cc)
by_decision-IsCreated (ok _) guards a between now db s (first, second) v h =
    let active = active_signal_for a.symbol db in
    let hours = guards.pending_expiry_hours in
    validated-IsCreated guards a between.before_create now db
      (pass_lock active hours between.before_cancel now db) s second v
      (pass_lock-Evolves active hours between.before_cancel now first db v) h

-- Where the engine answers CREATED, the validator accepted the analysis under the live guardrails, and
-- the returned signal is a new PENDING_ENTRY row with the decision and the levels of the candidate,
-- inserted into tables that held no active signal of its symbol, and that evolved from those at the
-- call, whatever other processes did that keeps the tables valid.
pub process-IsCreated :
    (settings : Settings) (given : Option GuardrailConfig) (between : Between) (now : Timestamp)
    (a : SignalAnalysis) (db : Db) (s : Signal)
    → AreFair between
    → IsTable db
    → (process settings given between now (some a) db).0 ≡ created_result s
    → IsCreated
        (live_guardrails settings given)
        a
        db
        s
        (process settings given between now (some a) db).1
unfolding process
process-IsCreated settings given between now a db s =
    by_decision-IsCreated (validate_decision a.decision) (live_guardrails settings given) a between
      now db s
