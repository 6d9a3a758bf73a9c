-- ===== src/SignalRepository/Evolution.antt =====
-- Any sequence of writing calls. Each transaction runs alone, so the calls of several processes are
-- such a sequence too.
use tool_trade.Common.{
  ℕ, ◌≡◌, refl, sym, ap, ◌∙◌, subst, inl, inr, Bool, true, ◌&&◌, Option, none, some, List, [], ◌∷◌,
  any, find, map, reject, arith, Bool-cases, Option-cases,
}
use mathlib.Core.Bool.{false≢true}
use tool_trade.Decimal.{Decimal}
use tool_trade.Models.{
  open_, status_eq, Status, Timestamp, Signal, allowed_transition, pending_entry, cancelled,
  CloseReason, to_decimal,
}
use tool_trade.Result.{Result, ok, err, Result-cases, Ensures-eq_ok, on_given}
use tool_trade.Store.{Db, Audit, transaction, and_then, pure}
use tool_trade.SignalRepository.{
  create_signal, transition_signal, cancel_signal, no_details, has_signal_id, active_for, new_row,
  needs_price, is_none, check_result,
}
use tool_trade.SignalRepository.Types.{NewSignal, Transition, check_signal}
use tool_trade.SignalRepository.Invariant.{
  append-IsValid, update-IsValid, reject-IsValid, new_row-id,
}
use tool_trade.SignalRepository.Create.{IsPrepared, check_signal-Ensures}
use tool_trade.SignalRepository.Calls.{
  IsTable, with_new, create_signal_checked, create_signal_refused, transition_signal_missing,
  transition_signal_forbidden, transition_signal_unpriced, transition_signal_allowed,
}
use tool_trade.SignalRepository.Delete.{delete_signals, delete_all_signals}
use tool_trade.SignalRepository.Ids.{has_id, unique_ids, sort_ids}
use tool_trade.SignalRepository.History.{
  IsSame, IsLater-refl, insert-IsLater, update-IsLater, delete-IsLater, Evolves, Evolves-same,
}
use tool_trade.SignalRepository.Invariant.{allowed-is_active, not-allowed-pending}
use tool_trade.SignalRepository.Delete.{
  Deletion, delete_body, delete_body_lem, deletion, log_refers, without_rows, is_empty_list,
}

pub create_signal-Evolves :
    (n : NewSignal) (now : Timestamp) (db : Db) → IsTable db → Evolves db (create_signal n now db).1
create_signal-Evolves n now db v = elim (Result-cases (check_signal n now)) [
  | inr (e, h) ↦ Evolves-same db _ v (ap (λ r. r.1) (create_signal_refused n now e db h))
  | inl (row, h) ↦
      let (_, ids, symbols, pending, rows) =
        Ensures-eq_ok (IsPrepared n now) _ row (check_signal-Ensures n now) h in
      let call = create_signal_checked n now row db v h in
      let new = row db.next_signal in
      elim (Bool-cases (any (active_for (row 0).symbol) db.signals)) [
        | inl taken ↦ Evolves-same db _ v (ground (arith, call))
        | inr free ↦
            let done : (create_signal n now db).1 ≡ with_new db new = ground (arith, call) in
            rw done (
              append-IsValid db.signals db.next_signal new v (pending db.next_signal)
                  (rw (symbols db.next_signal) free) (ids db.next_signal) (rows db.next_signal),
              insert-IsLater db new v (ids db.next_signal),
            )
      ]
]

new_row-IsSame :
    (new : Status) (price : Option Decimal) (t : Transition) (now : Timestamp) (s : Signal)
    → allowed_transition s.status new ≡ true
    → IsSame s (new_row new price t now s)
new_row-IsSame pending_entry price t now s a =
    absurd (false≢true (sym (not-allowed-pending s.status) ∙ a))
new_row-IsSame new price t now s a = let active = allowed-is_active s.status new a in ground arith

transition_known-Evolves :
    (i : ℕ) (new : Status) (t : Transition) (now : Timestamp) (db : Db) (price : Option Decimal)
    → on_given to_decimal t.close_price ≡ ok price
    → check_result t.result ≡ ok tt
    → IsTable db
    → Evolves db (transition_signal i (some new) t now db).1
transition_known-Evolves i new t now db price priced known v =
    elim (Option-cases (find (has_signal_id i) db.signals)) [
      | inl h ↦
          Evolves-same db _ v
            (ap (λ r. r.1) (transition_signal_missing i new t now db priced known h))
      | inr (s, h) ↦ elim (Bool-cases (allowed_transition s.status new)) [
        | inr f ↦
            Evolves-same db _ v
              (ap (λ r. r.1) (transition_signal_forbidden i new t now db priced known h f))
        | inl a ↦ elim (Bool-cases (needs_price new && is_none price)) [
          | inl u ↦
              Evolves-same db _ v
                (ap (λ r. r.1) (transition_signal_unpriced i new t now db priced known h a u))
          | inr u ↦
              rw (ap (λ r. r.1) (transition_signal_allowed i new t now db priced known h a u)) (
                update-IsValid db.signals db.next_signal v i s h new price t now a u,
                update-IsLater db i (new_row new price t now) s (new_row-id new price t now) h
                    (new_row-IsSame new price t now s a),
              )
        ]
      ]
    ]

pub transition_signal-Evolves :
    (i : ℕ) (new : Option Status) (t : Transition) (now : Timestamp) (db : Db)
    → IsTable db
    → Evolves db (transition_signal i new t now db).1
unfolding transition_signal
transition_signal-Evolves i none t now db v = Evolves-same db _ v refl
transition_signal-Evolves i (some new) t now db v =
    elim (Result-cases (on_given to_decimal t.close_price)) [
      | inr (e, h) ↦ Evolves-same db _ v (ground arith)
      | inl (price, priced) ↦ elim (Result-cases (check_result t.result)) [
        | inr (e, h) ↦ Evolves-same db _ v (ground arith)
        | inl (u, known) ↦ transition_known-Evolves i new t now db price priced (ground arith) v
      ]
    ]

pub cancel_signal-Evolves :
    (i : ℕ) (reason : Option CloseReason) (now : Timestamp) (db : Db)
    → IsTable db
    → Evolves db (cancel_signal i reason now db).1
unfolding cancel_signal
cancel_signal-Evolves i reason now db v =
    transition_signal-Evolves i (some cancelled) (record no_details { close_reason = reason }) now
      db v

deleted-Evolves :
    (db db' : Db) (ids : List ℕ)
    → db'.signals ≡ reject (λ s. has_id ids s.id) db.signals
    → db'.next_signal ≡ db.next_signal
    → IsTable db
    → Evolves db db'
deleted-Evolves db db' ids e n v = (
  rw (e, n) (reject-IsValid db.signals db.next_signal (λ s. has_id ids s.id) v),
  delete-IsLater db db' ids e n,
)

deletion-Evolves :
    (ids : List ℕ) (report : Deletion) (audit : Audit) (db : Db)
    → IsTable db
    → Evolves db (deletion ids report audit db).1
deletion-Evolves ids report audit db v = elim (Bool-cases (is_empty_list ids)) [
  | inl e ↦ rw e (v, IsLater-refl db)
  | inr e ↦ elim (Bool-cases (any (log_refers ids) db.candle_log)) [
    | inl k ↦ rw (e, k) (v, IsLater-refl db)
    | inr k ↦ rw (e, k) (deleted-Evolves db (without_rows ids audit db) ids refl refl v)
  ]
]

delete_body-Evolves :
    (unique : List ℕ) (cascade : Bool) (db : Db)
    → IsTable db
    → Evolves db (transaction (delete_body unique cascade) db).1
delete_body-Evolves unique cascade db v =
    let (report, audit, e) = delete_body_lem unique cascade db in
    subst (λ r. Evolves db r.1) (sym e) (deletion-Evolves _ report audit db v)

pub delete_signals-Evolves :
    (ids : List ℕ) (cascade : Bool) (db : Db)
    → IsTable db
    → Evolves db (delete_signals ids cascade db).1
unfolding delete_signals
delete_signals-Evolves [] cascade db v = Evolves-same db db v refl
delete_signals-Evolves (i ∷ is) cascade db v =
    delete_body-Evolves (unique_ids (i ∷ is)) cascade db v

-- What a call returns does not bear on the tables that it leaves.
db-and_then-pure :
    {A B : Type 0} (p : Result A × Db) (f : A → B) → (and_then p (λ a. pure (f a))).1 ≡ p.1
db-and_then-pure (ok a, db) f = refl
db-and_then-pure (err e, db) f = refl

pub delete_all_signals-Evolves :
    (cascade : Bool) (db : Db) → IsTable db → Evolves db (delete_all_signals cascade db).1
unfolding delete_all_signals
delete_all_signals-Evolves cascade db v =
    let doomed = sort_ids (map (λ s. s.id) (reject (λ s. status_eq s.status open_) db.signals)) in
    elim (Bool-cases (is_empty_list doomed)) [
      | inl e ↦ rw e (v, IsLater-refl db)
      | inr e ↦ rw e (
          subst (Evolves db) (sym (db-and_then-pure (delete_signals doomed cascade db) _))
            (delete_signals-Evolves doomed cascade db v))
    ]
