-- ===== src/SignalRepository/Rewritten.antt =====
-- What `transition_signal` of database/database.py writes where it returns.
use tool_trade.Common.{
  ℕ, ◌≡◌, ap, inl, inr, true, false, ◌&&◌, Option, some, find, arith, Bool-cases, Option-cases,
  find-update_where, find-passes,
}
use tool_trade.Decimal.{Decimal}
use tool_trade.Models.{Status, Timestamp, Signal, allowed_transition, to_decimal}
use tool_trade.Result.{Result, ok, err, on_given, Result-cases}
use tool_trade.Store.{Db}
use tool_trade.SignalRepository.{
  transition_signal, has_signal_id, new_row, needs_price, is_none, check_result,
}
use tool_trade.SignalRepository.Types.{Transition}
use tool_trade.SignalRepository.Invariant.{new_row-id}
use tool_trade.SignalRepository.Calls.{
  with_row, transition_signal_missing, transition_signal_forbidden, transition_signal_unpriced,
  transition_signal_allowed,
}

-- The row that the transition was made from, and the row that it wrote and returned.
pub record Rewritten (i : ℕ) (new : Status) (t : Transition) (now : Timestamp) (db : Db)
    (row : Signal) (db' : Db) : Type 0 where
  pub current : Signal
  pub price : Option Decimal
  pub priced : on_given to_decimal t.close_price ≡ ok price
  pub known : check_result t.result ≡ ok tt
  pub was : find (has_signal_id i) db.signals ≡ some current
  pub allowed : allowed_transition current.status new ≡ true
  pub given : (needs_price new && is_none price) ≡ false
  pub is_row : row ≡ new_row new price t now current
  pub is_db : db' ≡ with_row db i (new_row new price t now)

module _ (i : ℕ) (new : Status) (t : Transition) (now : Timestamp) (db : Db) (row : Signal) where
  refused :
      {A : Type 0} (r : Result Signal × Db) {e : tool_trade.Result.Error} (db' : Db)
      → r ≡ (err e, db')
      → r.0 ≡ ok row
      → A
  refused r db' h k = absurd (ground arith)

  known-Rewritten :
      (price : Option Decimal)
      → on_given to_decimal t.close_price ≡ ok price
      → check_result t.result ≡ ok tt
      → (transition_signal i (some new) t now db).0 ≡ ok row
      → Rewritten i new t now db row (transition_signal i (some new) t now db).1
  known-Rewritten price priced known h =
      let call = transition_signal i (some new) t now db in
      elim (Option-cases (find (has_signal_id i) db.signals)) [
        | inl n ↦ refused call db (transition_signal_missing i new t now db priced known n) h
        | inr (s, n) ↦ elim (Bool-cases (allowed_transition s.status new)) [
          | inr f ↦ refused call db (transition_signal_forbidden i new t now db priced known n f) h
          | inl a ↦ elim (Bool-cases (needs_price new && is_none price)) [
            | inl u ↦
                refused call db (transition_signal_unpriced i new t now db priced known n a u) h
            | inr u ↦
                let done = transition_signal_allowed i new t now db priced known n a u in
                record {
                  current = s;
                  price = price;
                  priced = priced;
                  known = known;
                  was = n;
                  allowed = a;
                  given = u;
                  is_row = ground (arith, done);
                  is_db = ap (λ r. r.1) done;
                }
          ]
        ]
      ]

  pub transition_signal-Rewritten :
      (transition_signal i (some new) t now db).0 ≡ ok row
      → Rewritten i new t now db row (transition_signal i (some new) t now db).1
  unfolding transition_signal
  transition_signal-Rewritten h = elim (Result-cases (on_given to_decimal t.close_price)) [
    | inr (e, k) ↦ absurd (ground arith)
    | inl (price, priced) ↦ elim (Result-cases (check_result t.result)) [
      | inr (e, k) ↦ absurd (ground arith)
      | inl (u, known) ↦ known-Rewritten price priced (ground arith) h
    ]
  ]

-- The row that was written is found under its id.
pub Rewritten-found :
    {i : ℕ} {new : Status} {t : Transition} {now : Timestamp} {db db' : Db} {row : Signal}
    → Rewritten i new t now db row db'
    → find (has_signal_id i) db'.signals ≡ some row
Rewritten-found {i} {new} {t} {now} {db} m =
    let passes : has_signal_id i m.current ≡ true =
      find-passes (has_signal_id i) db.signals m.current m.was in
    let kept : has_signal_id i (new_row new m.price t now m.current) ≡ true =
      rw (new_row-id new m.price t now m.current) passes in
    rw (m.is_db, m.is_row)
      (find-update_where (has_signal_id i) (new_row new m.price t now) db.signals m.current kept
        m.was)
