-- ===== src/SignalRepository/Runs.antt =====
-- Sequences of the calls of `SignalRepository` that write.
use tool_trade.Common.{ℕ, Bool, Option, List, [], ◌∷◌, arith}
use tool_trade.Models.{Status, CloseReason, Timestamp}
use tool_trade.Store.{Db, empty_db}
use tool_trade.SignalRepository.{create_signal, transition_signal, cancel_signal}
use tool_trade.SignalRepository.Types.{NewSignal, Transition}
use tool_trade.SignalRepository.Calls.{IsTable}
use tool_trade.SignalRepository.Delete.{delete_signals, delete_all_signals}
use tool_trade.SignalRepository.History.{Evolves, IsLater-refl, IsLater-trans}
use tool_trade.SignalRepository.Evolution.{
  create_signal-Evolves, cancel_signal-Evolves, transition_signal-Evolves, delete_signals-Evolves,
  delete_all_signals-Evolves,
}

pub data Call : Type 0 where
  create : NewSignal → Call
  transition : ℕ → Option Status → Transition → Call
  cancel : ℕ → Option CloseReason → Call
  delete : List ℕ → Bool → Call
  delete_all : Bool → Call

-- The tables after the call at that time, whether it returns or raises.
abbrev pub run : Call → Timestamp → Db → Db
run (create n) now db = (create_signal n now db).1
run (transition i status t) now db = (transition_signal i status t now db).1
run (cancel i reason) now db = (cancel_signal i reason now db).1
run (delete ids cascade) now db = (delete_signals ids cascade db).1
run (delete_all cascade) now db = (delete_all_signals cascade db).1

abbrev pub run_all : List (Call × Timestamp) → Db → Db
run_all [] db = db
run_all ((call, now) ∷ rest) db = run_all rest (run call now db)

run-Evolves : (c : Call) (now : Timestamp) (db : Db) → IsTable db → Evolves db (run c now db)
run-Evolves (create n) now db v = create_signal-Evolves n now db v
run-Evolves (transition i status t) now db v = transition_signal-Evolves i status t now db v
run-Evolves (cancel i reason) now db v = cancel_signal-Evolves i reason now db v
run-Evolves (delete ids cascade) now db v = delete_signals-Evolves ids cascade db v
run-Evolves (delete_all cascade) now db v = delete_all_signals-Evolves cascade db v

-- Whatever calls are made on valid tables, returning or raising, one signal of a symbol at most is
-- pending or open in the end, rows are well formed, ids are unique and not used again, and a signal
-- that is still there trades the same at the same levels, is unchanged if it was closed, and does not
-- wait for its entry again.
pub run_all-Evolves :
    (calls : List (Call × Timestamp)) (db : Db) → IsTable db → Evolves db (run_all calls db)
run_all-Evolves [] db v = (v, IsLater-refl db)
run_all-Evolves ((c, now) ∷ rest) db v =
    let (v', later) = run-Evolves c now db v in
    let (v'', later') = run_all-Evolves rest (run c now db) v' in
    (v'', IsLater-trans db (run c now db) _ v later later')

-- The tables of a new database.
pub empty_db-IsTable : IsTable empty_db
empty_db-IsTable = record { slot = λ _. omega arith; ids = λ _. omega arith; fresh = tt; rows = tt }
