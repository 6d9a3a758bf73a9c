-- ===== src/Store.antt =====
-- The SQLite tables of database/database.py as lists of rows in the order of their ids, and its
-- transactions. A table's next id never falls (AUTOINCREMENT), so no id is used twice.
pub mod Rules
use tool_trade.Common.{ℕ, ◌≡◌, refl, Option, none, some, List, []}
use tool_trade.Decimal.{Decimal}
use tool_trade.Result.{Result, ok, err, Error}
use tool_trade.Models.{Direction, Outcome, Timestamp, Signal}
use tool_trade.Text.{Text}

-- A row of `demo_accounts`; the two optional columns are NULL in rows older than they are.
pub record Account : Type 0 where
  pub id : ℕ
  pub name : Text
  pub initial_balance : Decimal
  pub balance : Decimal
  pub equity : Option Decimal
  pub margin_per_trade : Decimal
  pub leverage : ℕ
  pub risk_percent : Decimal
  pub fee_rate : Decimal
  pub created_at : Timestamp
  pub updated_at : Option Timestamp
  pub peak_equity : Option Decimal

pub data PositionStatus : Type 0 where
  open_ closed : PositionStatus

-- A row of `demo_positions`.
pub record Position : Type 0 where
  pub id : ℕ
  pub account_id : ℕ
  pub signal_id : ℕ
  pub symbol : Text
  pub side : Direction
  pub entry_price : Decimal
  pub quantity : Decimal
  pub position_size : Decimal
  pub margin : Decimal
  pub leverage : ℕ
  pub stop_loss : Decimal
  pub take_profit : Decimal
  pub unrealized_pnl : Option Decimal
  pub status : PositionStatus
  pub opened_at : Timestamp
  pub closed_at : Option Timestamp

-- A row of `demo_trades`.
pub record Trade : Type 0 where
  pub id : ℕ
  pub account_id : ℕ
  pub position_id : ℕ
  pub signal_id : ℕ
  pub side : Direction
  pub entry_price : Decimal
  pub exit_price : Decimal
  pub quantity : Decimal
  pub margin : Decimal
  pub position_size : Decimal
  pub leverage : ℕ
  pub gross_pnl : Decimal
  pub fee : Decimal
  pub net_pnl : Decimal
  pub pnl_percent : Decimal
  pub result : Outcome
  pub opened_at : Timestamp
  pub closed_at : Timestamp

-- The counts in the summary of a `config_audit` row on deleted signals.
pub record Audit : Type 0 where
  pub deleted : ℕ
  pub skipped_open : ℕ
  pub missing : ℕ
  pub linked : ℕ

-- The key of a `candle_log` row and the signal that it refers to; the other columns are for display.
pub record LogRow : Type 0 where
  pub symbol : Text
  pub timeframe : Text
  pub candle_timestamp : Timestamp
  pub signal_id : Option ℕ

pub record Db : Type 0 where
  pub signals : List Signal
  pub next_signal : ℕ
  pub accounts : List Account
  pub next_account : ℕ
  pub positions : List Position
  pub next_position : ℕ
  pub trades : List Trade
  pub next_trade : ℕ
  pub audits : List Audit
  pub candle_log : List LogRow

-- The tables that `Database.initialize` creates in a new file.
abbrev pub empty_db : Db
empty_db = record {
  signals = [];
  next_signal = 1;
  accounts = [];
  next_account = 1;
  positions = [];
  next_position = 1;
  trades = [];
  next_trade = 1;
  audits = [];
  candle_log = [];
}

abbrev pub Action {ℓ} : Type ℓ → Type ℓ
Action A = Db → Result A × Db

abbrev pub and_then {ℓ κ} :
    {A : Type ℓ} {B : Type κ} → Result A × Db → (A → Action B) → Result B × Db
and_then (ok a, db) f = f a db
and_then (err e, db) f = (err e, db)

infixl 5 ◌>>=◌ ◌>>◌
abbrev pub ◌>>=◌ {ℓ κ} : {A : Type ℓ} {B : Type κ} → Action A → (A → Action B) → Action B
◌>>=◌ m f db = and_then (m db) f

abbrev pub ◌>>◌ {ℓ} : {B : Type ℓ} → Action (Unit {0}) → Action B → Action B
m >> k = m >>= λ _. k

module _ {ℓ} {A : Type ℓ} where
  abbrev pub pure : A → Action A
  pure a db = (ok a, db)

  abbrev pub raise : Error → Action A
  raise e db = (err e, db)

  -- What reads no table.
  abbrev pub lift : Result A → Action A
  lift r db = (r, db)

  -- What reads the tables and writes none.
  abbrev pub gets : (Db → A) → Action A
  gets f db = (ok (f db), db)

  -- COMMIT, or ROLLBACK to the tables at the BEGIN.
  abbrev pub after_commit : Db → Result A × Db → Result A × Db
  after_commit db (ok a, db') = (ok a, db')
  after_commit db (err e, _) = (err e, db)

  -- `Database.transaction`: BEGIN IMMEDIATE, then COMMIT, or ROLLBACK and the exception.
  abbrev pub transaction : Action A → Action A
  transaction m db = after_commit db (m db)

abbrev pub modify : (Db → Db) → Action (Unit {0})
modify f db = (ok tt, f db)
