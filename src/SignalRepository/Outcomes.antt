-- ===== src/SignalRepository/Outcomes.antt =====
-- The moves of `transition_signal` of database/database.py, field by field.
use tool_trade.Common.{
  ℕ, ◌≡◌, ◌≢◌, ◌⊎◌, refl, Bool, inl, inr, true, false, Option, none, some, List, [], ◌∷◌, map, ◌==◌,
  ◌&&◌, find, update_where, arith, find-update_key,
}
use tool_trade.Decimal
use tool_trade.Decimal.{Decimal}
use tool_trade.Models.{
  Status, pending_entry, open_, tp_hit, sl_hit, cancelled, allowed_transition, Value, number,
  Outcome, win, loss, other, of_status, Timestamp, Signal, to_decimal,
}
use tool_trade.Models.Prices.{to_decimal-pos}
use tool_trade.Result.{ok, on_given, Result-cases}
use tool_trade.Store.{Db}
use tool_trade.SignalRepository.{
  transition_signal, has_signal_id, new_row, needs_price, is_none, check_result,
}
use tool_trade.SignalRepository.Types.{Transition, given_or}
use tool_trade.SignalRepository.Invariant.{new_row-id}
use tool_trade.SignalRepository.Rewritten.{Rewritten, transition_signal-Rewritten, Rewritten-found}

-- The moves of a signal's life.
pub data IsMove : Status → Status → Type 0 where
  opens : IsMove pending_entry open_
  lapses : IsMove pending_entry cancelled
  takes_profit : IsMove open_ tp_hit
  stops : IsMove open_ sl_hit
  quits : IsMove open_ cancelled

-- The value that was given, and else the default.
abbrev pub IsGivenOr {ℓ} : {A : Type ℓ} → Option A → A → Option A → Type ℓ
IsGivenOr none default x = x ≡ some default
IsGivenOr (some a) default x = x ≡ some a

-- No price, or a positive number as it was given.
abbrev pub IsPriceOf : Option Value → Option Decimal → Type 0
IsPriceOf none p = p ≡ none
IsPriceOf (some v) p =
    (d : Decimal) × (v ≡ number d) × (Decimal.lt (Decimal.of_ℕ 0) d ≡ true) × (p ≡ some d)

-- What a move leaves alone.
abbrev pub HasTermsOf : Signal → Signal → Type 0
HasTermsOf s row =
    (row.id ≡ s.id)
    × (row.symbol ≡ s.symbol)
    × (row.timeframe ≡ s.timeframe)
    × (row.direction ≡ s.direction)
    × (row.entry ≡ s.entry)
    × (row.stop_loss ≡ s.stop_loss)
    × (row.take_profit ≡ s.take_profit)
    × (row.created_at ≡ s.created_at)
    × (row.meta ≡ s.meta)

abbrev pub IsOpened : Transition → Timestamp → Signal → Type 0
IsOpened t now row =
    IsGivenOr t.opened_at now row.opened_at
    × (row.closed_at ≡ none)
    × (row.close_price ≡ none)
    × (row.close_reason ≡ none)
    × (row.result ≡ none)

abbrev pub IsClosed : Status → Transition → Timestamp → Signal → Signal → Type 0
IsClosed new t now s row =
    (row.opened_at ≡ s.opened_at)
    × IsGivenOr t.closed_at now row.closed_at
    × IsPriceOf t.close_price row.close_price
    × IsGivenOr t.close_reason (of_status new) row.close_reason
    × (row.result ≡ t.result)

-- The row that the transition was made from, and the row that it wrote and returned.
pub record Moved (i : ℕ) (new : Status) (t : Transition) (now : Timestamp) (db : Db) (row : Signal)
    (db' : Db) : Type 0 where
  pub current : Signal
  pub was : find (has_signal_id i) db.signals ≡ some current
  pub allowed : IsMove current.status new
  pub status : row.status ≡ new
  pub terms : HasTermsOf current row
  pub when_opened : new ≡ open_ → IsOpened t now row
  pub when_closed : new ≢ open_ → IsClosed new t now current row
  pub priced : (new ≡ tp_hit) ⊎ (new ≡ sl_hit) → row.close_price ≢ none
  pub judged : t.result ≢ some other
  pub stored : find (has_signal_id i) db'.signals ≡ some row
  pub others :
      (j : ℕ)
      → (j == i) ≡ false
      → find (has_signal_id j) db'.signals ≡ find (has_signal_id j) db.signals
  pub order : map (λ s. s.id) db'.signals ≡ map (λ s. s.id) db.signals
  pub rest : db' ≡ record db { signals = db'.signals }

allowed-IsMove : (s new : Status) → allowed_transition s new ≡ true → IsMove s new
allowed-IsMove pending_entry open_ h = opens
allowed-IsMove pending_entry cancelled h = lapses
allowed-IsMove open_ tp_hit h = takes_profit
allowed-IsMove open_ sl_hit h = stops
allowed-IsMove open_ cancelled h = quits
allowed-IsMove _ _ h = absurd (cc)

module _ (price : Option Decimal) (t : Transition) (now : Timestamp) (s : Signal) where
  new_row-HasTermsOf : (new : Status) → HasTermsOf s (new_row new price t now s)
  new_row-HasTermsOf open_ = (refl, refl, refl, refl, refl, refl, refl, refl, refl)
  new_row-HasTermsOf _ = (refl, refl, refl, refl, refl, refl, refl, refl, refl)

  new_row-status : (new : Status) → (new_row new price t now s).status ≡ new
  new_row-status open_ = refl
  new_row-status _ = refl

  given : (o : Option Timestamp) (a : Timestamp) → IsGivenOr o a (some (given_or o a))
  given none a = refl
  given (some b) a = refl

  reason :
      {A : Type 0} (o : Option A) (a : A) → IsGivenOr o a (some (elim o [ none ↦ a | some b ↦ b ]))
  reason none a = refl
  reason (some b) a = refl

  price_of : (o : Option Value) → on_given to_decimal o ≡ ok price → IsPriceOf o price
  price_of none h = ground arith
  price_of (some v) h = elim (Result-cases (to_decimal v)) [
    | inl (d, e) ↦
        let (same, above) = to_decimal-pos v d e in
        let priced : price ≡ some d = ground arith in (d, same, above, priced)
    | inr (x, e) ↦ absurd (ground arith)
  ]

  new_row-IsOpened : IsOpened t now (new_row open_ price t now s)
  new_row-IsOpened = (given t.opened_at now, refl, refl, refl, refl)

  new_row-IsClosed :
      (new : Status)
      → new ≢ open_
      → on_given to_decimal t.close_price ≡ ok price
      → IsClosed new t now s (new_row new price t now s)
  new_row-IsClosed open_ apart priced = absurd (apart refl)
  new_row-IsClosed new apart priced = (
    refl,
    given t.closed_at now,
    price_of t.close_price priced,
    reason t.close_reason (of_status new),
    refl,
  )

  new_row-priced :
      (new : Status)
      → (needs_price new && is_none price) ≡ false
      → (new ≡ tp_hit) ⊎ (new ≡ sl_hit)
      → (new_row new price t now s).close_price ≢ none
  new_row-priced tp_hit h e k = absurd (let empty : is_none price ≡ true = rw k refl in cc)
  new_row-priced sl_hit h e k = absurd (let empty : is_none price ≡ true = rw k refl in cc)
  new_row-priced pending_entry h (inl e) k = cc
  new_row-priced pending_entry h (inr e) k = cc
  new_row-priced open_ h (inl e) k = cc
  new_row-priced open_ h (inr e) k = cc
  new_row-priced cancelled h (inl e) k = cc
  new_row-priced cancelled h (inr e) k = cc

check_result-judged : (r : Option Outcome) → check_result r ≡ ok tt → r ≢ some other
check_result-judged none h e = cc
check_result-judged (some win) h e = cc
check_result-judged (some loss) h e = cc
check_result-judged (some other) h e = cc

ids_kept :
    (f : Signal → Signal) (p : Signal → Bool) (xs : List Signal)
    → ((x : Signal) → (f x).id ≡ x.id)
    → map (λ s. s.id) (update_where p f xs) ≡ map (λ s. s.id) xs
ids_kept f p [] k = refl
ids_kept f p (x ∷ xs) k = ground (arith, k x, ids_kept f p xs k)

module _ (i : ℕ) (new : Status) (t : Transition) (now : Timestamp) (db : Db) (row : Signal) where
  Rewritten-Moved : (db' : Db) → Rewritten i new t now db row db' → Moved i new t now db row db'
  Rewritten-Moved db' m =
      let f = new_row new m.price t now in
      let keeps : (x : Signal) → (f x).id ≡ x.id = λ x. new_row-id new m.price t now x in
      let at : (j : ℕ) → _ = find-update_key (λ (x : Signal). x.id) f keeps db.signals i in
      record {
        current = m.current;
        was = m.was;
        allowed = allowed-IsMove m.current.status new m.allowed;
        status = rw m.is_row (new_row-status m.price t now m.current new);
        terms = rw m.is_row (new_row-HasTermsOf m.price t now m.current new);
        when_opened = λ e. rw (m.is_row, e) (new_row-IsOpened m.price t now m.current);
        when_closed = λ e. rw m.is_row (new_row-IsClosed m.price t now m.current new e m.priced);
        priced = λ e k. new_row-priced m.price t now m.current new m.given e (rw m.is_row at k);
        judged = λ e. check_result-judged t.result m.known e;
        stored = Rewritten-found m;
        others = λ j apart. rw m.is_db (ground (arith, at j));
        order = rw m.is_db (ids_kept f (has_signal_id i) db.signals keeps);
        rest = rw m.is_db refl;
      }

  -- Where `transition_signal` returns, the row of that id was there, and the move from its status is one of
  -- the five of a signal's life. The returned row, which is stored in its place, has the new status and the
  -- terms of the old row. Opened, it has the given opening time or now, and no close field. Else it has the
  -- given closing time or now, the given price, a positive number, if any, the given reason or the
  -- status, and the given result, which is none, a win or a loss; an exit has a price. The other rows, the
  -- order of the ids and the other tables are as they were.
  pub transition_signal-Moved :
      (transition_signal i (some new) t now db).0 ≡ ok row
      → Moved i new t now db row (transition_signal i (some new) t now db).1
  transition_signal-Moved h =
      Rewritten-Moved (transition_signal i (some new) t now db).1
        (transition_signal-Rewritten i new t now db row h)
