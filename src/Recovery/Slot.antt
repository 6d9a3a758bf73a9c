-- ===== src/Recovery/Slot.antt =====
-- `recover` of signal_engine/recovery.py, and the slot of a symbol in the tables.
use tool_trade.Common.{
  ◌≤◌, ◌≡◌, ◌⊎◌, refl, ap, ◌∙◌, Bool, true, false, inl, inr, ◌&&◌, ◌||◌, Option, none, some, List,
  [], ◌∷◌, ◌++◌, reverse, arith, Option-cases, if◌then◌else◌, length, select, find, count, take_all,
  length-reverse, select_congr, select-append, select-reverse, select-select, count_of_none,
  All-find, find-passes,
}
use tool_trade.Models.{
  Status, pending_entry, open_, tp_hit, sl_hit, cancelled, status_eq, is_active, Signal, Direction,
  long, short, wait, unknown, is_direction,
}
use tool_trade.Models.Prices.{IsOrdered, validate_signal_prices_iff}
use tool_trade.Result.{ok}
use tool_trade.Decimal.{Decimal}
use tool_trade.Store.{Db}
use tool_trade.Text.{Text, text_eq, text_eq→eq, strip, is_empty}
use tool_trade.SignalRepository.{active_for}
use tool_trade.SignalRepository.Invariant.{IsRow}
use tool_trade.SignalRepository.Calls.{IsTable}
use tool_trade.SignalRepository.Listing.{all_signals, matches, list_signals}
use tool_trade.Recovery.{
  RecoveryResult, recovered, nothing_active, recovery_failed, is_valid, is_given, check_active,
  of_active, for_symbol, joined, recover,
}

abbrev pub has_status : Status → Signal → Bool
has_status st s = status_eq s.status st

matches_status :
    (st : Status) (s : Signal)
    → matches (record all_signals { status = some st }) none none s ≡ has_status st s
matches_status st s = ground arith

-- A listing by status, where it fits on the page.
listed :
    (st : Status) (db : Db)
    → length (select (has_status st) db.signals) ≤ 100
    → (list_signals (record all_signals { status = some st }) db).0
      ≡ ok (reverse (select (has_status st) db.signals))
unfolding list_signals
listed st db few =
    let rows = select (has_status st) db.signals in
    rw
      (select_congr (matches (record all_signals { status = some st }) none none) (has_status st)
        (matches_status st) db.signals)
      (ap ok (take_all 100 (reverse rows) (rw (length-reverse rows) few)))

active_iff : (st : Status) → is_active st ≡ (status_eq st pending_entry || status_eq st open_)
active_iff pending_entry = refl
active_iff open_ = refl
active_iff tp_hit = refl
active_iff sl_hit = refl
active_iff cancelled = refl

not_both : (st : Status) → status_eq st pending_entry ≡ true → status_eq st open_ ≡ false
not_both pending_entry h = refl
not_both _ h = cc

module _ (symbol : Text) where
  -- The rows of the symbol with a status.
  abbrev slot_rows : Status → List Signal → List Signal
  slot_rows st xs = select (λ s. has_status st s && text_eq s.symbol symbol) xs

  slot_free :
      (xs : List Signal)
      → count (active_for symbol) xs ≡ 0
      → (slot_rows pending_entry xs ≡ []) × (slot_rows open_ xs ≡ [])
  slot_free [] h = (refl, refl)
  slot_free (x ∷ xs) h = ground (arith, slot_free xs, active_iff x.status)

  slot_taken :
      (xs : List Signal) (c : Signal)
      → count (active_for symbol) xs ≤ 1
      → find (active_for symbol) xs ≡ some c
      → ((slot_rows pending_entry xs ≡ c ∷ []) × (slot_rows open_ xs ≡ []))
        ⊎ ((slot_rows pending_entry xs ≡ []) × (slot_rows open_ xs ≡ c ∷ []))
  slot_taken [] c few h = cc
  slot_taken (x ∷ xs) c few h =
      ground (arith, slot_taken xs c, slot_free xs, active_iff x.status, not_both x.status)

  for_symbol_lem :
      (xs : List Signal)
      → for_symbol
          (some symbol)
          (reverse (select (has_status pending_entry) xs) ++ reverse (select (has_status open_) xs))
        ≡ reverse (slot_rows pending_entry xs) ++ reverse (slot_rows open_ xs)
  for_symbol_lem xs =
      let q = λ (s : Signal). text_eq s.symbol symbol in
      let a = select (has_status pending_entry) xs in
      let b = select (has_status open_) xs in
      rw
        (
          select-append q (reverse a) (reverse b),
          select-reverse q a,
          select-reverse q b,
          select-select q (has_status pending_entry) xs,
          select-select q (has_status open_) xs,
        )
        refl

  -- The rows that recovery looks at are the signal in the slot.
  active_rows :
      (xs : List Signal)
      → count (active_for symbol) xs ≤ 1
      → reverse (slot_rows pending_entry xs) ++ reverse (slot_rows open_ xs)
        ≡ elim (find (active_for symbol) xs) [ none ↦ [] | some c ↦ c ∷ [] ]
  active_rows xs few = elim (Option-cases (find (active_for symbol) xs)) [
    | inl e ↦
        let (p, o) = slot_free xs (count_of_none (active_for symbol) xs e) in rw (e, p, o) refl
    | inr (c, e) ↦ elim (slot_taken xs c few e) [
      | inl (p, o) ↦ rw (e, p, o) refl
      | inr (p, o) ↦ rw (e, p, o) refl
    ]
  ]

ordered-direction : (d : Direction) (e s t : Decimal) → IsOrdered d e s t → is_direction d ≡ true
ordered-direction long e s t h = refl
ordered-direction short e s t h = refl
ordered-direction wait e s t h = absurd h
ordered-direction unknown e s t h = absurd h

-- A well-formed row of a symbol that is not blank passes `_is_valid`.
row-is_valid : (s : Signal) → IsRow s → is_empty (strip s.symbol) ≡ false → is_valid s ≡ true
unfolding is_valid
row-is_valid s ((ordered, _, _, _), _) named =
    let prices =
      (validate_signal_prices_iff s.direction s.entry s.stop_loss s.take_profit).1 ordered in
    rw (ordered-direction s.direction s.entry s.stop_loss s.take_profit ordered, named, prices) refl

-- The recovered state of a slot: free, taken by a signal, or by a pending one that says it was opened.
abbrev pub slot_result : Option Signal → RecoveryResult
slot_result none = nothing_active
slot_result (some s) =
    if status_eq s.status pending_entry && is_given s.opened_at
    then recovery_failed
    else recovered s

of_slot :
    (symbol : Text) (slot : Option Signal)
    → is_empty (strip symbol) ≡ false
    → ((s : Signal) → slot ≡ some s → IsRow s × (active_for symbol s ≡ true))
    → of_active (elim slot [ none ↦ [] | some s ↦ s ∷ [] ]) ≡ slot_result slot
unfolding of_active check_active
of_slot symbol none named row = refl
of_slot symbol (some s) named row =
    let (r, a) = row s refl in
    let same : s.symbol ≡ symbol = text_eq→eq s.symbol symbol (ground arith) in
    rw (row-is_valid s r (rw same named)) refl

-- On valid tables with at most a hundred pending and a hundred open signals, recovery for a symbol returns
-- the signal that holds the symbol's slot, or that there is none; it fails only for a pending signal
-- that carries an opening time.
pub recover_slot :
    (symbol : Text) (db : Db)
    → IsTable db
    → is_empty (strip symbol) ≡ false
    → length (select (has_status pending_entry) db.signals) ≤ 100
    → length (select (has_status open_) db.signals) ≤ 100
    → recover (some symbol) db ≡ slot_result (find (active_for symbol) db.signals)
unfolding recover joined
recover_slot symbol db v named few_pending few_open =
    let slot = find (active_for symbol) db.signals in
    let row : (s : Signal) → slot ≡ some s → IsRow s × (active_for symbol s ≡ true) = λ s e. (
      All-find IsRow (active_for symbol) db.signals s v.rows e,
      find-passes (active_for symbol) db.signals s e,
    ) in
    rw (listed pending_entry db few_pending, listed open_ db few_open)
      (ap of_active
          (for_symbol_lem symbol db.signals ∙ active_rows symbol db.signals (v.slot symbol))
        ∙ of_slot symbol slot named row)
