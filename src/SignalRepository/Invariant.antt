-- ===== src/SignalRepository/Invariant.antt =====
-- The invariant of the `signals` table, and that each write of `SignalRepository` keeps it.
use mathlib.Core.Bool.{false≢true}
use native.Mathlib.Nat.{le_trans}
use tool_trade.Common.{
  ℕ, ◌+◌, ◌≤◌, ◌<◌, ◌≡◌, ◌≢◌, refl, sym, ◌∙◌, subst, inl, inr, Bool, true, false, ◌&&◌, Option,
  none, some, List, [], ◌∷◌, ◌++◌, arith, Bool-cases, count, any, find, update_where, reject, All,
  All-append, All-map, count-append, count_zero, count-update_where-le, count-reject-le,
  find_unique, All-update_where, All-reject,
}
use tool_trade.Decimal
use tool_trade.Decimal.{Decimal}
use tool_trade.Models.{
  Status, pending_entry, open_, tp_hit, sl_hit, cancelled, is_active, allowed_transition, Signal,
}
use tool_trade.Models.Prices.{IsOrdered}
use tool_trade.Text.{Text, text_eq, text_eq→eq}
use tool_trade.SignalRepository.{active_for, has_signal_id, new_row, needs_price, is_none}
use tool_trade.SignalRepository.Types.{Transition}

-- What a row's status says of its other columns: a signal that is pending or open has no close
-- fields, an open one was opened, and one that hit an exit has a close price.
abbrev pub HasFields : Signal → Type 0
HasFields s =
    (is_active s.status ≡ true → (s.close_price ≡ none) × (s.closed_at ≡ none))
    × (s.status ≡ open_ → s.opened_at ≢ none)
    × (needs_price s.status ≡ true → s.close_price ≢ none)
    × (is_active s.status ≡ false → s.closed_at ≢ none)

-- The prices of a row are positive and ordered as its direction wants.
abbrev pub HasLevels : Signal → Type 0
HasLevels s =
    IsOrdered s.direction s.entry s.stop_loss s.take_profit
    × (Decimal.lt (Decimal.of_ℕ 0) s.entry ≡ true)
    × (Decimal.lt (Decimal.of_ℕ 0) s.stop_loss ≡ true)
    × (Decimal.lt (Decimal.of_ℕ 0) s.take_profit ≡ true)

abbrev pub IsRow : Signal → Type 0
IsRow s = HasLevels s × HasFields s

-- At most one signal of a symbol is pending or open; ids are unique and below the next one; rows are
-- well formed.
pub record IsValid (signals : List Signal) (next : ℕ) : Type 0 where
  pub slot : (symbol : Text) → count (active_for symbol) signals ≤ 1
  pub ids : (i : ℕ) → count (has_signal_id i) signals ≤ 1
  pub fresh : All (λ s. s.id < next) signals
  pub rows : All IsRow signals

pub fresh-count :
    (xs : List Signal) (next : ℕ) → All (λ s. s.id < next) xs → count (has_signal_id next) xs ≡ 0
fresh-count [] next h = refl
fresh-count (x ∷ xs) next h = ground (arith, fresh-count xs next)

module _ (xs : List Signal) (next : ℕ) (new : Signal) (v : IsValid xs next) where
  append-slot :
      new.status ≡ pending_entry
      → any (active_for new.symbol) xs ≡ false
      → (symbol : Text) → count (active_for symbol) (xs ++ (new ∷ [])) ≤ 1
  append-slot p free symbol = elim (Bool-cases (text_eq new.symbol symbol)) [
    | inl e ↦
        let same : new.symbol ≡ symbol = text_eq→eq new.symbol symbol e in
        let none_left : count (active_for symbol) xs ≡ 0 =
          subst (λ t. count (active_for t) xs ≡ 0) same
            (count_zero (active_for new.symbol) xs free) in
        rw (count-append (active_for symbol) xs (new ∷ [])) (ground arith)
    | inr e ↦ rw (count-append (active_for symbol) xs (new ∷ [])) (ground (arith, v.slot symbol))
  ]

  append-ids : new.id ≡ next → (i : ℕ) → count (has_signal_id i) (xs ++ (new ∷ [])) ≤ 1
  append-ids e i =
      rw (count-append (has_signal_id i) xs (new ∷ []))
        (ground (arith, v.ids i, fresh-count xs next v.fresh))

  -- Inserting a pending row with the next id, where the symbol's slot is free, keeps the invariant.
  pub append-IsValid :
      new.status ≡ pending_entry
      → any (active_for new.symbol) xs ≡ false
      → new.id ≡ next
      → IsRow new
      → IsValid (xs ++ (new ∷ [])) (next + 1)
  append-IsValid p free e row = record {
    slot = append-slot p free;
    ids = append-ids e;
    fresh =
        All-append (λ s. s.id < next + 1) xs (new ∷ [])
          (All-map (λ s. s.id < next) (λ s. s.id < next + 1) xs (λ s h. omega arith) v.fresh)
          (omega arith, tt);
    rows = All-append IsRow xs (new ∷ []) v.rows (row, tt);
  }

pub allowed-is_active :
    (current new : Status) → allowed_transition current new ≡ true → is_active current ≡ true
allowed-is_active pending_entry new h = refl
allowed-is_active open_ new h = refl
allowed-is_active tp_hit new h = cc
allowed-is_active sl_hit new h = cc
allowed-is_active cancelled new h = cc

pub not-allowed-pending : (current : Status) → allowed_transition current pending_entry ≡ false
not-allowed-pending pending_entry = refl
not-allowed-pending _ = refl

given-ne-none : (price : Option Decimal) → is_none price ≡ false → price ≢ none
given-ne-none none h e = cc
given-ne-none (some p) h e = cc

some-ne-none : (t : ℕ) → some t ≢ none
some-ne-none t e = cc

-- The rewritten row of an allowed transition is well formed.
new_row-HasFields :
    (new : Status) (price : Option Decimal) (t : Transition) (now : ℕ) (s : Signal)
    → allowed_transition s.status new ≡ true
    → (needs_price new && is_none price) ≡ false
    → HasFields (new_row new price t now s)
new_row-HasFields pending_entry price t now s a n =
    let none_such = not-allowed-pending s.status in absurd (false≢true (sym none_such ∙ a))
new_row-HasFields open_ price t now s a n =
    (λ _. (refl, refl), λ _. some-ne-none _, λ e. cc, λ e. cc)
new_row-HasFields tp_hit price t now s a n =
    (λ e. cc, λ e. cc, λ _. given-ne-none price n, λ _. some-ne-none _)
new_row-HasFields sl_hit price t now s a n =
    (λ e. cc, λ e. cc, λ _. given-ne-none price n, λ _. some-ne-none _)
new_row-HasFields cancelled price t now s a n = (λ e. cc, λ e. cc, λ e. cc, λ _. some-ne-none _)

new_row-HasLevels :
    (new : Status) (price : Option Decimal) (t : Transition) (now : ℕ) (s : Signal)
    → HasLevels s
    → HasLevels (new_row new price t now s)
new_row-HasLevels open_ price t now s h = h
new_row-HasLevels _ price t now s h = h

pub new_row-id :
    (new : Status) (price : Option Decimal) (t : Transition) (now : ℕ) (s : Signal)
    → (new_row new price t now s).id ≡ s.id
new_row-id open_ price t now s = refl
new_row-id _ price t now s = refl

new_row-active :
    (new : Status) (price : Option Decimal) (t : Transition) (now : ℕ) (s : Signal) (symbol : Text)
    → is_active s.status ≡ true
    → active_for symbol (new_row new price t now s) ≡ true
    → active_for symbol s ≡ true
new_row-active open_ price t now s symbol a h = ground arith
new_row-active _ price t now s symbol a h = ground arith

module _ (xs : List Signal) (next : ℕ) (v : IsValid xs next) (i : ℕ) (current : Signal)
    (found : find (has_signal_id i) xs ≡ some current) (new : Status) (price : Option Decimal)
    (t : Transition) (now : ℕ) (allowed : allowed_transition current.status new ≡ true)
    (priced : (needs_price new && is_none price) ≡ false) where
  -- The row that the UPDATE finds is the one that was read.
  for_updated : (Q : Signal → Type 0) → Q current → All (λ x. has_signal_id i x ≡ true → Q x) xs
  for_updated Q q =
      All-map (λ x. has_signal_id i x ≡ true → x ≡ current) (λ x. has_signal_id i x ≡ true → Q x) xs
        (λ x same e. subst Q (sym (same e)) q)
        (find_unique (has_signal_id i) xs current (v.ids i) found)

  -- An allowed transition of the row that was read keeps the invariant.
  pub update-IsValid : IsValid (update_where (has_signal_id i) (new_row new price t now) xs) next
  update-IsValid = record {
    slot = λ symbol.
        le_trans
          (count-update_where-le (active_for symbol) (has_signal_id i) (new_row new price t now) xs
            (for_updated
              (λ x.
                active_for symbol (new_row new price t now x) ≡ true → active_for symbol x ≡ true)
              (new_row-active new price t now current symbol
                (allowed-is_active current.status new allowed))))
          (v.slot symbol);
    ids = λ j.
        le_trans
          (count-update_where-le (has_signal_id j) (has_signal_id i) (new_row new price t now) xs (
            for_updated
              (λ x. has_signal_id j (new_row new price t now x) ≡ true → has_signal_id j x ≡ true)
              (λ h. rw (new_row-id new price t now current) at h)))
          (v.ids j);
    fresh =
        All-update_where (λ s. s.id < next) (has_signal_id i) (new_row new price t now) xs
          (for_updated (λ x. x.id < next → (new_row new price t now x).id < next)
            (λ h. rw (new_row-id new price t now current) h))
          v.fresh;
    rows =
        All-update_where IsRow (has_signal_id i) (new_row new price t now) xs
          (for_updated (λ x. IsRow x → IsRow (new_row new price t now x))
            (λ h. (
              new_row-HasLevels new price t now current h.0,
              new_row-HasFields new price t now current allowed priced,
            )))
          v.rows;
  }

-- Deleting rows keeps the invariant.
pub reject-IsValid :
    (xs : List Signal) (next : ℕ) (drop : Signal → Bool)
    → IsValid xs next
    → IsValid (reject drop xs) next
reject-IsValid xs next drop v = record {
  slot = λ symbol. le_trans (count-reject-le (active_for symbol) drop xs) (v.slot symbol);
  ids = λ i. le_trans (count-reject-le (has_signal_id i) drop xs) (v.ids i);
  fresh = All-reject (λ s. s.id < next) drop xs v.fresh;
  rows = All-reject IsRow drop xs v.rows;
}
