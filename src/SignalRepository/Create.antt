-- ===== src/SignalRepository/Create.antt =====
-- `create_signal`: what it checks, and when it inserts.
use tool_trade.Common.{ℕ, ◌≡◌, refl, true, not}
use tool_trade.Decimal
use tool_trade.Models.{
  Direction, Value, number, Timestamp, is_direction, Signal, pending_entry, to_decimal,
  validate_signal_prices,
}
use tool_trade.Models.Prices.{IsOrdered, validate_signal_prices_iff, to_decimal-pos}
use tool_trade.Result.{ok, Ensures, Ensures-bind, Ensures-eq_ok, signal_validation, raise_if}
use tool_trade.SignalRepository.Types.{
  NewSignal, Levels, check_levels, check_metadata, check_signal,
}
use tool_trade.SignalRepository.Invariant.{IsRow}
use tool_trade.Market.{validate_symbol, validate_interval}

abbrev pub AreLevels : Direction → Levels → Type 0
AreLevels d l =
    IsOrdered d l.entry l.stop_loss l.take_profit
    × (Decimal.lt (Decimal.of_ℕ 0) l.entry ≡ true)
    × (Decimal.lt (Decimal.of_ℕ 0) l.stop_loss ≡ true)
    × (Decimal.lt (Decimal.of_ℕ 0) l.take_profit ≡ true)

check_levels-Ensures :
    (d : Direction) (e s t : Value) → Ensures (AreLevels d) (check_levels d e s t)
unfolding check_levels
check_levels-Ensures d e s t =
    Ensures-bind (AreLevels d) (raise_if (not (is_direction d)) signal_validation) _ λ _ _.
      Ensures-bind (AreLevels d) (to_decimal e) _ λ entry he.
        Ensures-bind (AreLevels d) (to_decimal s) _ λ stop hs.
          Ensures-bind (AreLevels d) (to_decimal t) _ λ take ht.
            Ensures-bind (AreLevels d) (validate_signal_prices d entry stop take) _ λ _ hv. (
              (validate_signal_prices_iff d entry stop take).0 hv,
              (to_decimal-pos e entry he).1,
              (to_decimal-pos s stop hs).1,
              (to_decimal-pos t take ht).1,
            )

-- What the row is that an accepted call inserts.
abbrev pub IsPrepared : NewSignal → Timestamp → (ℕ → Signal) → Type 0
IsPrepared n now row =
    (validate_symbol n.symbol ≡ ok (row 0).symbol)
    × ((i : ℕ) → (row i).id ≡ i)
    × ((i : ℕ) → (row i).symbol ≡ (row 0).symbol)
    × ((i : ℕ) → (row i).status ≡ pending_entry)
    × ((i : ℕ) → IsRow (row i))

pub check_signal-Ensures :
    (n : NewSignal) (now : Timestamp) → Ensures (IsPrepared n now) (check_signal n now)
unfolding check_signal
check_signal-Ensures n now =
    let P = IsPrepared n now in
    Ensures-bind P (validate_symbol n.symbol) _ λ symbol h_symbol.
      Ensures-bind P (validate_interval n.timeframe) _ λ timeframe _.
        Ensures-bind P (check_levels n.direction n.entry n.stop_loss n.take_profit) _
          λ levels h_levels. Ensures-bind P (check_metadata n) _ λ meta _. (
            h_symbol,
            λ i. refl,
            λ i. refl,
            λ i. refl,
            λ i. (
              Ensures-eq_ok (AreLevels n.direction) _ levels
                  (check_levels-Ensures n.direction n.entry n.stop_loss n.take_profit) h_levels,
              (λ _. (refl, refl), λ e. cc, λ e. cc, λ e. cc),
            ),
          )

-- The row has the direction and the levels of the arguments.
abbrev pub HasTerms : NewSignal → (ℕ → Signal) → Type 0
HasTerms n row =
    (i : ℕ)
    → ((row i).direction ≡ n.direction)
      × (n.entry ≡ number (row i).entry)
      × (n.stop_loss ≡ number (row i).stop_loss)
      × (n.take_profit ≡ number (row i).take_profit)

abbrev AreTerms : Value → Value → Value → Levels → Type 0
AreTerms e s t l = (e ≡ number l.entry) × (s ≡ number l.stop_loss) × (t ≡ number l.take_profit)

check_levels-AreTerms :
    (d : Direction) (e s t : Value) → Ensures (AreTerms e s t) (check_levels d e s t)
unfolding check_levels
check_levels-AreTerms d e s t =
    let P = AreTerms e s t in
    Ensures-bind P (raise_if (not (is_direction d)) signal_validation) _ λ _ _.
      Ensures-bind P (to_decimal e) _ λ entry he. Ensures-bind P (to_decimal s) _ λ stop hs.
        Ensures-bind P (to_decimal t) _ λ take ht.
          Ensures-bind P (validate_signal_prices d entry stop take) _ λ _ hv. (
            (to_decimal-pos e entry he).0,
            (to_decimal-pos s stop hs).0,
            (to_decimal-pos t take ht).0,
          )

pub check_signal-HasTerms :
    (n : NewSignal) (now : Timestamp) → Ensures (HasTerms n) (check_signal n now)
unfolding check_signal
check_signal-HasTerms n now =
    let P = HasTerms n in
    Ensures-bind P (validate_symbol n.symbol) _ λ symbol _.
      Ensures-bind P (validate_interval n.timeframe) _ λ timeframe _.
        Ensures-bind P (check_levels n.direction n.entry n.stop_loss n.take_profit) _ λ levels h.
          Ensures-bind P (check_metadata n) _ λ meta _ i.
            let (e, s, t) =
              Ensures-eq_ok _ (check_levels n.direction n.entry n.stop_loss n.take_profit) levels
                (check_levels-AreTerms n.direction n.entry n.stop_loss n.take_profit) h in
            (refl, e, s, t)
