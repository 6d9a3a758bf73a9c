-- ===== src/Market/Sanity.antt =====
-- What holds of the candles that `parse_klines` returns.
use tool_trade.Common.{
  pos, negsuc, ◌≤◌, ◌<◌, ◌≡◌, ◌↔◌, refl, true, false, not, List, [], ◌∷◌, ltb, All, arith,
  Bool-cases, inl, inr,
}
use tool_trade.Decimal
use tool_trade.Decimal.{Decimal}
use tool_trade.Decimal.Order.{le_total, le_trans}
use tool_trade.Models.{Value, number, IntArg, integer, not_integer, Timestamp}
use tool_trade.Result.{
  Ensures, Ensures-bind, Ensures-eq_ok, raise_if, raise_if-eq-ok, malformed_kline,
}
use tool_trade.Market.Order.{IsAscending, is_ascending-IsAscending}
use tool_trade.Market.Klines.{
  Candle, Fields, Row, row, not_a_list, too_short, parse_time, parse_price, parse_volume, max_of,
  min_of, parse_fields, parse_kline, parse_rows, is_ascending, parse_klines,
}

-- Positive prices, the low below the open and the close and the high above them, a close time that is
-- not before the open time, and the flag exactly where the close time has passed.
abbrev pub IsCandle : Timestamp → Candle → Type 0
IsCandle now_ms c =
    (Decimal.lt (Decimal.of_ℕ 0) c.low ≡ true)
    × (Decimal.le c.low c.open_price ≡ true)
    × (Decimal.le c.low c.close ≡ true)
    × (Decimal.le c.open_price c.high ≡ true)
    × (Decimal.le c.close c.high ≡ true)
    × (Decimal.le (Decimal.of_ℕ 0) c.volume ≡ true)
    × (c.timestamp ≤ c.close_time)
    × ((c.is_closed ≡ true) ↔ (c.close_time < now_ms))

-- The candle has the numbers of the row.
abbrev pub IsRead : Row → Candle → Type 0
IsRead (row f) c =
    (f.timestamp ≡ integer (pos c.timestamp))
    × (f.open_price ≡ number c.open_price)
    × (f.high ≡ number c.high)
    × (f.low ≡ number c.low)
    × (f.close ≡ number c.close)
    × (f.volume ≡ number c.volume)
    × (f.close_time ≡ integer (pos c.close_time))
IsRead _ c = ⊥

abbrev pub AreRead : List Row → List Candle → Type 0
AreRead [] [] = Unit
AreRead (r ∷ rs) (c ∷ cs) = IsRead r c × AreRead rs cs
AreRead _ _ = ⊥

parse_time-Ensures : (v : IntArg) → Ensures (λ n. v ≡ integer (pos n)) (parse_time v)
unfolding parse_time
parse_time-Ensures (integer (pos n)) = refl
parse_time-Ensures (integer (negsuc n)) = tt
parse_time-Ensures not_integer = tt

price_read : (v : Value) → Ensures (λ d. v ≡ number d) (parse_price v)
unfolding parse_price
price_read (number d) = elim (Bool-cases (Decimal.lt (Decimal.of_ℕ 0) d)) [
  | inl e ↦ rw e refl
  | inr e ↦ rw e tt
]
price_read _ = tt

volume_read : (v : Value) → Ensures (λ d. v ≡ number d) (parse_volume v)
unfolding parse_volume
volume_read (number d) = elim (Bool-cases (Decimal.le (Decimal.of_ℕ 0) d)) [
  | inl e ↦ rw e refl
  | inr e ↦ rw e tt
]
volume_read _ = tt

parse_price-Ensures :
    (v : Value) → Ensures (λ d. Decimal.lt (Decimal.of_ℕ 0) d ≡ true) (parse_price v)
unfolding parse_price
parse_price-Ensures (number d) = elim (Bool-cases (Decimal.lt (Decimal.of_ℕ 0) d)) [
  | inl e ↦ rw e e
  | inr e ↦ rw e tt
]
parse_price-Ensures _ = tt

parse_volume-Ensures :
    (v : Value) → Ensures (λ d. Decimal.le (Decimal.of_ℕ 0) d ≡ true) (parse_volume v)
unfolding parse_volume
parse_volume-Ensures (number d) = elim (Bool-cases (Decimal.le (Decimal.of_ℕ 0) d)) [
  | inl e ↦ rw e e
  | inr e ↦ rw e tt
]
parse_volume-Ensures _ = tt

max-bounds :
    (a b h : Decimal)
    → Decimal.lt h (max_of a b) ≡ false
    → (Decimal.le a h ≡ true) × (Decimal.le b h ≡ true)
max-bounds a b h e = ground (arith, le_total a b, le_trans a b h, le_trans b a h)

min-bounds :
    (a b l : Decimal)
    → Decimal.lt (min_of a b) l ≡ false
    → (Decimal.le l a ≡ true) × (Decimal.le l b ≡ true)
min-bounds a b l e = ground (arith, le_total a b, le_trans l a b, le_trans l b a)

parse_fields-Ensures :
    (f : Fields) (now_ms : Timestamp)
    → Ensures (λ c. IsCandle now_ms c × IsRead (row f) c) (parse_fields f now_ms)
unfolding parse_fields
parse_fields-Ensures f now_ms =
    let P : Candle → Type 0 = λ c. IsCandle now_ms c × IsRead (row f) c in
    Ensures-bind P (parse_time f.timestamp) _ λ timestamp h_time.
      Ensures-bind P (parse_time f.close_time) _ λ close_time h_close_time.
        Ensures-bind P (raise_if (ltb close_time timestamp) malformed_kline) _ λ _ order.
          Ensures-bind P (parse_price f.open_price) _ λ open_price h_open.
            Ensures-bind P (parse_price f.high) _ λ high h_high.
              Ensures-bind P (parse_price f.low) _ λ low h_low.
                Ensures-bind P (parse_price f.close) _ λ close h_close.
                  Ensures-bind P (parse_volume f.volume) _ λ volume h_volume.
                    Ensures-bind P
                      (raise_if (Decimal.lt high (max_of open_price close)) malformed_kline) _
                      λ _ above.
                        Ensures-bind P
                          (raise_if (Decimal.lt (min_of open_price close) low) malformed_kline) _
                          λ _ below.
                            let in_order =
                              raise_if-eq-ok (ltb close_time timestamp) malformed_kline order in
                            let (open_le, close_le) =
                              max-bounds open_price close high
                                (raise_if-eq-ok _ malformed_kline above) in
                            let (le_open, le_close) =
                              min-bounds open_price close low
                                (raise_if-eq-ok _ malformed_kline below) in
                            (
                              (
                                Ensures-eq_ok (λ d. Decimal.lt (Decimal.of_ℕ 0) d ≡ true) _ low
                                    (parse_price-Ensures f.low) h_low,
                                le_open,
                                le_close,
                                open_le,
                                close_le,
                                Ensures-eq_ok (λ d. Decimal.le (Decimal.of_ℕ 0) d ≡ true) _ volume
                                    (parse_volume-Ensures f.volume) h_volume,
                                ground arith,
                                (λ e. ground arith, λ e. ground arith),
                              ),
                              (
                                Ensures-eq_ok _ _ timestamp (parse_time-Ensures f.timestamp) h_time,
                                Ensures-eq_ok _ _ open_price (price_read f.open_price) h_open,
                                Ensures-eq_ok _ _ high (price_read f.high) h_high,
                                Ensures-eq_ok _ _ low (price_read f.low) h_low,
                                Ensures-eq_ok _ _ close (price_read f.close) h_close,
                                Ensures-eq_ok _ _ volume (volume_read f.volume) h_volume,
                                Ensures-eq_ok _ _ close_time (parse_time-Ensures f.close_time)
                                    h_close_time,
                              ),
                            )

parse_kline-Ensures :
    (r : Row) (now_ms : Timestamp)
    → Ensures (λ c. IsCandle now_ms c × IsRead r c) (parse_kline r now_ms)
unfolding parse_kline
parse_kline-Ensures not_a_list now_ms = tt
parse_kline-Ensures too_short now_ms = tt
parse_kline-Ensures (row f) now_ms = parse_fields-Ensures f now_ms

parse_rows-Ensures :
    (rs : List Row) (now_ms : Timestamp)
    → Ensures (λ cs. All (IsCandle now_ms) cs × AreRead rs cs) (parse_rows rs now_ms)
unfolding parse_rows
parse_rows-Ensures [] now_ms = (tt, tt)
parse_rows-Ensures (r ∷ rs) now_ms =
    let P : List Candle → Type 0 = λ cs. All (IsCandle now_ms) cs × AreRead (r ∷ rs) cs in
    Ensures-bind P (parse_kline r now_ms) _ λ candle h.
      Ensures-bind P (parse_rows rs now_ms) _ λ rest k.
        let (good, read) = Ensures-eq_ok _ _ candle (parse_kline-Ensures r now_ms) h in
        let (goods, reads) = Ensures-eq_ok _ _ rest (parse_rows-Ensures rs now_ms) k in
        ((good, goods), (read, reads))

-- Where `parse_klines` returns, there is a candle for each row, in order, with the row's numbers; each
-- candle opened later than all before it, and has positive prices with the low and the high around the
-- open and the close, no negative volume, a close time that is not before its open time, and is marked
-- closed exactly if its close time has passed.
pub parse_klines-Ensures :
    (raw : List Row) (now_ms : Timestamp)
    → Ensures
        (λ candles. All (IsCandle now_ms) candles × AreRead raw candles × IsAscending candles)
        (parse_klines raw now_ms)
unfolding parse_klines
parse_klines-Ensures raw now_ms =
    let P : List Candle → Type 0 =
      λ candles. All (IsCandle now_ms) candles × AreRead raw candles × IsAscending candles in
    Ensures-bind P (parse_rows raw now_ms) _ λ candles h.
      Ensures-bind P (raise_if (not (is_ascending candles)) malformed_kline) _ λ _ k.
        let ascending = raise_if-eq-ok (not (is_ascending candles)) malformed_kline k in
        let (good, read) = Ensures-eq_ok _ _ candles (parse_rows-Ensures raw now_ms) h in
        (good, read, is_ascending-IsAscending candles (ground arith))
