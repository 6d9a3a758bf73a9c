-- ===== src/Market/Order.antt =====
-- The order of candles in time, and `is_ascending` of the check in `parse_klines`.
use tool_trade.Common.{◌<◌, ◌≡◌, true, List, [], ◌∷◌, All, All-map, arith}
use tool_trade.Market.Klines.{Candle, is_ascending}

-- Every later candle opened later.
abbrev pub IsAscending : List Candle → Type 0
IsAscending [] = Unit
IsAscending (c ∷ cs) = All (λ d. Candle.timestamp c < Candle.timestamp d) cs × IsAscending cs

-- What the first candle is before, and the rest, where it is before the second.
pub IsAscending-cons :
    (c d : Candle) (cs : List Candle)
    → Candle.timestamp c < Candle.timestamp d
    → IsAscending (d ∷ cs)
    → IsAscending (c ∷ d ∷ cs)
IsAscending-cons c d cs l (all, rest) = (
  (
    l,
    All-map (λ x. Candle.timestamp d < Candle.timestamp x)
        (λ x. Candle.timestamp c < Candle.timestamp x) cs (λ x k. omega arith) all,
  ),
  (all, rest),
)

pub is_ascending-IsAscending : (cs : List Candle) → is_ascending cs ≡ true → IsAscending cs
is_ascending-IsAscending [] h = tt
is_ascending-IsAscending (c ∷ []) h = (tt, tt)
is_ascending-IsAscending (c ∷ d ∷ cs) h =
    IsAscending-cons c d cs (ground arith) (is_ascending-IsAscending (d ∷ cs) (ground arith))
