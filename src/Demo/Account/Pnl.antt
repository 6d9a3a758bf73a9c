-- ===== src/Demo/Account/Pnl.antt =====
-- The sign of the gross profit.
use tool_trade.Common.{◌≡◌, refl, true, arith}
use tool_trade.Decimal
use tool_trade.Decimal.{Decimal}
use tool_trade.Decimal.Sign.{lt_zero-sub_iff, lt-sub-zero_iff, mul-pos, mul-neg}
use tool_trade.Models.{Direction, long, short, wait, unknown, is_direction, number}
use tool_trade.Models.Prices.{IsOrdered}
use tool_trade.Result.{ok}
use tool_trade.Demo.Account.{require_positive, favourable_move, gross_pnl}
use tool_trade.Demo.Account.Arguments.{IsAbove0}

require_positive-eq : (d : Decimal) → IsAbove0 d → require_positive (number d) ≡ ok d
unfolding require_positive
require_positive-eq d h = ground arith

pub gross_pnl-eq :
    (d : Direction) (entry exit_value qty : Decimal)
    → is_direction d ≡ true
    → IsAbove0 entry
    → IsAbove0 exit_value
    → IsAbove0 qty
    → gross_pnl d (number entry) (number exit_value) (number qty)
      ≡ ok (Decimal.mul (favourable_move d entry exit_value) qty)
unfolding gross_pnl
gross_pnl-eq d entry exit_value qty hd he hx hq = ground (
  arith,
  require_positive-eq entry he,
  require_positive-eq exit_value hx,
  require_positive-eq qty hq,
)

-- A move from the entry to a level on the far side of it.
move-pos :
    (d : Direction) (entry stop take : Decimal)
    → IsOrdered d entry stop take
    → IsAbove0 (favourable_move d entry take)
move-pos long entry stop take h = (lt_zero-sub_iff take entry).0 h.1
move-pos short entry stop take h = (lt_zero-sub_iff entry take).0 h.0
move-pos wait entry stop take h = absurd h
move-pos unknown entry stop take h = absurd h

move-neg :
    (d : Direction) (entry stop take : Decimal)
    → IsOrdered d entry stop take
    → Decimal.lt (favourable_move d entry stop) (Decimal.of_ℕ 0) ≡ true
move-neg long entry stop take h = (lt-sub-zero_iff stop entry).0 h.0
move-neg short entry stop take h = (lt-sub-zero_iff entry stop).0 h.1
move-neg wait entry stop take h = absurd h
move-neg unknown entry stop take h = absurd h

ordered-is_direction :
    (d : Direction) (entry stop take : Decimal)
    → IsOrdered d entry stop take
    → is_direction d ≡ true
ordered-is_direction long entry stop take h = refl
ordered-is_direction short entry stop take h = refl
ordered-is_direction wait entry stop take h = absurd h
ordered-is_direction unknown entry stop take h = absurd h

-- For a signal whose levels are positive and in order, and a positive quantity, the gross profit of an
-- exit at the take profit exists and is positive, and that of an exit at the stop loss exists and is
-- negative, whichever the direction, and after the rounding to 28 digits.
pub gross_pnl-sign :
    (d : Direction) (entry stop take qty : Decimal)
    → IsOrdered d entry stop take
    → IsAbove0 entry
    → IsAbove0 stop
    → IsAbove0 take
    → IsAbove0 qty
    → ((gain : Decimal) × (gross_pnl d (number entry) (number take) (number qty) ≡ ok gain)
        × IsAbove0 gain)
      × ((loss : Decimal) × (gross_pnl d (number entry) (number stop) (number qty) ≡ ok loss)
          × (Decimal.lt loss (Decimal.of_ℕ 0) ≡ true))
gross_pnl-sign d entry stop take qty o he hs ht hq =
    let hd = ordered-is_direction d entry stop take o in
    (
      (
        _,
        gross_pnl-eq d entry take qty hd he ht hq,
        mul-pos (favourable_move d entry take) qty (move-pos d entry stop take o) hq,
      ),
      (
        _,
        gross_pnl-eq d entry stop qty hd he hs hq,
        mul-neg (favourable_move d entry stop) qty (move-neg d entry stop take o) hq,
      ),
    )
