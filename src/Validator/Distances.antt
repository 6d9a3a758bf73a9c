-- ===== src/Validator/Distances.antt =====
-- The distances between the levels of a trade.
use tool_trade.Common.{
  ◌<◌, ◌≡◌, ◌⊎◌, pos_part, neg_part, inl, inr, true, ℤ, pos, negsuc, magnitude, arith,
}
use tool_trade.Decimal
use tool_trade.Decimal.{Decimal}
use tool_trade.Decimal.Sign.{
  lt_zero_iff, lt-zero_iff, lt_zero-sub_iff, lt-sub-zero_iff, fix-SameSign,
}
use tool_trade.Models.{Direction, long, short, wait, unknown}
use tool_trade.Models.Prices.{IsOrdered}
use tool_trade.Validator.{distance, is_positive}

abs-pos : (d : Decimal) → 0 < magnitude d.coeff → is_positive (Decimal.abs d) ≡ true
abs-pos d h = (lt_zero_iff (Decimal.abs d)).1 ((fix-SameSign (pos (magnitude d.coeff)) d.exp).0.0 h)

magnitude-pos : (c : ℤ) → (0 < pos_part c) ⊎ (0 < neg_part c) → 0 < magnitude c
magnitude-pos (pos n) h = ground arith
magnitude-pos (negsuc n) h = omega arith

-- Different prices are apart, after the difference is rounded too.
pub distance-pos :
    (a b : Decimal)
    → (Decimal.lt b a ≡ true) ⊎ (Decimal.lt a b ≡ true)
    → is_positive (distance a b) ≡ true
distance-pos a b (inl h) = abs-pos (Decimal.sub a b) (
    magnitude-pos (Decimal.sub a b).coeff
      (inl ((lt_zero_iff (Decimal.sub a b)).0 ((lt_zero-sub_iff a b).0 h))))
distance-pos a b (inr h) = abs-pos (Decimal.sub a b) (
    magnitude-pos (Decimal.sub a b).coeff
      (inr ((lt-zero_iff (Decimal.sub a b)).0 ((lt-sub-zero_iff a b).0 h))))

pub IsOrdered-distances :
    (d : Direction) (entry stop take : Decimal)
    → IsOrdered d entry stop take
    → (is_positive (distance entry stop) ≡ true) × (is_positive (distance take entry) ≡ true)
IsOrdered-distances long entry stop take (l, h) =
    (distance-pos entry stop (inl l), distance-pos take entry (inl h))
IsOrdered-distances short entry stop take (l, h) =
    (distance-pos entry stop (inr h), distance-pos take entry (inr l))
IsOrdered-distances wait entry stop take h = absurd h
IsOrdered-distances unknown entry stop take h = absurd h
