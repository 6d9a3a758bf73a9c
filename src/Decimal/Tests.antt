-- ===== src/Decimal/Tests.antt =====
-- Decimal arithmetic on values that the program meets.
use tool_trade.Common.{◌≡◌, refl, true, false, some, pos, negsuc, ◌+ℤ◌, ◌-ℤ◌, ◌*ℤ◌, digits}
use tool_trade.Decimal.{of_ℕ, literal, le, lt, fix, sub, quotient, div}

runs :
    (div (of_ℕ 500) (of_ℕ 60_000)
      ≡ some (record { coeff = pos 8333333333333333333333333333; exp = negsuc 29 }))
    × (div (of_ℕ 10) (of_ℕ 4) ≡ some (record { coeff = pos 25; exp = negsuc 0 }))
    × (sub (of_ℕ 5) (literal 75 1) ≡ record { coeff = negsuc 24; exp = negsuc 0 })
    × (le (literal 10 1) (of_ℕ 1) ≡ true)
    × (lt (literal 10 1) (of_ℕ 1) ≡ false)
unfolding div quotient sub fix le ◌+ℤ◌ ◌-ℤ◌ ◌*ℤ◌ digits
runs = (refl, refl, refl, refl, refl)
