-- ===== src/Common/Power.antt =====
-- Powers of ten, and the number of decimal digits.
use Prim.Native.Nat.{ℕ, zero, suc, ◌+◌, ◌*◌, ◌/◌, ◌^◌, ◌≤◌, ◌<◌}
use mathlib.Core.Path.{◌≡◌}
use mathlib.Core.Bool.{true, false}
use mathlib.Core.Logic.{inl, inr}
use native.Mathlib.Omega.{arith}
use native.Mathlib.Nat.{pow-suc}
use tool_trade.Common.Tests.{ltb, Bool-cases}

pub pow_ten-suc : (k : ℕ) → 10 ^ suc k ≡ 10 * 10 ^ k
pow_ten-suc k = omega (arith, pow-suc 10 k)

pub pow-pos : (k : ℕ) → 0 < 10 ^ k
pow-pos zero = omega arith
pow-pos (suc k) = omega (arith, pow_ten-suc k, pow-pos k)

pub pow-add : (j k : ℕ) → 10 ^ (j + k) ≡ 10 ^ j * 10 ^ k
pow-add zero k = let e : 0 + k ≡ k = omega arith in rw e (omega arith)
pow-add (suc j) k =
    let e : suc j + k ≡ suc (j + k) = omega arith in
    rw (e, pow_ten-suc (j + k), pow_ten-suc j, pow-add j k) (omega arith)

-- One less than the number of decimal digits of m.
digits_rec : ℕ → ℕ → ℕ
digits_rec zero m = 0
digits_rec (suc f) m = elim (ltb m 10) [ true ↦ 0 | false ↦ suc (digits_rec f (m / 10)) ]

-- How many decimal digits a number is written with; 0 has one.
unfoldable pub digits : ℕ → ℕ
unfolding digits_rec
digits m = suc (digits_rec m m)

digits_rec-le : (f m : ℕ) → 0 < m → m ≤ f → 10 ^ digits_rec f m ≤ m
unfolding digits_rec
digits_rec-le zero m p h = absurd (omega arith)
digits_rec-le (suc f) m p h = elim (Bool-cases (ltb m 10)) [
  | inl e ↦ rw (e, digits_rec) (omega arith)
  | inr e ↦
      rw (e, digits_rec)
        (ground (arith, digits_rec-le f (m / 10), pow_ten-suc (digits_rec f (m / 10))))
]

lt-digits_rec : (f m : ℕ) → m ≤ f → m < 10 ^ suc (digits_rec f m)
unfolding digits_rec
lt-digits_rec zero m h = omega arith
lt-digits_rec (suc f) m h = elim (Bool-cases (ltb m 10)) [
  | inl e ↦ rw (e, digits_rec) (ground arith)
  | inr e ↦
      rw (e, digits_rec)
        (ground (arith, lt-digits_rec f (m / 10), pow_ten-suc (suc (digits_rec f (m / 10)))))
]

pub pow_digits-le : (m k : ℕ) → 0 < m → digits m ≡ suc k → 10 ^ k ≤ m
unfolding digits
pow_digits-le m k p e =
    let e' : digits_rec m m ≡ k = omega arith in rw (← e') (digits_rec-le m m p (omega arith))

pub lt-pow_digits : (m : ℕ) → m < 10 ^ digits m
unfolding digits
lt-pow_digits m = lt-digits_rec m m (omega arith)
