-- ===== src/Validator/Rounding.antt =====
-- The integer that a confidence is rounded to.
use native.Mathlib.Nat.{div-add-mod, mod-lt}
use tool_trade.Common.{
  ℕ, zero, suc, ◌+◌, ◌*◌, ◌/◌, ◌%◌, ◌^◌, ◌≤◌, ◌<◌, ◌≡◌, ◌⊎◌, refl, true, false, inl, inr, ◌||◌, ℤ,
  pos, negsuc, pos_part, neg_part, arith, Bool-cases, leb, pow-pos, pow_ten-suc, subst,
}
use tool_trade.Decimal
use tool_trade.Decimal.{Decimal}
use tool_trade.Decimal.Sign.{lt-zero_iff}
use tool_trade.Decimal.Order.{ScaledLe, rescale}
use tool_trade.Models.{number}
use tool_trade.Result.{Ensures, Ensures-bind, raise_if, raise_if-eq-ok, signal_validation}
use tool_trade.Validator.{Confidence, stated, half_up, to_integral, validate_confidence}

-- With a quotient q and a remainder r by the unit 10 v, the rounded quotient n is nearest.
nearest :
    (m v q r n : ℕ)
    → m ≡ q * (10 * v) + r
    → r < 10 * v
    → ((10 * v ≤ 2 * r) × (n ≡ q + 1)) ⊎ ((2 * r < 10 * v) × (n ≡ q))
    → (10 * (n * v) ≤ m + 5 * v) × (m < 10 * (n * v) + 5 * v)
nearest m v q r n e l (inl (t, k)) =
    let scaled : n * v ≡ q * v + v = rw k (grind arith) in
    let e' : m ≡ 10 * (q * v) + r = rw e (grind arith) in (omega arith, omega arith)
nearest m v q r n e l (inr (t, k)) =
    let scaled : n * v ≡ q * v = rw k refl in
    let e' : m ≡ 10 * (q * v) + r = rw e (grind arith) in (omega arith, omega arith)

half_up-bounds :
    (m k : ℕ)
    → (10 * (half_up m (k + 1) * 10 ^ k) ≤ m + 5 * 10 ^ k)
      × (m < 10 * (half_up m (k + 1) * 10 ^ k) + 5 * 10 ^ k)
half_up-bounds m k =
    let unit : 10 ^ (k + 1) ≡ 10 * 10 ^ k =
      let next : k + 1 ≡ suc k = omega arith in rw (next, pow_ten-suc k) refl in
    let some_unit = pow-pos k in
    let u = 10 ^ (k + 1) in
    let whole : m ≡ m / u * (10 * 10 ^ k) + m % u =
      subst (λ w. m ≡ m / u * w + m % u) unit (omega (arith, div-add-mod m u)) in
    let part : m % u < 10 * 10 ^ k = subst (λ w. m % u < w) unit (mod-lt m (pow-pos (k + 1))) in
    elim (Bool-cases (leb u (2 * (m % u)))) [
      | inl t ↦
          nearest m (10 ^ k) (m / u) (m % u) (half_up m (k + 1)) whole part
            (inl (ground arith, rw t refl))
      | inr t ↦
          nearest m (10 ^ k) (m / u) (m % u) (half_up m (k + 1)) whole part
            (inr (ground arith, rw t refl))
    ]

-- k - 1/2 and k + 1/2
abbrev pub half_below : ℕ → Decimal
half_below zero = record { coeff = negsuc 4; exp = negsuc 0 }
half_below (suc j) = Decimal.literal (10 * j + 5) 1

abbrev pub half_above : ℕ → Decimal
half_above k = Decimal.literal (10 * k + 5) 1

-- The stated number d, which is rounded to the nearest integer k, a half upwards.
abbrev pub IsRounded : Confidence → ℤ → Type 0
IsRounded c n =
    (d : Decimal) × (k : ℕ) × (c ≡ stated (number d))
    × (n ≡ pos k)
    × (k ≤ 100)
    × (Decimal.le (half_below k) d ≡ true)
    × (Decimal.lt d (half_above k) ≡ true)

abbrev IsNear : Decimal → ℕ → Type 0
IsNear d k = (k ≤ 100) × (Decimal.le (half_below k) d ≡ true) × (Decimal.lt d (half_above k) ≡ true)

half_below-exp : (n : ℕ) → (half_below n).exp ≡ negsuc 0
half_below-exp zero = refl
half_below-exp (suc j) = refl

half_below-le :
    (n p q m : ℕ) (e : ℤ)
    → 10 * (n * p) ≤ m * q + 5 * p
    → ScaledLe (half_below n) (record { coeff = pos m; exp = e }) p q
half_below-le zero p q m e h = omega arith
half_below-le (suc j) p q m e h =
    let scaled : 10 * (suc j * p) ≡ 10 * (j * p) + 10 * p = grind arith in
    let wanted : (10 * j + 5) * p ≡ 10 * (j * p) + 5 * p = grind arith in omega arith

half_above-not-le :
    (n p q m : ℕ) (e : ℤ)
    → m * q < 10 * (n * p) + 5 * p
    → ¬ ScaledLe (half_above n) (record { coeff = pos m; exp = e }) p q
half_above-not-le n p q m e h k =
    let wanted : (10 * n + 5) * p ≡ 10 * (n * p) + 5 * p = grind arith in absurd (omega arith)

lt_of-not-le : (a b : Decimal) → ¬ (Decimal.le b a ≡ true) → Decimal.lt a b ≡ true
lt_of-not-le a b h = elim (Bool-cases (Decimal.le b a)) [ inl e ↦ absurd (h e) | inr e ↦ rw e refl ]

at_most : (n m v : ℕ) → 10 * (n * v) ≤ m + 5 * v → m ≤ 100 * (10 * v) → 0 < v → n ≤ 100
at_most n m v below top p = grind arith

-- Over scales p and q of the two exponents.
module _ (m n : ℕ) (e : ℤ) (p q : ℕ) (below : 10 * (n * 10 ^ p) ≤ m * 10 ^ q + 5 * 10 ^ p)
    (above : m * 10 ^ q < 10 * (n * 10 ^ p) + 5 * 10 ^ p)
    (fits : p + (1 + pos_part e) ≡ q + neg_part e) where
  near_below : Decimal.le (half_below n) (record { coeff = pos m; exp = e }) ≡ true
  near_below =
      (rescale (half_below n) (record { coeff = pos m; exp = e }) p q
          (rw (half_below-exp n) (omega arith))).1
        (half_below-le n (10 ^ p) (10 ^ q) m e below)

  near_above : Decimal.lt (record { coeff = pos m; exp = e }) (half_above n) ≡ true
  near_above =
      lt_of-not-le (record { coeff = pos m; exp = e }) (half_above n)
        λ reached.
          half_above-not-le n (10 ^ p) (10 ^ q) m e above (
            (rescale (half_above n) (record { coeff = pos m; exp = e }) p q (omega arith)).0
              reached)

fraction-IsNear :
    (m k n : ℕ)
    → (10 * (n * 10 ^ k) ≤ m + 5 * 10 ^ k) × (m < 10 * (n * 10 ^ k) + 5 * 10 ^ k)
    → Decimal.le (record { coeff = pos m; exp = negsuc k }) (Decimal.of_ℕ 100) ≡ true
    → IsNear (record { coeff = pos m; exp = negsuc k }) n
fraction-IsNear m k n (below, above) h =
    let d : Decimal = record { coeff = pos m; exp = negsuc k } in
    let hundred = (rescale d (Decimal.of_ℕ 100) 0 (suc k) (omega arith)).0 h in
    let p = pow-pos k in
    let s = pow_ten-suc k in
    (
      at_most n m (10 ^ k) below (omega arith) p,
      near_below m n (negsuc k) k 0 (omega arith) (omega arith) (omega arith),
      near_above m n (negsuc k) k 0 (omega arith) (omega arith) (omega arith),
    )

whole-IsNear :
    (m e n : ℕ)
    → n ≡ m * 10 ^ e
    → Decimal.le (record { coeff = pos m; exp = pos e }) (Decimal.of_ℕ 100) ≡ true
    → IsNear (record { coeff = pos m; exp = pos e }) n
whole-IsNear m e n same h =
    let d : Decimal = record { coeff = pos m; exp = pos e } in
    let hundred = (rescale d (Decimal.of_ℕ 100) e 0 (omega arith)).0 h in
    let scaled : m * 10 ^ suc e ≡ 10 * n = rw (pow_ten-suc e, same) (grind arith) in
    (
      omega arith,
      near_below m n (pos e) 0 (suc e) (omega arith) (omega arith) (omega arith),
      near_above m n (pos e) 0 (suc e) (omega arith) (omega arith) (omega arith),
    )

to_integral-IsNear :
    (c e : ℤ)
    → Decimal.lt (record { coeff = c; exp = e }) (Decimal.of_ℕ 0) ≡ false
    → Decimal.lt (Decimal.of_ℕ 100) (record { coeff = c; exp = e }) ≡ false
    → (k : ℕ) × (to_integral c e ≡ pos k) × IsNear (record { coeff = c; exp = e }) k
to_integral-IsNear (pos m) (pos e) low high =
    (m * 10 ^ e, refl, whole-IsNear m e _ refl (ground arith))
to_integral-IsNear (pos m) (negsuc k) low high =
    (half_up m (k + 1), refl, fraction-IsNear m k _ (half_up-bounds m k) (ground arith))
to_integral-IsNear (negsuc m) e low high =
    let negative = (lt-zero_iff (record { coeff = negsuc m; exp = e })).1 (omega arith) in
    absurd (ground arith)

-- A confidence that is accepted is a number from 0 to 100, and the returned integer, which is from 0 to
-- 100 too, is within a half of it; a number half way is rounded up.
pub validate_confidence-Ensures : (c : Confidence) → Ensures (IsRounded c) (validate_confidence c)
unfolding validate_confidence
validate_confidence-Ensures (stated (number d)) =
    Ensures-bind (IsRounded (stated (number d)))
      (raise_if (Decimal.lt d (Decimal.of_ℕ 0) || Decimal.lt (Decimal.of_ℕ 100) d)
        signal_validation)
      _
      λ u h.
        let passed = raise_if-eq-ok _ signal_validation h in
        let (k, e, near) = to_integral-IsNear d.coeff d.exp (ground arith) (ground arith) in
        (d, k, refl, e, near.0, near.1, near.2)
validate_confidence-Ensures _ = tt
