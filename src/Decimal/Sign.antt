-- ===== src/Decimal/Sign.antt =====
-- The signs of results. Rounding keeps the sign, so a difference, a product or a quotient has the sign
-- of the exact one.
use tool_trade.Common.{
  ℕ, zero, suc, ◌+◌, ◌-◌, ◌*◌, ◌^◌, ◌≤◌, ◌<◌, ◌≡◌, refl, ◌↔◌, inl, inr, Bool, true, false, not,
  ◌==◌, Bool-cases, ℤ, pos, negsuc, pos_part, neg_part, magnitude, ◌+ℤ◌, ◌-ℤ◌, ◌*ℤ◌, digits,
  pow-pos, pow-add, pow_digits-le, arith, with_magnitude,
}
use tool_trade.Decimal.{
  Decimal, of_ℕ, aligned, exp_gap, exp_min, prec, half_even, fix, le, lt, sub, mul,
}
use tool_trade.Decimal.Order.{le_iff}

abbrev pub IsPos : Decimal → Type 0
IsPos a = 0 < pos_part a.coeff

abbrev pub IsNeg : Decimal → Type 0
IsNeg a = 0 < neg_part a.coeff

times-pos : (n p : ℕ) → 1 ≤ p → (0 < n) ↔ (0 < n * p)
times-pos n p h = (λ k. grind arith, λ k. grind arith)

not_iff : {P : Type 0} (b : Bool) → (b ≡ true) ↔ P → (not b ≡ true) ↔ ¬ P
not_iff true h = (λ e. cc, λ n. absurd (n (h.0 refl)))
not_iff false h = (λ e p. cc (h.1 p), λ n. refl)

-- Below and above zero a scaled coefficient keeps its sign.
scaled-not-pos_iff :
    (c : ℤ) (p q : ℕ)
    → 1 ≤ p
    → (¬ (pos_part c * p + 0 * q ≤ neg_part c * p + 0 * q)) ↔ (0 < pos_part c)
scaled-not-pos_iff (pos n) p q h = (λ k. grind arith, λ k l. grind arith)
scaled-not-pos_iff (negsuc n) p q h = (λ k. absurd (k (omega arith)), λ k. absurd (omega arith))

scaled-not-neg_iff :
    (c : ℤ) (p q : ℕ)
    → 1 ≤ p
    → (¬ (0 * q + neg_part c * p ≤ 0 * q + pos_part c * p)) ↔ (0 < neg_part c)
scaled-not-neg_iff (pos n) p q h = (λ k. absurd (k (omega arith)), λ k. absurd (omega arith))
scaled-not-neg_iff (negsuc n) p q h = (λ k. omega arith, λ k l. grind arith)

iff_trans : {P Q R : Type 0} → P ↔ Q → Q ↔ R → P ↔ R
iff_trans h k = (λ p. k.0 (h.0 p), λ r. h.1 (k.1 r))

-- A value is above zero exactly when its coefficient is.
pub lt_zero_iff : (a : Decimal) → (lt (of_ℕ 0) a ≡ true) ↔ IsPos a
lt_zero_iff a =
    iff_trans (not_iff _ (le_iff a (of_ℕ 0)))
      (scaled-not-pos_iff a.coeff _ _ (pow-pos (exp_gap a.exp (pos 0))))

-- A value is below zero exactly when its coefficient is.
pub lt-zero_iff : (a : Decimal) → (lt a (of_ℕ 0) ≡ true) ↔ IsNeg a
lt-zero_iff a =
    iff_trans (not_iff _ (le_iff (of_ℕ 0) a))
      (scaled-not-neg_iff a.coeff _ _ (pow-pos (exp_gap a.exp (pos 0))))

half_even-pos : (m k : ℕ) → 10 ^ k ≤ m → 0 < half_even m k
unfolding half_even
half_even-pos m k h = let p = pow-pos k in ground arith

abbrev SameSign : ℤ → ℤ → Type 0
SameSign c d = ((0 < pos_part c) ↔ (0 < pos_part d)) × ((0 < neg_part c) ↔ (0 < neg_part d))

with_magnitude-SameSign :
    (c : ℤ) (m : ℕ) → (0 < magnitude c) ↔ (0 < m) → SameSign c (with_magnitude c m)
with_magnitude-SameSign (pos n) m h = ground arith
with_magnitude-SameSign (negsuc n) m h = ground arith

half_even_iff : (m : ℕ) → 0 < digits m - prec → (0 < m) ↔ (0 < half_even m (digits m - prec))
unfolding digits
half_even_iff zero h = absurd (omega arith)
half_even_iff (suc n) h =
    let k = digits (suc n) - prec in
    let low = pow_digits-le (suc n) (k + 27) (omega arith) (omega arith) in
    let few : 10 ^ k ≤ suc n = omega (arith, low, pow-add k 27) in
    (λ _. half_even-pos (suc n) k few, λ _. omega arith)

pub fix-SameSign : (c e : ℤ) → SameSign c (fix c e).coeff
unfolding fix
fix-SameSign c e =
    let extra = digits (magnitude c) - prec in
    elim (Bool-cases (extra == 0)) [
      | inl h ↦ rw h ((λ p. p, λ p. p), (λ p. p, λ p. p))
      | inr h ↦ rw h (with_magnitude-SameSign c _ (half_even_iff (magnitude c) (ground arith)))
    ]

-- A difference of integers is positive exactly when the second is not as large.
difference-pos_iff :
    (x y : ℤ) → (¬ (pos_part x + neg_part y ≤ neg_part x + pos_part y)) ↔ (0 < pos_part (x -ℤ y))
unfolding ◌-ℤ◌
difference-pos_iff x y = (λ h. ground arith, λ h k. ground arith)

difference-neg_iff :
    (x y : ℤ) → (¬ (pos_part y + neg_part x ≤ neg_part y + pos_part x)) ↔ (0 < neg_part (x -ℤ y))
unfolding ◌-ℤ◌
difference-neg_iff x y = (λ h. ground arith, λ h k. ground arith)

le-aligned_iff :
    (a b : Decimal)
    → (le a b ≡ true) ↔ (
        pos_part (aligned a b) + neg_part (aligned b a)
        ≤ neg_part (aligned a b) + pos_part (aligned b a))
unfolding le
le-aligned_iff a b = ground arith

pub lt_zero-sub_iff : (a b : Decimal) → (lt b a ≡ true) ↔ (lt (of_ℕ 0) (sub a b) ≡ true)
unfolding sub
lt_zero-sub_iff a b =
    let x = aligned a b -ℤ aligned b a in
    let above = iff_trans (not_iff _ (le-aligned_iff a b)) (difference-pos_iff _ _) in
    let fixed = iff_trans above (fix-SameSign x (exp_min a.exp b.exp)).0 in
    let (from, to) = lt_zero_iff (sub a b) in iff_trans fixed (to, from)

pub lt-sub-zero_iff : (a b : Decimal) → (lt a b ≡ true) ↔ (lt (sub a b) (of_ℕ 0) ≡ true)
unfolding sub
lt-sub-zero_iff a b =
    let x = aligned a b -ℤ aligned b a in
    let above = iff_trans (not_iff _ (le-aligned_iff b a)) (difference-neg_iff _ _) in
    let fixed = iff_trans above (fix-SameSign x (exp_min a.exp b.exp)).1 in
    let (from, to) = lt-zero_iff (sub a b) in iff_trans fixed (to, from)

product-pos : (x y : ℤ) → 0 < pos_part x → 0 < pos_part y → 0 < pos_part (x *ℤ y)
unfolding ◌*ℤ◌
product-pos (pos m) (pos n) h k = let p : 0 < m * n = grind arith in ground arith
product-pos (pos m) (negsuc n) h k = absurd (omega arith)
product-pos (negsuc m) y h k = absurd (omega arith)

product-neg : (x y : ℤ) → 0 < neg_part x → 0 < pos_part y → 0 < neg_part (x *ℤ y)
unfolding ◌*ℤ◌
product-neg (negsuc m) (pos n) h k = let p : 0 < suc m * n = grind arith in ground arith
product-neg (negsuc m) (negsuc n) h k = absurd (omega arith)
product-neg (pos m) y h k = absurd (omega arith)

pub mul-pos :
    (a b : Decimal) → lt (of_ℕ 0) a ≡ true → lt (of_ℕ 0) b ≡ true → lt (of_ℕ 0) (mul a b) ≡ true
unfolding mul
mul-pos a b h k = (lt_zero_iff (mul a b)).1 (
    (fix-SameSign (a.coeff *ℤ b.coeff) (a.exp +ℤ b.exp)).0.0
      (product-pos a.coeff b.coeff ((lt_zero_iff a).0 h) ((lt_zero_iff b).0 k)))

pub mul-neg :
    (a b : Decimal) → lt a (of_ℕ 0) ≡ true → lt (of_ℕ 0) b ≡ true → lt (mul a b) (of_ℕ 0) ≡ true
unfolding mul
mul-neg a b h k = (lt-zero_iff (mul a b)).1 (
    (fix-SameSign (a.coeff *ℤ b.coeff) (a.exp +ℤ b.exp)).1.0
      (product-neg a.coeff b.coeff ((lt-zero_iff a).0 h) ((lt_zero_iff b).0 k)))
