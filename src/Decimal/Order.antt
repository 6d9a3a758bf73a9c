-- ===== src/Decimal/Order.antt =====
-- Decimals are totally preordered by value, whatever exponents they are written with.
use native.Mathlib.Nat.{mul-le-mul, le_refl}
use tool_trade.Common.{
  ℕ, ◌+◌, ◌*◌, ◌^◌, ◌≤◌, ◌≡◌, ◌↔◌, ◌⊎◌, inl, inr, true, ℤ, pos, negsuc, pos_part, neg_part, ◌*ℤ◌,
  pow-pos, pow-add, arith,
}
use tool_trade.Decimal.{Decimal, exp_gap, le}

pos_part-scale : (c : ℤ) (k : ℕ) → pos_part (c *ℤ pos k) ≡ pos_part c * k
unfolding ◌*ℤ◌
pos_part-scale (pos n) k = ground arith
pos_part-scale (negsuc n) k = ground arith

neg_part-scale : (c : ℤ) (k : ℕ) → neg_part (c *ℤ pos k) ≡ neg_part c * k
unfolding ◌*ℤ◌
neg_part-scale (pos n) k = ground arith
neg_part-scale (negsuc n) k = ground arith

-- `a <= b` in numbers, when their coefficients are scaled by p and by q.
abbrev pub ScaledLe : Decimal → Decimal → ℕ → ℕ → Type 0
ScaledLe a b p q =
    pos_part a.coeff * p + neg_part b.coeff * q ≤ neg_part a.coeff * p + pos_part b.coeff * q

pub le_iff :
    (a b : Decimal)
    → (le a b ≡ true) ↔ ScaledLe a b (10 ^ exp_gap a.exp b.exp) (10 ^ exp_gap b.exp a.exp)
unfolding le
le_iff a b =
    let p = 10 ^ exp_gap a.exp b.exp in
    let q = 10 ^ exp_gap b.exp a.exp in
    ground (
      arith,
      pos_part-scale a.coeff p,
      pos_part-scale b.coeff q,
      neg_part-scale a.coeff p,
      neg_part-scale b.coeff q,
    )

cancel : (m n w : ℕ) → 1 ≤ w → m * w ≤ n * w → m ≤ n
cancel m n w h k = grind arith

-- Scaling both sides of a comparison by one positive number changes nothing.
scale_both :
    (pa na pb nb p q w : ℕ)
    → 1 ≤ w
    → (pa * p + nb * q ≤ na * p + pb * q)
      ↔ (pa * (p * w) + nb * (q * w) ≤ na * (p * w) + pb * (q * w))
scale_both pa na pb nb p q w h = (
  λ le.
      let scaled : (pa * p + nb * q) * w ≤ (na * p + pb * q) * w = mul-le-mul le (le_refl w) in
      omega arith,
  λ le. cancel (pa * p + nb * q) (na * p + pb * q) w h (omega arith),
)

abbrev CommonScale : ℕ → ℕ → ℕ → ℕ → Type 0
CommonScale g h x y = (t : ℕ) × (x ≡ g + t) × (y ≡ h + t)

common_scale : (g h x y : ℕ) → (g ≡ 0) ⊎ (h ≡ 0) → x + h ≡ y + g → CommonScale g h x y
common_scale g h x y (inl z) e = (x, omega arith, omega arith)
common_scale g h x y (inr z) e = (y, omega arith, omega arith)

rescale_by :
    (a b : Decimal) (x y : ℕ)
    → CommonScale (exp_gap a.exp b.exp) (exp_gap b.exp a.exp) x y
    → (le a b ≡ true) ↔ ScaledLe a b (10 ^ x) (10 ^ y)
rescale_by a b x y (t, ex, ey) =
    let g = exp_gap a.exp b.exp in
    let h = exp_gap b.exp a.exp in
    let (down, up) =
      scale_both (pos_part a.coeff) (neg_part a.coeff) (pos_part b.coeff) (neg_part b.coeff)
        (10 ^ g) (10 ^ h) (10 ^ t) (pow-pos t) in
    rw (ex, ey, pow-add g t, pow-add h t)
      (λ le. down ((le_iff a b).0 le), λ sc. (le_iff a b).1 (up sc))

-- Comparison may be done over any common exponent: the scales 10 ^ x and 10 ^ y serve when x and y
-- differ as the exponents do.
pub rescale :
    (a b : Decimal) (x y : ℕ)
    → x + (neg_part a.exp + pos_part b.exp) ≡ y + (pos_part a.exp + neg_part b.exp)
    → (le a b ≡ true) ↔ ScaledLe a b (10 ^ x) (10 ^ y)
rescale a b x y e =
    rescale_by a b x y
      (common_scale (exp_gap a.exp b.exp) (exp_gap b.exp a.exp) x y (omega arith) (omega arith))

pub le_refl_lem : (a : Decimal) → le a a ≡ true
le_refl_lem a = (le_iff a a).1 (omega arith)

pub le_total : (a b : Decimal) → (le a b ≡ true) ⊎ (le b a ≡ true)
le_total a b = ground (arith, le_iff a b, le_iff b a)

pub le_trans : (a b c : Decimal) → le a b ≡ true → le b c ≡ true → le a c ≡ true
le_trans a b c h k =
    let x = pos_part a.exp + neg_part b.exp + neg_part c.exp in
    let y = pos_part b.exp + neg_part a.exp + neg_part c.exp in
    let z = pos_part c.exp + neg_part a.exp + neg_part b.exp in
    (rescale a c x z (omega arith)).1
      (omega (arith, (rescale a b x y (omega arith)).0 h, (rescale b c y z (omega arith)).0 k))
