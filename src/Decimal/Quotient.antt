-- ===== src/Decimal/Quotient.antt =====
-- Division: a quotient exists exactly when the divisor is not zero, and is positive for positive
-- arguments, however far the rounding goes.
use native.Mathlib.Nat.{mul-le-mul, le_refl}
use tool_trade.Common.{
  ℕ, zero, suc, ◌+◌, ◌-◌, ◌*◌, ◌/◌, ◌%◌, ◌^◌, ◌≤◌, ◌<◌, ◌≡◌, refl, sym, subst, ap, ◌∙◌, true, false,
  some, inl, inr, ◌==◌, if◌then◌else◌, Bool-cases, ℤ, pos, negsuc, pos_part, magnitude, ◌*ℤ◌, ◌+ℤ◌,
  ◌-ℤ◌, digits, pow-pos, pow-add, pow_digits-le, lt-pow_digits, arith,
}
use tool_trade.Decimal.{
  Decimal, of_ℕ, prec, lt, strip_zeros, quotient, div_nonzero, div_parts, div, le, eq,
}
use tool_trade.Decimal.Sign.{IsPos, lt_zero_iff, fix-SameSign}

strip_zeros-pos : (k c : ℕ) (e : ℤ) → 0 < c → 0 < (strip_zeros k c e).0
unfolding strip_zeros
strip_zeros-pos zero c e h = h
strip_zeros-pos (suc k) c e h = elim (Bool-cases (c % 10 == 0)) [
  | inl z ↦ rw z (strip_zeros-pos k (c / 10) (e +ℤ pos 1) (ground arith))
  | inr z ↦ rw z h
]

-- With the shift that `quotient` makes, the numerator is at least the denominator.
den-le-num :
    (a b la lb : ℕ)
    → 10 ^ la ≤ a
    → b < 10 ^ suc lb
    → b * 10 ^ (suc la - (suc lb + (prec + 1))) ≤ a * 10 ^ (suc lb + (prec + 1) - suc la)
den-le-num a b la lb h k =
    let up = suc lb + (prec + 1) - suc la in
    let down = suc la - (suc lb + (prec + 1)) in
    let above : 10 ^ la * 10 ^ up ≤ a * 10 ^ up = mul-le-mul h (le_refl (10 ^ up)) in
    let below : b * 10 ^ down ≤ 10 ^ suc lb * 10 ^ down =
      mul-le-mul (omega arith) (le_refl (10 ^ down)) in
    let gap : la + up ≡ (suc lb + down) + 28 = omega arith in
    let split : 10 ^ (la + up) ≡ 10 ^ (suc lb + down) * 10 ^ 28 =
      ap (λ (n : ℕ). 10 ^ n) gap ∙ pow-add (suc lb + down) 28 in
    omega (arith, pow-add la up, pow-add (suc lb) down)

marked-pos :
    (r q up : ℕ) (e : ℤ)
    → 0 < q
    → 0 < (if r == 0 then strip_zeros up q e else (if q % 5 == 0 then q + 1 else q, e)).0
marked-pos r q up e h = elim (Bool-cases (r == 0)) [
  | inl z ↦ rw z (strip_zeros-pos up q e h)
  | inr z ↦ rw z (ground arith)
]

div-pos_of_le : (n d : ℕ) → 0 < d → d ≤ n → 0 < n / d
div-pos_of_le n d h k = grind arith

quotient-pos :
    (a b la lb : ℕ) (ideal : ℤ)
    → 0 < a
    → 0 < b
    → digits a ≡ suc la
    → digits b ≡ suc lb
    → 0 < (quotient a b ideal).0
unfolding quotient
quotient-pos a b la lb ideal h k ea eb =
    let up = digits b + (prec + 1) - digits a in
    let down = digits a - (digits b + (prec + 1)) in
    let low : 10 ^ la ≤ a = pow_digits-le a la h ea in
    let high : b < 10 ^ suc lb = rw (← eb) (lt-pow_digits b) in
    let fits : b * 10 ^ down ≤ a * 10 ^ up = rw (ea, eb) (den-le-num a b la lb low high) in
    let den : 0 < b * 10 ^ down = let p = pow-pos down in grind arith in
    marked-pos _ _ up _ (div-pos_of_le (a * 10 ^ up) (b * 10 ^ down) den fits)

digits-suc : (m : ℕ) → digits m ≡ suc (digits m - 1)
unfolding digits
digits-suc m = omega arith

div_parts-pos :
    (m n : ℕ) (ea eb : ℤ)
    → 0 < m
    → 0 < n
    → (q : Decimal) × (div_parts (pos m) (pos n) ea eb ≡ some q) × IsPos q
unfolding div_parts div_nonzero
div_parts-pos m n ea eb h k =
    let (q, e) = quotient m n (ea -ℤ eb) in
    (
      div_nonzero (pos m) (pos n) ea eb,
      ground arith,
      (fix-SameSign (pos q) e).0.0 (
          quotient-pos m n (digits m - 1) (digits n - 1) (ea -ℤ eb) h k (digits-suc m)
            (digits-suc n)),
    )

div_signed-IsPos :
    (ca cb ea eb : ℤ)
    → 0 < pos_part ca
    → 0 < pos_part cb
    → (q : Decimal) × (div_parts ca cb ea eb ≡ some q) × IsPos q
div_signed-IsPos (pos m) (pos n) ea eb h k = div_parts-pos m n ea eb h k
div_signed-IsPos (pos m) (negsuc n) ea eb h k = absurd (omega arith)
div_signed-IsPos (negsuc m) cb ea eb h k = absurd (omega arith)

-- A quotient of positive values exists and is positive.
pub div-pos :
    (a b : Decimal)
    → lt (of_ℕ 0) a ≡ true
    → lt (of_ℕ 0) b ≡ true
    → (q : Decimal) × (div a b ≡ some q) × (lt (of_ℕ 0) q ≡ true)
unfolding div
div-pos a b h k =
    let (q, e, p) =
      div_signed-IsPos a.coeff b.coeff a.exp b.exp ((lt_zero_iff a).0 h) ((lt_zero_iff b).0 k) in
    (q, e, (lt_zero_iff q).1 p)

zero_coeff : (c : ℤ) (e : ℤ) → magnitude c ≡ 0 → c ≡ pos 0
zero_coeff (pos n) e h = ap pos h
zero_coeff (negsuc n) e h = ground arith

zero-eq : (e : ℤ) → eq (record { coeff = pos 0; exp = e }) (of_ℕ 0) ≡ true
unfolding le ◌*ℤ◌
zero-eq e = ground arith

-- A divisor that is not equal to zero divides.
pub div-some : (a b : Decimal) → eq b (of_ℕ 0) ≡ false → (q : Decimal) × (div a b ≡ some q)
unfolding div div_parts
div-some a b h =
    let apart : (magnitude b.coeff == 0) ≡ false = elim (Bool-cases (magnitude b.coeff == 0)) [
      | inl e ↦
          let z = zero_coeff b.coeff b.exp (ground arith) in
          let is_zero : eq b (of_ℕ 0) ≡ true =
            subst (λ c. eq (record { coeff = c; exp = b.exp }) (of_ℕ 0) ≡ true) (sym z)
              (zero-eq b.exp) in
          cc
      | inr e ↦ e
    ] in
    elim (Bool-cases (magnitude a.coeff == 0)) [
      | inl e ↦ rw (apart, e) (_, refl)
      | inr e ↦ rw (apart, e) (_, refl)
    ]
