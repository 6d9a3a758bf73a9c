-- ===== src/Validator/Limits.antt =====
-- The limits on the distances of a trade.
use tool_trade.Common.{
  ◌≡◌, refl, inl, inr, true, false, not, Option, none, some, arith, subst, Bool-cases, Option-cases,
}
use tool_trade.Decimal
use tool_trade.Decimal.{Decimal}
use tool_trade.Result.{
  raise_if, Ensures, Ensures-bind, Ensures-map, Ensures-eq_ok, raise_if-eq-ok, signal_validation,
}
use tool_trade.Validator.{
  Prices, is_positive, distance, fee_cover, is_within, is_stale, check_risk_reward, check_fee_cover,
  check_bounds, check_atr, validate_trade_levels,
}
use tool_trade.Validator.Guardrails.{GuardrailConfig}

-- Both distances are within their multiples of the ATR, and the entry is near the last close.
abbrev pub IsInRange : Decimal → Option Decimal → Decimal → Decimal → Decimal → Type 0
IsInRange entry close sl tp size =
    (is_within (Decimal.literal 5 1) (Decimal.of_ℕ 5) size sl ≡ true)
    × (is_within (Decimal.literal 5 1) (Decimal.of_ℕ 8) size tp ≡ true)
    × (is_stale size entry close ≡ false)

-- The distances of the trade are what the limits ask for.
pub record IsWithinLimits (guards : GuardrailConfig) (atr : Option Decimal) (close : Option Decimal)
    (p : Prices) : Type 0 where
  pub rewarded :
      is_positive guards.min_risk_reward ≡ true
      → (ratio : Decimal) × (Decimal.div
            (distance p.take_profit p.entry)
            (distance p.entry p.stop_loss)
          ≡ some ratio)
        × (Decimal.le guards.min_risk_reward ratio ≡ true)
  pub covered :
      is_positive guards.fee_rate ≡ true
      → Decimal.le (fee_cover guards p.entry) (distance p.take_profit p.entry) ≡ true
  pub bounded :
      (size : Decimal)
      → atr ≡ some size
      → is_positive size ≡ true
      → IsInRange p.entry close (distance p.entry p.stop_loss) (distance p.take_profit p.entry) size

check_risk_reward-Ensures :
    (guards : GuardrailConfig) (sl tp : Decimal)
    → Ensures
        (λ _.
          is_positive guards.min_risk_reward ≡ true
          → (ratio : Decimal) × (Decimal.div tp sl ≡ some ratio)
            × (Decimal.le guards.min_risk_reward ratio ≡ true))
        (check_risk_reward guards sl tp)
unfolding check_risk_reward
check_risk_reward-Ensures guards sl tp = elim (Bool-cases (is_positive guards.min_risk_reward)) [
  | inr off ↦ rw off (λ on. cc)
  | inl on ↦ rw on (elim (Option-cases (Decimal.div tp sl)) [
    | inl e ↦ rw e tt
    | inr (ratio, e) ↦ rw e (elim (Bool-cases (Decimal.le guards.min_risk_reward ratio)) [
      | inl l ↦ rw l (λ _. (ratio, refl, l))
      | inr l ↦ rw l tt
    ])
  ])
]

check_fee_cover-Ensures :
    (guards : GuardrailConfig) (entry tp : Decimal)
    → Ensures
        (λ _. is_positive guards.fee_rate ≡ true → Decimal.le (fee_cover guards entry) tp ≡ true)
        (check_fee_cover guards entry tp)
unfolding check_fee_cover
check_fee_cover-Ensures guards entry tp = ground arith

check_bounds-Ensures :
    (atr entry : Decimal) (close : Option Decimal) (sl tp : Decimal)
    → Ensures (λ _. IsInRange entry close sl tp atr) (check_bounds atr entry close sl tp)
unfolding check_bounds
check_bounds-Ensures atr entry close sl tp =
    let P : Unit {0} → Type 0 = λ _. IsInRange entry close sl tp atr in
    Ensures-bind P
      (raise_if (not (is_within (Decimal.literal 5 1) (Decimal.of_ℕ 5) atr sl)) signal_validation) _
      λ _ a.
        Ensures-bind P
          (raise_if (not (is_within (Decimal.literal 5 1) (Decimal.of_ℕ 8) atr tp))
            signal_validation)
          _
          λ _ b. elim (Bool-cases (is_stale atr entry close)) [
            | inl s ↦ rw s tt
            | inr s ↦ rw s (
                let p = raise_if-eq-ok _ signal_validation a in
                let q = raise_if-eq-ok _ signal_validation b in (ground arith, ground arith, refl))
          ]

for_size : (P : Decimal → Type 0) (atr size : Decimal) → some atr ≡ some size → P atr → P size
for_size P atr size e p = subst P (cc) p

check_atr-Ensures :
    (atr : Option Decimal) (entry : Decimal) (close : Option Decimal) (sl tp : Decimal)
    → Ensures
        (λ _.
          (size : Decimal)
          → atr ≡ some size
          → is_positive size ≡ true
          → IsInRange entry close sl tp size)
        (check_atr atr entry close sl tp)
unfolding check_atr
check_atr-Ensures none entry close sl tp = λ size e. cc
check_atr-Ensures (some atr) entry close sl tp = elim (Bool-cases (is_positive atr)) [
  | inr off ↦
      rw off
        λ size e on. absurd (let same = for_size (λ d. is_positive d ≡ false) atr size e off in cc)
  | inl on ↦ rw on (
      Ensures-map _ _ (check_bounds atr entry close sl tp)
        (λ _ h size e p. for_size (IsInRange entry close sl tp) atr size e h)
        (check_bounds-Ensures atr entry close sl tp))
]

pub levels-Ensures :
    (guards : GuardrailConfig) (atr close : Option Decimal) (p : Prices)
    → Ensures
        (λ _. IsWithinLimits guards atr close p)
        (validate_trade_levels p.entry p.stop_loss p.take_profit atr close guards)
unfolding validate_trade_levels
levels-Ensures guards atr close p =
    let P : Unit {0} → Type 0 = λ _. IsWithinLimits guards atr close p in
    let sl = distance p.entry p.stop_loss in
    let tp = distance p.take_profit p.entry in
    Ensures-bind P (check_risk_reward guards sl tp) _ λ u hr.
      Ensures-bind P (check_fee_cover guards p.entry tp) _ λ v hf.
        Ensures-map _ P (check_atr atr p.entry close sl tp)
          (λ w ha. record {
            rewarded =
                Ensures-eq_ok _ (check_risk_reward guards sl tp) u
                  (check_risk_reward-Ensures guards sl tp) hr;
            covered =
                Ensures-eq_ok _ (check_fee_cover guards p.entry tp) v
                  (check_fee_cover-Ensures guards p.entry tp) hf;
            bounded = ha;
          })
          (check_atr-Ensures atr p.entry close sl tp)
