-- ===== src/Result.antt =====
-- The exceptions of the program, by class, and a call's result. The texts of the messages are not kept.
use tool_trade.Common.{
  ◌≡◌, refl, sym, ◌∙◌, subst, ◌⊎◌, inl, inr, Bool, true, false, Option, none, some, arith,
}

pub data Error : Type 0 where
  signal_validation signal_not_found signal_exists invalid_transition : Error
  invalid_symbol invalid_interval : Error
  malformed_kline empty_kline client_error unexpected : Error
  demo_calculation demo_config demo_validation demo_not_found demo_duplicate : Error
  division_by_zero invalid_operation backtest_execution backtest_config backtest_data
        backtest_metric sqlite_constraint :
      Error

pub data Result {ℓ} (A : Type ℓ) : Type ℓ where
  ok : A → Result A
  err : Error → Result A

infixl 5 ◌>>=◌ ◌>>◌
-- Statements in a row: an exception skips the rest.
abbrev pub ◌>>=◌ {ℓ κ} : {A : Type ℓ} {B : Type κ} → Result A → (A → Result B) → Result B
err x >>= rest = err x
ok value >>= rest = rest value

abbrev pub ◌>>◌ {ℓ} : {B : Type ℓ} → Result (Unit {0}) → Result B → Result B
first >> rest = first >>= λ _. rest

-- `if test: raise e`
abbrev pub raise_if : Bool → Error → Result (Unit {0})
raise_if true e = err e
raise_if false e = ok tt

abbrev pub or_raise {ℓ} : {A : Type ℓ} → Option A → Error → Result A
or_raise none e = err e
or_raise (some a) e = ok a

pub or_raise-eq_ok {ℓ} :
    {A : Type ℓ} (o : Option A) (e : Error) (a : A) → or_raise o e ≡ ok a → o ≡ some a
or_raise-eq_ok none e a h = cc
or_raise-eq_ok (some b) e a h = cc

-- `try: … except … as exc: raise e from exc`
abbrev pub reraise {ℓ} : {A : Type ℓ} → Result A → Error → Result A
reraise (ok a) e = ok a
reraise (err _) e = err e

-- `f(x) if x is not None else None`
abbrev pub on_given {ℓ κ} :
    {A : Type ℓ} {B : Type κ} → (A → Result B) → Option A → Result (Option B)
on_given f none = ok none
on_given f (some a) = f a >>= λ b. ok (some b)

abbrev pub is_ok {ℓ} : {A : Type ℓ} → Result A → Bool
is_ok (ok _) = true
is_ok (err _) = false

-- What holds of a result's value, where there is one.
abbrev pub Ensures {ℓ κ} : {A : Type ℓ} → (A → Type κ) → Result A → Type κ
Ensures P (ok a) = P a
Ensures P (err e) = Unit

pub Ensures-eq_ok {ℓ κ} :
    {A : Type ℓ} (P : A → Type κ) (r : Result A) (a : A) → Ensures P r → r ≡ ok a → P a
Ensures-eq_ok P (ok b) a h e = let same : b ≡ a = ground arith in subst P same h
Ensures-eq_ok P (err _) a h e = absurd (cc e)

pub Ensures-always {ℓ κ} :
    {A : Type ℓ} (P : A → Type κ) (r : Result A) → ((a : A) → P a) → Ensures P r
Ensures-always P (ok a) h = h a
Ensures-always P (err e) h = tt

pub Ensures-bind {ℓ κ μ} :
    {A : Type ℓ} {B : Type κ} (P : B → Type μ) (m : Result A) (f : A → Result B)
    → ((a : A) → m ≡ ok a → Ensures P (f a))
    → Ensures P (m >>= f)
Ensures-bind P (ok a) f h = h a refl
Ensures-bind P (err e) f h = tt

pub Ensures-reraise {ℓ κ} :
    {A : Type ℓ} (P : A → Type κ) (r : Result A) (e : Error) → Ensures P r → Ensures P (reraise r e)
Ensures-reraise P (ok a) e h = h
Ensures-reraise P (err x) e h = tt

pub Result-cases {ℓ} :
    {A : Type ℓ} (r : Result A) → ((a : A) × (r ≡ ok a)) ⊎ ((e : Error) × (r ≡ err e))
Result-cases (ok a) = inl (a, refl)
Result-cases (err e) = inr (e, refl)

pub raise_if-eq-ok : (b : Bool) (e : Error) {u : Unit {0}} → raise_if b e ≡ ok u → b ≡ false
raise_if-eq-ok true e h = cc
raise_if-eq-ok false e h = refl

pub Ensures-map {ℓ κ μ} :
    {A : Type ℓ} (P : A → Type κ) (Q : A → Type μ) (r : Result A)
    → ((a : A) → P a → Q a)
    → Ensures P r
    → Ensures Q r
Ensures-map P Q (ok a) f h = f a h
Ensures-map P Q (err e) f h = tt

pub raise_if-Ensures {κ} :
    (b : Bool) (e : Error) (Q : Type κ) → (b ≡ false → Q) → Ensures (λ _. Q) (raise_if b e)
raise_if-Ensures true e Q f = tt
raise_if-Ensures false e Q f = f refl

-- No exception but that one.
abbrev pub RaisesOnly {ℓ} : {A : Type ℓ} → Error → Result A → Type 0
RaisesOnly e (ok _) = Unit
RaisesOnly e (err x) = x ≡ e

pub RaisesOnly-bind {ℓ κ} :
    {A : Type ℓ} {B : Type κ} (e : Error) (m : Result A) (f : A → Result B)
    → RaisesOnly e m
    → ((a : A) → m ≡ ok a → RaisesOnly e (f a))
    → RaisesOnly e (m >>= f)
RaisesOnly-bind e (ok a) f h k = k a refl
RaisesOnly-bind e (err x) f h k = h

pub raise_if-RaisesOnly : (b : Bool) (e : Error) → RaisesOnly e (raise_if b e)
raise_if-RaisesOnly true e = refl
raise_if-RaisesOnly false e = tt

pub or_raise-RaisesOnly {ℓ} : {A : Type ℓ} (o : Option A) (e : Error) → RaisesOnly e (or_raise o e)
or_raise-RaisesOnly none e = refl
or_raise-RaisesOnly (some a) e = tt

pub RaisesOnly-eq_err {ℓ} :
    {A : Type ℓ} (e : Error) (r : Result A) (x : Error) → RaisesOnly e r → r ≡ err x → x ≡ e
RaisesOnly-eq_err e (ok a) x h k = absurd (cc k)
RaisesOnly-eq_err e (err y) x h k = let same : y ≡ x = ground arith in sym same ∙ h
