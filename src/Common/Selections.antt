-- ===== src/Common/Selections.antt =====
-- Lemmas on the rows that pass a test, in either order.
use Prim.Native.Nat.{ℕ, zero, suc, ◌≤◌}
use mathlib.Core.Path.{◌≡◌, refl, ap}
use mathlib.Core.Logic.{inl, inr}
use mathlib.Core.Bool.{Bool, true, false, ◌&&◌}
use mathlib.Core.Option.{some}
use mathlib.Core.List
use mathlib.Core.List.{List, [], ◌∷◌, ◌++◌, reverse}
use native.Mathlib.Omega.{arith}
use tool_trade.Common.Tests.{Bool-cases}
use tool_trade.Common.Lists.{length, take, select, reject, find, count, length-append}

module _ {ℓ} {A : Type ℓ} where
  pub take_all : (n : ℕ) (xs : List A) → length xs ≤ n → take n xs ≡ xs
  take_all zero [] h = refl
  take_all zero (x ∷ xs) h = absurd (omega arith)
  take_all (suc n) [] h = refl
  take_all (suc n) (x ∷ xs) h = ap (λ r. x ∷ r) (take_all n xs (omega arith))

  pub length-reverse : (xs : List A) → length (reverse xs) ≡ length xs
  length-reverse [] = refl
  length-reverse (x ∷ xs) =
      rw (List.reverse-cons x xs, length-append (reverse xs) (x ∷ []))
        (omega (arith, length-reverse xs))

  pub select_congr :
      (p q : A → Bool) → ((x : A) → p x ≡ q x) → (xs : List A) → select p xs ≡ select q xs
  select_congr p q h [] = refl
  select_congr p q h (x ∷ xs) = rw (h x, select_congr p q h xs) refl

module _ {ℓ} {A : Type ℓ} (p : A → Bool) where
  pub select-append : (xs ys : List A) → select p (xs ++ ys) ≡ select p xs ++ select p ys
  select-append [] ys = refl
  select-append (x ∷ xs) ys = ground (arith, select-append xs ys)

  pub select-reverse : (xs : List A) → select p (reverse xs) ≡ reverse (select p xs)
  select-reverse [] = refl
  select-reverse (x ∷ xs) =
      let split = select-append (reverse xs) (x ∷ []) in
      elim (Bool-cases (p x)) [
        | inl e ↦
            rw
              (
                List.reverse-cons x xs,
                split,
                select-reverse xs,
                e,
                List.reverse-cons x (select p xs),
              )
              refl
        | inr e ↦
            rw (List.reverse-cons x xs, split, select-reverse xs, e)
              (List.append-nil (reverse (select p xs)))
      ]

  pub select-select :
      (q : A → Bool) (xs : List A) → select p (select q xs) ≡ select (λ x. q x && p x) xs
  select-select q [] = refl
  select-select q (x ∷ xs) = ground (arith, select-select q xs)

  pub select_none : (xs : List A) → count p xs ≡ 0 → select p xs ≡ []
  select_none [] h = refl
  select_none (x ∷ xs) h = ground (arith, select_none xs)

  -- A test that one row passes at most selects the row that is found.
  pub select_unique :
      (xs : List A) (c : A) → count p xs ≤ 1 → find p xs ≡ some c → select p xs ≡ c ∷ []
  select_unique [] c few h = cc
  select_unique (x ∷ xs) c few h = ground (arith, select_unique xs c, select_none xs)

-- What is rejected by a test that selected rows fail is not selected.
pub select-reject {ℓ} :
    {A : Type ℓ} (p q : A → Bool)
    → ((x : A) → p x ≡ true → q x ≡ false)
    → (xs : List A) → select p (reject q xs) ≡ select p xs
select-reject p q apart [] = refl
select-reject p q apart (x ∷ xs) = ground (arith, apart x, select-reject p q apart xs)
