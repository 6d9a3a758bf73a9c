-- ===== src/Common/Tables.antt =====
-- Lemmas on tables: lists of rows that are counted, found, updated and filtered.
use Prim.Native.Nat.{ℕ, ◌+◌, ◌≤◌}
use mathlib.Core.Path.{◌≡◌, refl, subst}
use mathlib.Core.Logic.{◌≢◌, inl, inr}
use mathlib.Core.Bool.{Bool, true, false}
use mathlib.Core.List.{List, [], ◌∷◌, ◌++◌}
use mathlib.Core.Option
use mathlib.Core.Option.{none, some}
use native.Mathlib.Omega.{arith}
use tool_trade.Common.Tests.{if◌then◌else◌, ◌==◌, Bool-cases, Option-cases}
use tool_trade.Common.Lists.{reject, find, any, count, update_where, All, All-map}

module _ {ℓ} {A : Type ℓ} (p : A → Bool) where
  pub count-append : (xs ys : List A) → count p (xs ++ ys) ≡ count p xs + count p ys
  count-append [] ys = omega arith
  count-append (x ∷ xs) ys = omega (arith, count-append xs ys)

  pub count_zero : (xs : List A) → any p xs ≡ false → count p xs ≡ 0
  count_zero [] h = refl
  count_zero (x ∷ xs) h = ground (arith, count_zero xs)

  pub count-reject-le : (q : A → Bool) (xs : List A) → count p (reject q xs) ≤ count p xs
  count-reject-le q [] = omega arith
  count-reject-le q (x ∷ xs) = ground (arith, count-reject-le q xs)

  -- An update that lets no new row pass the test does not raise the count.
  pub count-update_where-le :
      (q : A → Bool) (f : A → A) (xs : List A)
      → All (λ x. q x ≡ true → p (f x) ≡ true → p x ≡ true) xs
      → count p (update_where q f xs) ≤ count p xs
  count-update_where-le q f [] h = omega arith
  count-update_where-le q f (x ∷ xs) h = ground (arith, h.0, count-update_where-le q f xs h.1)

  -- No row passes where none is counted.
  pub All-of_count_zero : (xs : List A) → count p xs ≡ 0 → All (λ x. p x ≡ false) xs
  All-of_count_zero [] h = tt
  All-of_count_zero (x ∷ xs) h = ground (arith, All-of_count_zero xs)

  -- A row that is found passes the test.
  pub find-passes : (xs : List A) (c : A) → find p xs ≡ some c → p c ≡ true
  find-passes [] c h = cc
  find-passes (x ∷ xs) c h = ground (arith, find-passes xs c)

  pub find-none : (xs : List A) → any p xs ≡ false → find p xs ≡ none
  find-none [] h = refl
  find-none (x ∷ xs) h = ground (arith, find-none xs)

  pub any-of_none : (xs : List A) → find p xs ≡ none → any p xs ≡ false
  any-of_none [] h = refl
  any-of_none (x ∷ xs) h = ground (arith, any-of_none xs)

  pub count_of_none : (xs : List A) → find p xs ≡ none → count p xs ≡ 0
  count_of_none [] h = refl
  count_of_none (x ∷ xs) h = ground (arith, count_of_none xs)

  -- Where a test passes once at most, a row that passes is the one found.
  pub find_unique :
      (xs : List A) (c : A) → count p xs ≤ 1 → find p xs ≡ some c → All (λ x. p x ≡ true → x ≡ c) xs
  find_unique [] c u h = tt
  find_unique (x ∷ xs) c u h = elim (Bool-cases (p x)) [
    | inl e ↦
        let none_left : count p xs ≡ 0 = ground arith in
        (
          λ _. ground arith,
          All-map (λ y. p y ≡ false) (λ y. p y ≡ true → y ≡ c) xs (λ y f t. cc)
              (All-of_count_zero xs none_left),
        )
    | inr e ↦ (λ t. cc, find_unique xs c (ground arith) (ground arith))
  ]

  pub count_one_of_any : (xs : List A) → any p xs ≡ true → 1 ≤ count p xs
  count_one_of_any [] h = cc
  count_one_of_any (x ∷ xs) h = ground (arith, count_one_of_any xs)

module _ {ℓ κ} {A : Type ℓ} (P : A → Type κ) where
  pub All-update_where :
      (q : A → Bool) (f : A → A) (xs : List A)
      → All (λ x. q x ≡ true → P x → P (f x)) xs
      → All P xs
      → All P (update_where q f xs)
  All-update_where q f [] h a = tt
  All-update_where q f (x ∷ xs) h a = elim (Bool-cases (q x)) [
    | inl e ↦ rw e (h.0 e a.0, All-update_where q f xs h.1 a.1)
    | inr e ↦ rw e (a.0, All-update_where q f xs h.1 a.1)
  ]

  pub All-reject : (q : A → Bool) (xs : List A) → All P xs → All P (reject q xs)
  All-reject q [] a = tt
  All-reject q (x ∷ xs) a = elim (Bool-cases (q x)) [
    | inl e ↦ rw e (All-reject q xs a.1)
    | inr e ↦ rw e (a.0, All-reject q xs a.1)
  ]

  pub All-find : (q : A → Bool) (xs : List A) (c : A) → All P xs → find q xs ≡ some c → P c
  All-find q [] c a h = cc
  All-find q (x ∷ xs) c a h = elim (Bool-cases (q x)) [
    | inl e ↦ let same : x ≡ c = ground arith in subst P same a.0
    | inr e ↦ All-find q xs c a.1 (ground arith)
  ]

module _ {ℓ} {A : Type ℓ} (p q : A → Bool) where
  -- A row of the table that passes a test that passes once at most is the one that the test finds.
  pub find-unique_row :
      (xs : List A) (c : A) → count p xs ≤ 1 → find q xs ≡ some c → p c ≡ true → find p xs ≡ some c
  find-unique_row xs c once row passes = elim (Option-cases (find p xs)) [
    | inl e ↦
        let none_left = All-of_count_zero p xs (count_of_none p xs e) in
        absurd (let fails = All-find (λ x. p x ≡ false) q xs c none_left row in cc)
    | inr (d, e) ↦
        let same : c ≡ d =
          All-find (λ x. p x ≡ true → x ≡ d) q xs c (find_unique p xs d once e) row passes in
        rw same e
  ]

module _ {ℓ} {A : Type ℓ} (p : A → Bool) where
  -- A row that is appended is found where none was before.
  pub find-append :
      (xs : List A) (y : A) → count p xs ≡ 0 → p y ≡ true → find p (xs ++ (y ∷ [])) ≡ some y
  find-append [] y z h = ground arith
  find-append (x ∷ xs) y z h = ground (arith, find-append xs y)

  -- After the update of the rows that pass, what is found is the updated row, if it still passes.
  pub find-update_where :
      (f : A → A) (xs : List A) (c : A)
      → p (f c) ≡ true
      → find p xs ≡ some c
      → find p (update_where p f xs) ≡ some (f c)
  find-update_where f [] c k h = cc
  find-update_where f (x ∷ xs) c k h = elim (Bool-cases (p x)) [
    | inl e ↦ let same : x ≡ c = ground arith in rw (e, same, k) refl
    | inr e ↦ rw (e, e) (find-update_where f xs c k (ground arith))
  ]

-- Rows found by a key.
module _ {ℓ} {A : Type ℓ} (key : A → ℕ) where
  abbrev pub by_key : ℕ → A → Bool
  by_key i x = key x == i

  pub find-append_ne :
      (xs : List A) (y : A) (i : ℕ)
      → key y ≢ i
      → find (by_key i) (xs ++ (y ∷ [])) ≡ find (by_key i) xs
  find-append_ne [] y i h = ground arith
  find-append_ne (x ∷ xs) y i h = ground (arith, find-append_ne xs y i)

  -- An update of the rows of one key, which keeps the key, changes what is found there alone.
  pub find-update_key :
      (f : A → A)
      → ((x : A) → key (f x) ≡ key x)
      → (xs : List A) (i j : ℕ)
      → find (by_key j) (update_where (by_key i) f xs)
        ≡ (if i == j then Option.map f (find (by_key j) xs) else find (by_key j) xs)
  find-update_key f k [] i j = ground arith
  find-update_key f k (x ∷ xs) i j = ground (arith, k x, find-update_key f k xs i j)

  pub find-reject_key :
      (q : ℕ → Bool) (xs : List A) (j : ℕ)
      → find (by_key j) (reject (λ x. q (key x)) xs) ≡ (if q j then none else find (by_key j) xs)
  find-reject_key q [] j = ground arith
  find-reject_key q (x ∷ xs) j = ground (arith, find-reject_key q xs j)

  pub find-key : (xs : List A) (i : ℕ) (c : A) → find (by_key i) xs ≡ some c → key c ≡ i
  find-key [] i c h = cc
  find-key (x ∷ xs) i c h = ground (arith, find-key xs i c)

module _ {ℓ κ} {A : Type ℓ} (P : A → Type κ) where
  -- An update gives a predicate where each row that passes gets it and each other row has it.
  pub All-update_split :
      (q : A → Bool) (f : A → A) (xs : List A)
      → All (λ x. (q x ≡ true → P (f x)) × (q x ≡ false → P x)) xs
      → All P (update_where q f xs)
  All-update_split q f [] h = tt
  All-update_split q f (x ∷ xs) h = elim (Bool-cases (q x)) [
    | inl e ↦ rw e (h.0.0 e, All-update_split q f xs h.1)
    | inr e ↦ rw e (h.0.1 e, All-update_split q f xs h.1)
  ]

module _ {ℓ κ μ} {A : Type ℓ} (P : A → Type κ) (Q : A → Type μ) where
  pub All-both : (xs : List A) → All P xs → All Q xs → All (λ x. P x × Q x) xs
  All-both [] h k = tt
  All-both (x ∷ xs) h k = ((h.0, k.0), All-both xs h.1 k.1)
