-- ===== src/SignalRepository/Ids.antt =====
-- Lists of ids as `delete_signals` handles them: `dict.fromkeys`, `sorted`, and sets.
use tool_trade.Common.{
  ℕ, ◌≡◌, refl, Bool, false, not, ◌&&◌, ◌||◌, List, [], ◌∷◌, ◌==◌, leb, if◌then◌else◌, select,
  reject, arith,
}

-- `i in ids`
abbrev pub has_id : List ℕ → ℕ → Bool
has_id [] i = false
has_id (j ∷ js) i = j == i || has_id js i

-- `list(dict.fromkeys(ids))`: each id once.
unfoldable pub unique_ids : List ℕ → List ℕ
unique_ids [] = []
unique_ids (i ∷ is) = i ∷ reject (λ j. j == i) (unique_ids is)

unfoldable pub insert_id : ℕ → List ℕ → List ℕ
insert_id i [] = i ∷ []
insert_id i (j ∷ js) = let rest = insert_id i js in if leb i j then i ∷ j ∷ js else j ∷ rest

-- `sorted(ids)`
unfoldable pub sort_ids : List ℕ → List ℕ
unfolding insert_id
sort_ids [] = []
sort_ids (i ∷ is) = insert_id i (sort_ids is)

has_id-insert_id :
    (i : ℕ) (js : List ℕ) (k : ℕ) → has_id (insert_id i js) k ≡ (i == k || has_id js k)
unfolding insert_id
has_id-insert_id i [] k = ground arith
has_id-insert_id i (j ∷ js) k = ground (arith, has_id-insert_id i js k)

pub has_id-sort_ids : (is : List ℕ) (k : ℕ) → has_id (sort_ids is) k ≡ has_id is k
unfolding sort_ids
has_id-sort_ids [] k = refl
has_id-sort_ids (i ∷ is) k =
    ground (arith, has_id-insert_id i (sort_ids is) k, has_id-sort_ids is k)

pub has_id-select :
    (p : ℕ → Bool) (is : List ℕ) (k : ℕ) → has_id (select p is) k ≡ (has_id is k && p k)
has_id-select p [] k = refl
has_id-select p (i ∷ is) k = ground (arith, has_id-select p is k)

pub has_id-reject :
    (p : ℕ → Bool) (is : List ℕ) (k : ℕ) → has_id (reject p is) k ≡ (has_id is k && not (p k))
has_id-reject p [] k = refl
has_id-reject p (i ∷ is) k = ground (arith, has_id-reject p is k)

pub has_id-unique_ids : (is : List ℕ) (k : ℕ) → has_id (unique_ids is) k ≡ has_id is k
unfolding unique_ids
has_id-unique_ids [] k = refl
has_id-unique_ids (i ∷ is) k =
    ground (arith, has_id-reject (λ j. j == i) (unique_ids is) k, has_id-unique_ids is k)
