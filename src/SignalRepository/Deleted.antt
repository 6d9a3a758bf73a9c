-- ===== src/SignalRepository/Deleted.antt =====
-- Which rows `delete_signals` deletes.
use tool_trade.Common.{
  ℕ, ◌≡◌, refl, sym, ap, ◌∙◌, subst, inl, inr, Bool, true, false, not, ◌&&◌, ◌||◌, none, List, [],
  ◌∷◌, any, find, select, reject, find-none, if◌then◌else◌, Bool-cases, arith, find-reject_key,
}
use tool_trade.Models.{Signal}
use tool_trade.Result.{is_ok}
use tool_trade.Store.{Db, transaction, Audit}
use tool_trade.SignalRepository.{has_signal_id}
use tool_trade.SignalRepository.Ids.{
  has_id, unique_ids, has_id-sort_ids, has_id-select, has_id-reject, has_id-unique_ids,
}
use tool_trade.SignalRepository.Delete.{
  Deletion, exists_id, open_id, linked_id, deletable_ids, final_ids, deletion, delete_body,
  delete_body_lem, delete_signals, log_refers, missing_ids, locked_ids,
}

-- A requested id that is not OPEN and that nothing of the demo ledger refers to, unless the deletion
-- cascades.
abbrev pub removable : List ℕ → Bool → Db → ℕ → Bool
removable ids cascade db i = has_id ids i && not (open_id db i) && (cascade || not (linked_id db i))

has_id-deletable_ids :
    (u : List ℕ) (db : Db) (i : ℕ)
    → has_id (deletable_ids db u) i ≡ (has_id u i && not (open_id db i) && exists_id db i)
has_id-deletable_ids u db i =
    let doomed = reject (λ j. has_id (locked_ids db u) j || has_id (missing_ids db u) j) u in
    let locked : has_id (locked_ids db u) i ≡ (has_id u i && open_id db i) =
      has_id-sort_ids (select (open_id db) u) i ∙ has_id-select (open_id db) u i in
    let missing : has_id (missing_ids db u) i ≡ (has_id u i && not (exists_id db i)) =
      has_id-sort_ids (reject (exists_id db) u) i ∙ has_id-reject (exists_id db) u i in
    let left = has_id-sort_ids doomed i ∙ has_id-reject _ u i in
    left ∙ ground (arith, locked, missing)

pub has_id-final_ids :
    (u : List ℕ) (cascade : Bool) (db : Db) (i : ℕ)
    → has_id (final_ids cascade db (deletable_ids db u)) i
      ≡ (has_id u i && not (open_id db i) && exists_id db i && (cascade || not (linked_id db i)))
has_id-final_ids u true db i = ground (arith, has_id-deletable_ids u db i)
has_id-final_ids u false db i =
    let kept = reject (linked_id db) (deletable_ids db u) in
    let left = has_id-sort_ids kept i ∙ has_id-reject (linked_id db) (deletable_ids db u) i in
    left ∙ ground (arith, has_id-deletable_ids u db i)

-- What is found under an id after the transaction, where it commits.
deletion-find :
    (ids : List ℕ) (report : Deletion) (audit : Audit) (db : Db) (i : ℕ)
    → is_ok (deletion ids report audit db).0 ≡ true
    → find (has_signal_id i) (deletion ids report audit db).1.signals
      ≡ (if has_id ids i then none else find (has_signal_id i) db.signals)
deletion-find [] report audit db i h = refl
deletion-find (j ∷ js) report audit db i h =
    elim (Bool-cases (any (log_refers (j ∷ js)) db.candle_log)) [
      | inl k ↦ absurd (ground arith)
      | inr k ↦ rw k (find-reject_key (λ (s : Signal). s.id) (has_id (j ∷ js)) db.signals i)
    ]

removable-find :
    (ids : List ℕ) (cascade : Bool) (db : Db) (i : ℕ) (doomed : Bool)
    → doomed
      ≡ (has_id ids i && not (open_id db i) && exists_id db i && (cascade || not (linked_id db i)))
    → (if doomed then none else find (has_signal_id i) db.signals)
      ≡ (if removable ids cascade db i then none else find (has_signal_id i) db.signals)
removable-find ids cascade db i doomed e = elim (Bool-cases (exists_id db i)) [
  | inl there ↦ ground arith
  | inr gone ↦ let absent = find-none (has_signal_id i) db.signals gone in ground arith
]

delete_body-find :
    (unique : List ℕ) (cascade : Bool) (db : Db) (i : ℕ)
    → is_ok (transaction (delete_body unique cascade) db).0 ≡ true
    → find (has_signal_id i) (transaction (delete_body unique cascade) db).1.signals
      ≡ (if removable unique cascade db i then none else find (has_signal_id i) db.signals)
delete_body-find unique cascade db i h =
    let (report, audit, e) = delete_body_lem unique cascade db in
    let committed = ap (λ r. is_ok r.0) (sym e) ∙ h in
    ap (λ r. find (has_signal_id i) r.1.signals) e
    ∙ deletion-find _ report audit db i committed
    ∙ removable-find unique cascade db i _ (has_id-final_ids unique cascade db i)

-- Where `delete_signals` returns, a signal is gone afterwards exactly if its id was asked for, it was
-- not OPEN, and, unless the call cascades, no position or trade referred to it; the row of any other id
-- is as it was.
pub delete_signals-find :
    (ids : List ℕ) (cascade : Bool) (db : Db) (i : ℕ)
    → is_ok (delete_signals ids cascade db).0 ≡ true
    → find (has_signal_id i) (delete_signals ids cascade db).1.signals
      ≡ (if removable ids cascade db i then none else find (has_signal_id i) db.signals)
unfolding delete_signals
delete_signals-find [] cascade db i h = absurd (ground arith)
delete_signals-find (j ∷ js) cascade db i h =
    subst
      (λ b. find (has_signal_id i) (delete_signals (j ∷ js) cascade db).1.signals ≡ (
        if b && not (open_id db i) && (cascade || not (linked_id db i))
        then none
        else find (has_signal_id i) db.signals))
      (has_id-unique_ids (j ∷ js) i) (delete_body-find (unique_ids (j ∷ js)) cascade db i h)
