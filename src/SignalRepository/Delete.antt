-- ===== src/SignalRepository/Delete.antt =====
-- `delete_signals` and `delete_all_signals`.
use tool_trade.Common.{
  ℕ, Bool, true, false, ◌&&◌, ◌||◌, none, some, List, [], ◌∷◌, map, ◌==◌, if◌then◌else◌, select,
  reject, any, length, ◌≡◌, refl, ap, ◌∙◌, inl, inr, Bool-cases,
}
use tool_trade.Models.{open_, status_eq, Signal}
use tool_trade.Result.{ok, err, signal_validation, sqlite_constraint}
use tool_trade.Store.{Db, Action, Audit, LogRow, transaction, after_commit, ◌>>=◌, pure, raise}
use tool_trade.SignalRepository.Ids.{has_id, unique_ids, sort_ids}

pub record Deletion : Type 0 where
  pub deleted : List ℕ
  pub skipped_open : List ℕ
  pub skipped_linked : List ℕ
  pub missing : List ℕ

abbrev pub is_empty_list {ℓ} : {A : Type ℓ} → List A → Bool
is_empty_list [] = true
is_empty_list (_ ∷ _) = false

abbrev pub exists_id : Db → ℕ → Bool
exists_id db i = any (λ s. s.id == i) db.signals

abbrev pub open_id : Db → ℕ → Bool
open_id db i = any (λ s. s.id == i && status_eq s.status open_) db.signals

-- A position or a trade refers to the signal.
abbrev pub linked_id : Db → ℕ → Bool
linked_id db i = any (λ p. p.signal_id == i) db.positions || any (λ t. t.signal_id == i) db.trades

abbrev pub log_refers : List ℕ → LogRow → Bool
log_refers ids r = elim r.signal_id [ none ↦ false | some i ↦ has_id ids i ]

abbrev pub without_rows : List ℕ → Audit → Db → Db
without_rows ids audit db = record db {
  signals = reject (λ s. has_id ids s.id) db.signals;
  positions = reject (λ p. has_id ids p.signal_id) db.positions;
  trades = reject (λ t. has_id ids t.signal_id) db.trades;
  audits = audit ∷ db.audits;
}

-- The four statements that delete, the last but one under the foreign key of `candle_log`.
unfoldable pub delete_rows : List ℕ → Audit → Action (Unit {0})
delete_rows ids audit db =
    if any (log_refers ids) db.candle_log
    then (err sqlite_constraint, db)
    else (ok tt, without_rows ids audit db)

-- The requested ids that no row has, those of OPEN rows, and the rest.
abbrev pub missing_ids : Db → List ℕ → List ℕ
missing_ids db unique = sort_ids (reject (exists_id db) unique)

abbrev pub locked_ids : Db → List ℕ → List ℕ
locked_ids db unique = sort_ids (select (open_id db) unique)

abbrev pub deletable_ids : Db → List ℕ → List ℕ
deletable_ids db unique =
    sort_ids
      (reject (λ i. has_id (locked_ids db unique) i || has_id (missing_ids db unique) i) unique)

abbrev pub skipped_ids : Bool → Db → List ℕ → List ℕ
skipped_ids true db ids = []
skipped_ids false db ids = select (linked_id db) ids

abbrev pub final_ids : Bool → Db → List ℕ → List ℕ
final_ids true db ids = ids
final_ids false db ids = sort_ids (reject (linked_id db) ids)

-- The deletion of the ids that are left, where any are, and the report.
unfoldable pub delete_ids : List ℕ → Deletion → Audit → Action Deletion
unfolding delete_rows
delete_ids ids report audit db =
    if is_empty_list ids then (ok report, db) else (delete_rows ids audit >>= λ _. pure report) db

-- The body of the transaction, over the ids without repetition.
unfoldable pub delete_body : List ℕ → Bool → Action Deletion
delete_body unique cascade db =
    let deletable = deletable_ids db unique in
    let locked = locked_ids db unique in
    let missing = missing_ids db unique in
    let skipped = skipped_ids cascade db deletable in
    let ids = final_ids cascade db deletable in
    let report : Deletion = record {
      deleted = ids;
      skipped_open = locked;
      skipped_linked = skipped;
      missing = missing;
    } in
    let audit : Audit = record {
      deleted = length ids;
      skipped_open = length locked;
      missing = length missing;
      linked = length skipped;
    } in
    delete_ids ids report audit db

-- The ids have been converted to integers; none of them is negative.
unfoldable pub delete_signals : List ℕ → Bool → Action Deletion
delete_signals [] cascade = raise signal_validation
delete_signals (i ∷ is) cascade = transaction (delete_body (unique_ids (i ∷ is)) cascade)

unfoldable pub delete_all_signals : Bool → Action Deletion
unfolding delete_signals
delete_all_signals cascade db =
    let is_open : Signal → Bool = λ s. status_eq s.status open_ in
    let open_ids = sort_ids (map (λ s. s.id) (select is_open db.signals)) in
    let deletable = sort_ids (map (λ s. s.id) (reject is_open db.signals)) in
    if is_empty_list deletable
    then (
      ok (record { deleted = []; skipped_open = open_ids; skipped_linked = []; missing = [] }),
      db,
    )
    else (delete_signals deletable cascade >>= λ r. pure (record r { skipped_open = open_ids })) db

-- What the transaction around the deletion does: nothing where no id is left, an error that the
-- `candle_log` foreign key raises where a row of it refers to one, and else the deletion.
abbrev pub deletion : List ℕ → Deletion → Audit → Action Deletion
deletion ids report audit db =
    if is_empty_list ids
    then (ok report, db)
    else if any (log_refers ids) db.candle_log
    then (err sqlite_constraint, db)
    else (ok report, without_rows ids audit db)

-- The statements alone, which raise after no write.
delete_ids_lem :
    (ids : List ℕ) (report : Deletion) (audit : Audit) (db : Db)
    → delete_ids ids report audit db ≡ deletion ids report audit db
unfolding delete_ids delete_rows
delete_ids_lem ids report audit db = elim (Bool-cases (is_empty_list ids)) [
  | inl e ↦ rw e refl
  | inr e ↦ elim (Bool-cases (any (log_refers ids) db.candle_log)) [
    | inl k ↦ rw (e, ◌>>=◌, delete_rows, k) refl
    | inr k ↦ rw (e, ◌>>=◌, delete_rows, k) refl
  ]
]

deletion-transaction :
    (ids : List ℕ) (report : Deletion) (audit : Audit) (db : Db)
    → transaction (deletion ids report audit) db ≡ deletion ids report audit db
deletion-transaction ids report audit db = elim (Bool-cases (is_empty_list ids)) [
  | inl e ↦ rw (transaction, e) refl
  | inr e ↦ elim (Bool-cases (any (log_refers ids) db.candle_log)) [
    | inl k ↦ rw (transaction, e, k) refl
    | inr k ↦ rw (transaction, e, k) refl
  ]
]

-- `delete_signals` deletes the requested ids that are neither missing nor OPEN.
pub delete_body_lem :
    (unique : List ℕ) (cascade : Bool) (db : Db)
    → (report : Deletion) × (audit : Audit) × (transaction (delete_body unique cascade) db
        ≡ deletion (final_ids cascade db (deletable_ids db unique)) report audit db)
unfolding delete_body
delete_body_lem unique cascade db =
    let ids = final_ids cascade db (deletable_ids db unique) in
    (_, _, ap (after_commit db) (delete_ids_lem ids _ _ db) ∙ deletion-transaction ids _ _ db)
