-- ===== src/SignalRepository/History.antt =====
-- What a later state of the `signals` table keeps of an earlier one.
use native.Mathlib.Nat.{le_trans}
use tool_trade.Common.{
  ℕ, ◌≤◌, ◌<◌, ◌≡◌, ◌≢◌, sym, ap, ◌∙◌, subst, inl, inr, false, none, some, List, [], ◌∷◌, ◌++◌,
  find, reject, arith, Bool-cases, Option-cases, ◌==◌, All-find, find-key, find-append_ne,
  find-update_key, find-reject_key,
}
use tool_trade.Models.{Signal, is_active, pending_entry}
use tool_trade.Store.{Db}
use tool_trade.SignalRepository.{has_signal_id}
use tool_trade.SignalRepository.Calls.{IsTable, with_new, with_row}
use tool_trade.SignalRepository.Ids.{has_id}

-- What a signal keeps for life: what it trades and at which levels. One that is closed keeps all, and
-- one that is open never waits for its entry again.
abbrev pub IsSame : Signal → Signal → Type 0
IsSame s s' =
    (s'.symbol ≡ s.symbol)
    × (s'.direction ≡ s.direction)
    × (s'.entry ≡ s.entry)
    × (s'.stop_loss ≡ s.stop_loss)
    × (s'.take_profit ≡ s.take_profit)
    × (is_active s.status ≡ false → s' ≡ s)
    × (s'.status ≡ pending_entry → s.status ≡ pending_entry)

some-ne-none : (u : Signal) → some u ≢ none
some-ne-none u e = cc

-- What holds between a state of the table and any later one: ids are not used again, and a signal
-- that is in both is the same.
pub record IsLater (db db' : Db) : Type 0 where
  pub next_le : db.next_signal ≤ db'.next_signal
  pub gone :
      (i : ℕ)
      → i < db.next_signal
      → find (has_signal_id i) db.signals ≡ none
      → find (has_signal_id i) db'.signals ≡ none
  pub kept :
      (i : ℕ) (s s' : Signal)
      → find (has_signal_id i) db.signals ≡ some s
      → find (has_signal_id i) db'.signals ≡ some s'
      → IsSame s s'

IsSame-refl : (s s' : Signal) → s' ≡ s → IsSame s s'
IsSame-refl s s' e = ground arith

IsSame-trans : (s t u : Signal) → IsSame s t → IsSame t u → IsSame s u
IsSame-trans s t u h k = (
  k.0 ∙ h.0,
  k.1 ∙ h.1,
  k.2 ∙ h.2,
  k.3 ∙ h.3,
  k.4 ∙ h.4,
  λ e. let same : t ≡ s = h.5 e in k.5 (rw same e) ∙ same,
  λ e. h.6 (k.6 e),
)

-- A row that is in the table has an id below the next one.
found-lt :
    (db : Db) (i : ℕ) (s : Signal)
    → IsTable db
    → find (has_signal_id i) db.signals ≡ some s
    → i < db.next_signal
found-lt db i s v h =
    let below : s.id < db.next_signal =
      All-find (λ x. x.id < db.next_signal) (has_signal_id i) db.signals s v.fresh h in
    rw (find-key (λ (x : Signal). x.id) db.signals i s h) at below

pub IsLater-refl : (db : Db) → IsLater db db
IsLater-refl db = record {
  next_le = omega arith;
  gone = λ i h e. e;
  kept = λ i s s' h k. IsSame-refl s s' (ground arith);
}

pub IsLater-trans : (a b c : Db) → IsTable a → IsLater a b → IsLater b c → IsLater a c
IsLater-trans a b c v h k = record {
  next_le = omega (arith, h.next_le, k.next_le);
  gone = λ i lt e. k.gone i (omega (arith, h.next_le)) (h.gone i lt e);
  kept = λ i s u hs hu. elim (Option-cases (find (has_signal_id i) b.signals)) [
    | inl none_there ↦
        let missing = k.gone i (le_trans (found-lt a i s v hs) h.next_le) none_there in
        absurd (some-ne-none u (sym hu ∙ missing))
    | inr (t, ht) ↦ IsSame-trans s t u (h.kept i s t hs ht) (k.kept i t u ht hu)
  ];
}

-- Inserting a row with the next id.
pub insert-IsLater :
    (db : Db) (new : Signal) → IsTable db → new.id ≡ db.next_signal → IsLater db (with_new db new)
insert-IsLater db new v e =
    let elsewhere : (i : ℕ)
        → i < db.next_signal
        → find (has_signal_id i) (db.signals ++ (new ∷ [])) ≡ find (has_signal_id i) db.signals =
      λ i lt. find-append_ne (λ (x : Signal). x.id) db.signals new i (omega arith) in
    record {
      next_le = omega arith;
      gone = λ i lt n. elsewhere i lt ∙ n;
      kept = λ i s s' hs hs'.
          let same = sym hs' ∙ elsewhere i (found-lt db i s v hs) ∙ hs in
          IsSame-refl s s' (ground arith);
    }

-- Rewriting the row that was read, where the new row is the same signal.
pub update-IsLater :
    (db : Db) (i : ℕ) (f : Signal → Signal) (current : Signal)
    → ((x : Signal) → (f x).id ≡ x.id)
    → find (has_signal_id i) db.signals ≡ some current
    → IsSame current (f current)
    → IsLater db (with_row db i f)
update-IsLater db i f current k found same =
    let at : (j : ℕ) → _ = find-update_key (λ (x : Signal). x.id) f k db.signals i in
    record {
      next_le = omega arith;
      gone = λ j lt n. ground (arith, at j);
      kept = λ j s s' hs hs'. elim (Bool-cases (i == j)) [
        | inl e ↦
            let ij : i ≡ j = ground arith in
            let old : current ≡ s =
              ground (arith, ap (λ n. find (has_signal_id n) db.signals) ij) in
            let new : f current ≡ s' =
              ground (arith, at j, ap (λ n. find (has_signal_id n) db.signals) ij) in
            subst (λ x. IsSame x s') old (subst (λ y. IsSame current y) new same)
        | inr e ↦ IsSame-refl s s' (ground (arith, at j))
      ];
    }

-- Deleting rows.
pub delete-IsLater :
    (db db' : Db) (ids : List ℕ)
    → db'.signals ≡ reject (λ s. has_id ids s.id) db.signals
    → db'.next_signal ≡ db.next_signal
    → IsLater db db'
delete-IsLater db db' ids e n =
    let at : (j : ℕ) → _ = find-reject_key (λ (x : Signal). x.id) (has_id ids) db.signals in
    record {
      next_le = omega arith;
      gone = λ j lt z. rw e (ground (arith, at j));
      kept = λ j s s' hs hs'. let hs'' = rw e at hs' in IsSame-refl s s' (ground (arith, at j));
    }

-- A later state of the table that is valid too.
abbrev pub Evolves : Db → Db → Type 0
Evolves db db' = IsTable db' × IsLater db db'

pub Evolves-same : (db db' : Db) → IsTable db → db' ≡ db → Evolves db db'
Evolves-same db db' v e = rw e (v, IsLater-refl db)

-- What keeps valid tables valid and every signal's history.
abbrev pub IsFair : (Db → Db) → Type 0
IsFair f = (db : Db) → IsTable db → Evolves db (f db)

pub Evolves-trans : (a b c : Db) → IsTable a → Evolves a b → (IsTable b → Evolves b c) → Evolves a c
Evolves-trans a b c w (v, later) h =
    let (v', later') = h v in (v', IsLater-trans a b c w later later')
