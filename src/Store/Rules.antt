-- ===== src/Store/Rules.antt =====
-- Rules for what holds after an action that returns, and for what every action keeps.
use tool_trade.Common.{◌≡◌, refl, sym, subst}
use tool_trade.Result.{Result, ok, err}
use tool_trade.Store.{Db, Action, and_then, after_commit}

-- What holds of the value and the tables where the action returns.
abbrev pub Finishes {ℓ} : {A : Type ℓ} → (A → Db → Type 0) → Result A × Db → Type 0
Finishes Q (ok a, db) = Q a db
Finishes Q (err _, db) = Unit

module _ {ℓ κ} {A : Type ℓ} {B : Type κ} (Q : B → Db → Type 0) where
  -- A step that may raise and writes nothing.
  pub Finishes-lift :
      (r : Result A) (f : A → Action B) (db : Db)
      → ((a : A) → r ≡ ok a → Finishes Q (f a db))
      → Finishes Q (and_then (r, db) f)
  Finishes-lift (ok a) f db h = h a refl
  Finishes-lift (err e) f db h = tt

  pub Finishes-and_then :
      (P : A → Db → Type 0) (p : Result A × Db) (f : A → Action B)
      → Finishes P p
      → ((a : A) (db : Db) → P a db → Finishes Q (f a db))
      → Finishes Q (and_then p f)
  Finishes-and_then P (ok a, db) f h k = k a db h
  Finishes-and_then P (err e, db) f h k = tt

-- What holds of a call: it returns as stated, or it raises and has written nothing.
abbrev pub Runs {ℓ} : {A : Type ℓ} → (A → Db → Type 0) → Db → Result A × Db → Type 0
Runs Q db (ok a, db') = Q a db'
Runs Q db (err _, db') = db' ≡ db

pub Runs-lift {ℓ κ} :
    {A : Type ℓ} {B : Type κ} (Q : B → Db → Type 0) (r : Result A) (f : A → Action B) (db : Db)
    → ((a : A) → r ≡ ok a → Runs Q db (f a db))
    → Runs Q db (and_then (r, db) f)
Runs-lift Q (ok a) f db h = h a refl
Runs-lift Q (err e) f db h = refl

-- What holds where the body returns holds after the COMMIT.
pub Runs-commit {ℓ} :
    {A : Type ℓ} (Q : A → Db → Type 0) (db : Db) (p : Result A × Db)
    → Finishes Q p
    → Runs Q db (after_commit db p)
Runs-commit Q db (ok a, db') h = h
Runs-commit Q db (err e, db') h = refl

-- A call that keeps a predicate where it returns keeps it.
pub Runs-keeps {ℓ} :
    {A : Type ℓ} (I : Db → Type 0) (Q : A → Db → Type 0) (db : Db) (p : Result A × Db)
    → I db
    → ((a : A) (db' : Db) → Q a db' → I db')
    → Runs Q db p
    → I p.1
Runs-keeps I Q db (ok a, db') i h r = h a db' r
Runs-keeps I Q db (err e, db') i h r = subst I (sym r) i

module _ {ℓ κ} {A : Type ℓ} {B : Type κ} (I : Db → Type 0) where
  pub keeps-and_then :
      (p : Result A × Db) (f : A → Action B)
      → I p.1
      → ((a : A) → p.0 ≡ ok a → I p.1 → I (f a p.1).1)
      → I (and_then p f).1
  keeps-and_then (ok a, db) f i h = h a refl i
  keeps-and_then (err e, db) f i h = i
