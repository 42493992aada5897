-- ===== src/Db/Store/Atomicity.antt =====
-- `transaction` of zarabot/db/connection.py when it raises, and rules for what a transaction keeps.
use bazarabot.Base.{Bool, true, false, ◌≡◌, refl, inl, inr, Bool-cases}
use bazarabot.Base.Exec.{Result, ok, err, raise_if, ◌>>◌}
use bazarabot.Base.Exec.Rules.{OnOk}
use bazarabot.Errors.{Error}
use bazarabot.Db.Store.{Database, Store, Call, next_fails, rest_of, commit_or_rollback, transaction}

rollback_restores :
    {A : Type 0} (before : Database) (r : Result Error A × Store) (e : Error)
    → (commit_or_rollback before r).0 ≡ err e
    → (commit_or_rollback before r).1.db ≡ before
rollback_restores before (ok a, s) e h = cc
rollback_restores before (err x, s) e h = refl

-- Whatever the body does, if the transaction raises then every table is as it was.
pub transaction_atomic :
    {A : Type 0} (body : Call A) (s : Store) (e : Error)
    → (transaction body s).0 ≡ err e
    → (transaction body s).1.db ≡ s.db
unfolding transaction
transaction_atomic body s e h = elim (Bool-cases (next_fails s.disk)) [
  | inl fails ↦ rw fails
  | inr works ↦
      rw works
        (rollback_restores s.db (body (record s { disk = rest_of s.disk })) e (rw works at h))
]

rollback_cases :
    {A : Type 0} (P : Database → Type 0) (before : Database) (r : Result Error A × Store)
    → P before
    → OnOk (λ a s. P s.db) r
    → P (commit_or_rollback before r).1.db
rollback_cases P before (ok a, s) h k = k.at a refl
rollback_cases P before (err e, s) h k = h

-- What holds before a transaction and after its body has returned, holds after the transaction.
pub transaction_keeps :
    {A : Type 0} (P : Database → Type 0) (body : Call A) (s : Store)
    → P s.db
    → OnOk (λ a s. P s.db) (body (record s { disk = rest_of s.disk }))
    → P (transaction body s).1.db
unfolding transaction
transaction_keeps P body s h k = elim (Bool-cases (next_fails s.disk)) [
  | inl fails ↦ rw fails h
  | inr works ↦ rw works (rollback_cases P s.db (body (record s { disk = rest_of s.disk })) h k)
]

-- A guard in front of a method.
pub raise_if_keeps :
    {A : Type 0} (P : Database → Type 0) (b : Bool) (e : Error) (m : Call A) (s : Store)
    → P s.db
    → (b ≡ false → P (m s).1.db)
    → P ((raise_if b e >> m) s).1.db
raise_if_keeps P true e m s h k = h
raise_if_keeps P false e m s h k = k refl
