-- ===== src/Db/Connection.antt =====
-- `transaction` of zarabot/db/connection.py as it acts on the shared connection: the depth of nested
-- acquisitions, and a BEGIN, COMMIT or ROLLBACK that SQLite refuses. Db/Store has the same function
-- as the owners of the tables see it. The lock, the log and the closed connection are left out.
pub mod Atomicity
use bazarabot.Base.{ℕ, ltb, List, [], ◌∷◌, Option, none, some, if◌then◌else◌}
use bazarabot.Base.Exec.{Exec, Result, ok, err, pure, ◌>>=◌, ◌>>◌}
use bazarabot.Errors.{Error, database_error}
use bazarabot.Db.Store.{Database}

-- What SQLite does with a BEGIN, COMMIT or ROLLBACK: it is done; it raises and the transaction is
-- left as it was, as with a busy database; it raises and SQLite itself has rolled back, as it may on
-- a full disk.
pub data Answer : Type 0 where
  done refused undone : Answer

-- The tables on the disk, those of the open transaction, `_depth`, and SQLite's answers to come,
-- which are `done` where the list ends.
pub record Connection : Type 0 where
  pub committed : Database
  pub opened : Option Database
  pub depth : ℕ
  pub answers : List Answer

abbrev pub Session : Type 0 → Type 0
Session = Exec Connection Error

abbrev pub answer : List Answer → Answer
answer [] = Answer.done
answer (a ∷ rest) = a

abbrev pub later : List Answer → List Answer
later [] = []
later (a ∷ rest) = rest

abbrev pub asked : Connection → Connection
asked c = record c { answers = later c.answers }

abbrev pub begin_as : Answer → Session (Unit {0})
begin_as Answer.done c = (ok tt, record c { opened = some c.committed })
begin_as Answer.refused c = (err database_error, c)
begin_as Answer.undone c = (err database_error, c)

-- `BEGIN IMMEDIATE`, which SQLite refuses within a transaction.
abbrev pub begin_at : Option Database → Session (Unit {0})
begin_at none c = begin_as (answer c.answers) (asked c)
begin_at (some db) c = (err database_error, c)

abbrev pub begin_immediate : Session (Unit {0})
begin_immediate c = begin_at c.opened c

abbrev pub commit_as : Answer → Database → Session (Unit {0})
commit_as Answer.done db c = (ok tt, record c { committed = db; opened = none })
commit_as Answer.refused db c = (err database_error, c)
commit_as Answer.undone db c = (err database_error, record c { opened = none })

-- `conn.commit()`, which does nothing outside a transaction.
abbrev pub commit_at : Option Database → Session (Unit {0})
commit_at none c = (ok tt, c)
commit_at (some db) c = commit_as (answer c.answers) db (asked c)

abbrev pub commit : Session (Unit {0})
commit c = commit_at c.opened c

abbrev pub rollback_as : Answer → Session (Unit {0})
rollback_as Answer.done c = (ok tt, record c { opened = none })
rollback_as Answer.refused c = (err database_error, c)
rollback_as Answer.undone c = (err database_error, record c { opened = none })

-- `conn.rollback()`, which does nothing outside a transaction.
abbrev pub rollback_at : Option Database → Session (Unit {0})
rollback_at none c = (ok tt, c)
rollback_at (some db) c = rollback_as (answer c.answers) (asked c)

abbrev pub rollback : Session (Unit {0})
rollback c = rollback_at c.opened c

-- The `except` and the `else` of `transaction`: a rollback and the error again, or a commit, whose
-- own failure is not rolled back.
abbrev pub close_transaction : {A : Type 0} → Result Error A → Session A
close_transaction (ok a) = commit >> pure a
close_transaction (err e) = rollback >> λ c. (err e, c)

-- The `try` of `transaction`, in the depth of one, and the `finally`, which puts the depth back.
abbrev pub guarded_body : {A : Type 0} → Session A → Session A
guarded_body body c =
    let (r, c') = body (record c { depth = 1 }) in
    let (r', c'') = close_transaction r c' in (r', record c'' { depth = c.depth })

-- `transaction`: the outermost call begins and ends the transaction, and a nested one joins it.
unfoldable pub owned_transaction : {A : Type 0} → Session A → Session A
owned_transaction body c =
    if ltb 0 c.depth then body c else (begin_immediate >> guarded_body body) c

-- A body: statements, each with the tables that it leaves or an error; acquisitions within it; and
-- calls whose error is caught.
pub data Body : Type 0 where
  finished : Body
  statement : (Database → Result Error Database) → Body → Body
  nested attempted : Body → Body → Body

abbrev pub in_view : Option Database → Database → Database
in_view none db = db
in_view (some db') db = db'

abbrev pub store_answer : Result Error Database → Session (Unit {0})
store_answer (ok db) c = (ok tt, record c { opened = some db })
store_answer (err e) c = (err e, c)

-- `conn.execute` of a statement that writes; sqlite3 begins a transaction for it where none is open.
abbrev pub execute : (Database → Result Error Database) → Session (Unit {0})
execute f c = store_answer (f (in_view c.opened c.committed)) c

unfoldable pub run_body : Body → Session (Unit {0})
run_body Body.finished c = (ok tt, c)
run_body (Body.statement f rest) c = (execute f >> run_body rest) c
run_body (Body.nested inner rest) c = (owned_transaction (run_body inner) >> run_body rest) c
run_body (Body.attempted inner rest) c =
    let (r, c') = owned_transaction (run_body inner) c in run_body rest c'

-- The plain meaning of a body, which knows of no transactions: how it ends, and the tables then.
abbrev pub and_then :
    Result Error (Unit {0}) × Database
    → (Database → Result Error (Unit {0}) × Database)
    → Result Error (Unit {0}) × Database
and_then (ok x, db) f = f db
and_then (err e, db) f = (err e, db)

abbrev pub stated : Result Error Database → Database → Result Error (Unit {0}) × Database
stated (ok db') db = (ok tt, db')
stated (err e) db = (err e, db)

unfoldable pub meaning : Body → Database → Result Error (Unit {0}) × Database
meaning Body.finished db = (ok tt, db)
meaning (Body.statement f rest) db = and_then (stated (f db) db) (meaning rest)
meaning (Body.nested inner rest) db = and_then (meaning inner db) (meaning rest)
meaning (Body.attempted inner rest) db = meaning rest (meaning inner db).1
