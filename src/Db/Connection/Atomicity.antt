-- ===== src/Db/Connection/Atomicity.antt =====
-- A transaction on the shared connection commits all that its body writes, or nothing.
use bazarabot.Base.{Bool, true, false, ◌≡◌, ◌⊎◌, List, Option, none, some}
use bazarabot.Base.Exec.{Result, ok, err}
use bazarabot.Errors.{Error, database_error}
use bazarabot.Db.Store.{Database}
use bazarabot.Db.Connection.{Answer, Connection, Body, answer, later, run_body, meaning}

-- Within the outermost call, with the transaction open.
abbrev inside : Database → List Answer → Database → Connection
inside on_disk coming db = record {
  committed = on_disk;
  opened = some db;
  depth = 1;
  answers = coming;
}

module _ (on_disk : Database) (coming : List Answer) where
  abbrev WritesMeaning : Body → Type 0
  WritesMeaning b =
      (db : Database)
      → run_body b (inside on_disk coming db)
        ≡ ((meaning b db).0, inside on_disk coming (meaning b db).1)

-- SQLite refuses an answer other than `done`, and a BEGIN in an open transaction.
abbrev pub is_refusal : Answer → Bool
is_refusal Answer.done = false
is_refusal Answer.refused = true
is_refusal Answer.undone = true

abbrev pub refuses_one : Answer → Answer → Bool
refuses_one Answer.done second = is_refusal second
refuses_one Answer.refused second = true
refuses_one Answer.undone second = true

abbrev pub refuses_at : Option Database → List Answer → Bool
refuses_at none coming = refuses_one (answer coming) (answer (later coming))
refuses_at (some db) coming = true

-- The end of the outermost call, once its body has come to a result, by what SQLite answers.
module _ (on_disk : Database) where
  abbrev Ended :
      Bool → Result Error (Unit {0}) → Database → Result Error (Unit {0}) × Connection → Type 0
  Ended refuses r db (x, after) =
      ((x ≡ ok tt) × (r ≡ ok tt) × (after.committed ≡ db) × (after.opened ≡ none))
      ⊎ ((e : Error) × (x ≡ err e)
          × (after.committed ≡ on_disk)
          × ((r ≡ err e) ⊎ ((e ≡ database_error) × (refuses ≡ true))))

module _ (b : Body) where
  abbrev pub AllOrNothing : Bool → Database → Result Error (Unit {0}) × Connection → Type 0
  AllOrNothing refuses before (x, after) =
      (after.depth ≡ 0)
      × (((x ≡ ok tt)
            × ((meaning b before).0 ≡ ok tt)
            × (after.committed ≡ (meaning b before).1)
            × (after.opened ≡ none))
          ⊎ ((e : Error) × (x ≡ err e)
              × (after.committed ≡ before)
              × (((meaning b before).0 ≡ err e) ⊎ ((e ≡ database_error) × (refuses ≡ true)))))
