-- ===== src/Execution/Closes.antt =====
-- `_finish_close` of zarabot/execution/orders.py: a close stands, whatever becomes of its cooldown.
use bazarabot.Base.{Bool, true, String, none, some, ◌<>◌}
use bazarabot.Base.Decimal.{Decimal}
use bazarabot.Base.Exec.{Result, ok, err, catch}
use bazarabot.Models.{Datetime, ExitTrigger, OrderRecord, Position}
use bazarabot.Errors.{Error, is_database}
use bazarabot.Db.Store.{Call, Store}
use bazarabot.Db.Positions
use bazarabot.Db.Cooldowns
use bazarabot.Execution.Desk.{halt_on_db_failure, write}

-- Done, or a failure of the database.
abbrev answers : Result Error (Unit {0}) → Bool
answers (ok a) = true
answers (err e) = is_database e

module _ (ticker detail : String) (moment : Datetime) where
  abbrev guarded : Call (Unit {0})
  guarded = catch is_database (Cooldowns.start ticker moment) (λ e. halt_on_db_failure detail)

module _ (ticker detail : String) (moment : Datetime) (t : Store) where
  abbrev cooled : Result Error (Unit {0}) × Store
  cooled = Cooldowns.start ticker moment t

module _ (position : Position) (order : OrderRecord) (trigger : ExitTrigger) (moment : Datetime)
    (s : Store) where
  abbrev close_written : Decimal → Result Error Position × Store
  close_written price = write (Positions.close position.id trigger price moment (some order) none) s

  abbrev failed : String
  failed = "cooldown write failed after closing " <> position.ticker
