-- ===== src/Db/DailyExamples.antt =====
-- The tables of jobs and of daily figures with one row or none.
use bazarabot.Base.{◌≡◌, refl, true, String, List, [], ◌∷◌, none}
use bazarabot.Base.Exec.{ok}
use bazarabot.Models.{Datetime, Date}
use bazarabot.Db.Store.{DailySnapshot, Store, transaction}
use bazarabot.Db.JobRuns.{has_run, mark_run}
use bazarabot.Db.JobRuns.Once.{HasRow, kept_run, mark_all, marked_once}
use bazarabot.Db.Snapshots.{Intraday}
use bazarabot.Db.Snapshots.Baseline.{baselines, update_all, baseline_stays}
use bazarabot.Samples.{at, money, database, store}

abbrev empty : Store
empty = store (database [] [])

abbrev calls : List (String × String × Datetime)
calls = ("weekly", "W2", at 9) ∷ ("weekly", "W1", at 9) ∷ []

marked : (mark_run "weekly" "W1" (at 5) empty).0 ≡ ok tt
unfolding mark_run transaction
marked = refl

marked_once_example :
    ((has_run "weekly" "W1" (mark_all calls (mark_run "weekly" "W1" (at 5) empty).1)).0 ≡ ok true)
    × HasRow "weekly" "W1"
        (kept_run (record { job = "weekly"; period = "W1"; ran_at = at 5 }) none)
        (mark_all calls (mark_run "weekly" "W1" (at 5) empty).1).db
marked_once_example = marked_once "weekly" "W1" (at 5) calls empty marked

abbrev opened : DailySnapshot
opened = record {
  trade_date = 1;
  opening_equity = money 10_000;
  closing_equity = none;
  cash = money 10_000;
  realised_pnl = money 0;
  unrealised_pnl = money 0;
  open_positions = 0;
  orders_placed = 0;
  benchmark_value = none;
}

abbrev with_day : Store
with_day = record empty { db = record empty.db { snapshots = opened ∷ [] } }

abbrev figures : Intraday
figures = record {
  closing_equity = money 9_000;
  cash = money 9_000;
  realised_pnl = money 0;
  unrealised_pnl = money 0;
  open_positions = 0;
  orders_placed = 2;
}

abbrev refreshes : List (Date × Intraday)
refreshes = (1, figures) ∷ (2, figures) ∷ []

baseline_stays_example :
    baselines (update_all refreshes with_day).db.snapshots ≡ baselines with_day.db.snapshots
baseline_stays_example = baseline_stays refreshes with_day
