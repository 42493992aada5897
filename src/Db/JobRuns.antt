-- ===== src/Db/JobRuns.antt =====
-- zarabot/db/job_runs.py: which periodic job has completed for which period.
pub mod Once
use bazarabot.Base.{
  Bool, true, false, not, ◌&&◌, String, ◌==◌, List, [], ◌∷◌, ◌++◌, Option, none, some, first,
  is_some, keep, ltb, if◌then◌else◌,
}
use bazarabot.Base.Exec.{gets, modify, raise_if, ◌>>=◌, ◌>>◌}
use bazarabot.Models.{Datetime}
use bazarabot.Errors.{value_error}
use bazarabot.Db.Store.{JobRun, Store, Call, transaction}

abbrev pub is_run : String → String → JobRun → Bool
is_run job period row = row.job == job && row.period == period

abbrev pub has_row : String → String → Store → Bool
has_row job period s = is_some (first (is_run job period) s.db.job_runs)

unfoldable pub has_run : String → String → Call Bool
has_run job period = gets (has_row job period)

-- `INSERT ... ON CONFLICT (job, period_key) DO NOTHING`
abbrev pub insert_run : JobRun → List JobRun → List JobRun
insert_run row rows =
    if is_some (first (is_run row.job row.period) rows) then rows else rows ++ row ∷ []

abbrev pub set_job_runs : (List JobRun → List JobRun) → Store → Store
set_job_runs f s = record s { db = record s.db { job_runs = f s.db.job_runs } }

unfoldable pub mark_run : String → String → Datetime → Call (Unit {0})
mark_run job period ran_at = do
  raise_if (not ran_at.aware) value_error
  transaction
      (modify (set_job_runs (insert_run (record { job = job; period = period; ran_at = ran_at }))))

-- `MAX(ran_at)`
abbrev pub latest_run : List JobRun → Option Datetime
latest_run [] = none
latest_run (row ∷ rows) = elim (latest_run rows) [
  | none ↦ some row.ran_at
  | some t ↦ if ltb row.ran_at.instant t.instant then some t else some row.ran_at
]

unfoldable pub last_run : String → Call (Option Datetime)
last_run job = gets (λ s. latest_run (keep (λ row. row.job == job) s.db.job_runs))
