-- ===== src/Db/JobRuns/Once.antt =====
-- Sequences of `mark_run` of zarabot/db/job_runs.py.
use bazarabot.Base.{
  ◌≡◌, refl, true, not, String, List, [], ◌∷◌, Option, none, some, first, is_some,
  first-append_some, Option-cases, inl, inr, arith, eq_refl, ap, first-append_none,
}
use bazarabot.Base.Members.{either_list}
use bazarabot.Base.Exec.{ok}
use bazarabot.Base.Exec.Keeps.{Keeps, Keeps-bind, Keeps-raise_if}
use bazarabot.Models.{Datetime}
use bazarabot.Errors.{value_error}
use bazarabot.Db.Store.{Database, JobRun, Store, transaction}
use bazarabot.Db.Preserved.{InDb, Keeps-transaction, Keeps-modify}
use bazarabot.Db.JobRuns.{is_run, has_run, insert_run, mark_run}

abbrev pub mark_all : List (String × String × Datetime) → Store → Store
mark_all [] s = s
mark_all ((job, period, at) ∷ calls) s = mark_all calls (mark_run job period at s).1

-- The row of a job and a period.
abbrev pub HasRow : String → String → JobRun → Database → Type 0
HasRow job period row d = first (is_run job period) d.job_runs ≡ some row

module _ (job period : String) (row : JobRun) where
  inserted :
      (new : JobRun) (rows : List JobRun)
      → first (is_run job period) rows ≡ some row
      → first (is_run job period) (insert_run new rows) ≡ some row
  inserted new rows h =
      either_list (λ xs. first (is_run job period) xs ≡ some row)
        (is_some (first (is_run new.job new.period) rows)) _ _ h
        (first-append_some (is_run job period) rows (new ∷ []) row h)

  Keeps-mark_run :
      (j p : String) (at : Datetime) → Keeps (InDb (HasRow job period row)) (mark_run j p at)
  unfolding mark_run
  Keeps-mark_run j p at = Keeps-bind _ _ (Keeps-raise_if (not at.aware) value_error) λ _.
      Keeps-transaction (HasRow job period row) _
        (Keeps-modify (HasRow job period row) _ (λ s h. inserted _ s.db.job_runs h))

  mark_all-HasRow :
      (calls : List (String × String × Datetime)) (s : Store)
      → HasRow job period row s.db
      → HasRow job period row (mark_all calls s).db
  mark_all-HasRow [] s h = h
  mark_all-HasRow ((j, p, at) ∷ calls) s h =
      mark_all-HasRow calls (mark_run j p at s).1 ((Keeps-mark_run j p at).at s h)

-- The row that `mark_run` leaves: the one that was there, or the new one.
abbrev pub kept_run : JobRun → Option JobRun → JobRun
kept_run new none = new
kept_run new (some row) = row

module _ (job period : String) (at : Datetime) where
  abbrev new_run : JobRun
  new_run = record { job = job; period = period; ran_at = at }

  insert_run-first :
      (rows : List JobRun)
      → first (is_run job period) (insert_run new_run rows)
        ≡ some (kept_run new_run (first (is_run job period) rows))
  insert_run-first rows = elim (Option-cases (first (is_run job period) rows)) [
    | inl absent ↦
        rw (absent, first-append_none (is_run job period) rows (new_run ∷ []) absent)
          (rw (eq_refl job, eq_refl period) refl)
    | inr (row, there) ↦ rw (there, there) refl
  ]

  marked_row :
      (s : Store)
      → (mark_run job period at s).0 ≡ ok tt
      → HasRow job period
          (kept_run new_run (first (is_run job period) s.db.job_runs))
          (mark_run job period at s).1.db
  unfolding mark_run transaction
  marked_row s h = ground (arith, h, insert_run-first s.db.job_runs)

  -- Once `mark_run` has returned, `has_run` answers yes after any further calls, and the row keeps
  -- the time of the first completion: that of an earlier row if there was one, else the given one.
  pub marked_once :
      (calls : List (String × String × Datetime)) (s : Store)
      → (mark_run job period at s).0 ≡ ok tt
      → ((has_run job period (mark_all calls (mark_run job period at s).1)).0 ≡ ok true)
        × HasRow job period
            (kept_run new_run (first (is_run job period) s.db.job_runs))
            (mark_all calls (mark_run job period at s).1).db
  unfolding has_run
  marked_once calls s h =
      let row = kept_run new_run (first (is_run job period) s.db.job_runs) in
      let stays =
        mark_all-HasRow job period row calls (mark_run job period at s).1 (marked_row s h) in
      (ap (λ o. ok (is_some o)) stays, stays)
