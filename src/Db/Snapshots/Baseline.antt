-- ===== src/Db/Snapshots/Baseline.antt =====
-- The opening figures under `update_intraday` of zarabot/db/snapshots.py.
use bazarabot.Base.{
  ◌≡◌, refl, ap, ◌∙◌, List, [], ◌∷◌, Option, update_where, Bool, true, false, if◌then◌else◌,
}
use bazarabot.Base.Decimal.{Decimal}
use bazarabot.Base.Exec.Keeps.{Keeps, Keeps-pure, Leads-catch}
use bazarabot.Models.{Date}
use bazarabot.Errors.{is_database}
use bazarabot.Db.Store.{DailySnapshot, Store}
use bazarabot.Db.Preserved.{InDb, Keeps-transaction, Keeps-modify}
use bazarabot.Db.Snapshots.{is_day, Intraday, refreshed, update_intraday}

-- The columns that are written once: the day, the opening equity and the benchmark.
abbrev pub baselines : List DailySnapshot → List (Date × Decimal × Option Decimal)
baselines [] = []
baselines (row ∷ rows) = (row.trade_date, row.opening_equity, row.benchmark_value) ∷ baselines rows

abbrev pub update_all : List (Date × Intraday) → Store → Store
update_all [] s = s
update_all ((day, figures) ∷ calls) s = update_all calls (update_intraday day figures s).1

baselines-update_where :
    (day : Date) (figures : Intraday) (rows : List DailySnapshot)
    → baselines (update_where (is_day day) (refreshed figures) rows) ≡ baselines rows
baselines-update_where day figures [] = refl
baselines-update_where day figures (row ∷ rows) =
    front (is_day day row)
    ∙ ap (λ xs. (row.trade_date, row.opening_equity, row.benchmark_value) ∷ xs)
        (baselines-update_where day figures rows)
  where
    front :
        (b : Bool)
        → baselines (
            (if b then refreshed figures row else row)
            ∷ update_where (is_day day) (refreshed figures) rows)
          ≡ (row.trade_date, row.opening_equity, row.benchmark_value)
            ∷ baselines (update_where (is_day day) (refreshed figures) rows)
    front true = refl
    front false = refl

Keeps-update_intraday :
    (columns : List (Date × Decimal × Option Decimal)) (day : Date) (figures : Intraday)
    → Keeps (InDb (λ d. baselines d.snapshots ≡ columns)) (update_intraday day figures)
unfolding update_intraday
Keeps-update_intraday columns day figures =
    Leads-catch is_database _ _
      (Keeps-transaction (λ d. baselines d.snapshots ≡ columns) _
        (Keeps-modify (λ d. baselines d.snapshots ≡ columns) _
          (λ s h. baselines-update_where day figures s.db.snapshots ∙ h)))
      λ e. Keeps-pure tt

kept_by_updates :
    (columns : List (Date × Decimal × Option Decimal)) (calls : List (Date × Intraday)) (s : Store)
    → baselines s.db.snapshots ≡ columns
    → baselines (update_all calls s).db.snapshots ≡ columns
kept_by_updates columns [] s h = h
kept_by_updates columns ((day, figures) ∷ calls) s h =
    kept_by_updates columns calls (update_intraday day figures s).1
      ((Keeps-update_intraday columns day figures).at s h)

-- However many refreshes follow, for whatever days, also those that fail: there are the same rows,
-- with the opening equity and the benchmark that they had.
pub baseline_stays :
    (calls : List (Date × Intraday)) (s : Store)
    → baselines (update_all calls s).db.snapshots ≡ baselines s.db.snapshots
baseline_stays calls s = kept_by_updates (baselines s.db.snapshots) calls s refl
