-- ===== src/Db/Snapshots.antt =====
-- zarabot/db/snapshots.py: one row of figures for each trading day.
pub mod Baseline
use bazarabot.Base.{
  ℕ, Bool, true, false, ◌&&◌, List, [], ◌∷◌, ◌++◌, Option, none, some, first, is_some, keep,
  sort_by, update_where, eqb, leb, if◌then◌else◌,
}
use bazarabot.Base.Decimal.{Decimal}
use bazarabot.Base.Exec.{gets, modify, pure, catch}
use bazarabot.Models.{Date}
use bazarabot.Errors.{is_database}
use bazarabot.Db.Store.{DailySnapshot, Store, Call, transaction}

abbrev pub is_day : Date → DailySnapshot → Bool
is_day day row = eqb row.trade_date day

abbrev pub set_snapshots : (List DailySnapshot → List DailySnapshot) → Store → Store
set_snapshots f s = record s { db = record s.db { snapshots = f s.db.snapshots } }

-- `INSERT ... ON CONFLICT(trade_date) DO UPDATE SET ...`, which sets every other column.
abbrev pub upsert : DailySnapshot → List DailySnapshot → List DailySnapshot
upsert row rows =
    if is_some (first (is_day row.trade_date) rows)
    then update_where (is_day row.trade_date) (λ old. row) rows
    else rows ++ row ∷ []

-- A failed write is logged and goes no further.
unfoldable pub write_daily : DailySnapshot → Call (Unit {0})
write_daily row =
    catch is_database (transaction (modify (set_snapshots (upsert row)))) (λ e. pure tt)

-- The six columns of `update_intraday`.
pub record Intraday : Type 0 where
  pub closing_equity : Decimal
  pub cash : Decimal
  pub realised_pnl : Decimal
  pub unrealised_pnl : Decimal
  pub open_positions : ℕ
  pub orders_placed : ℕ

abbrev pub refreshed : Intraday → DailySnapshot → DailySnapshot
refreshed figures row = record row {
  closing_equity = some figures.closing_equity;
  cash = figures.cash;
  realised_pnl = figures.realised_pnl;
  unrealised_pnl = figures.unrealised_pnl;
  open_positions = figures.open_positions;
  orders_placed = figures.orders_placed;
}

unfoldable pub update_intraday : Date → Intraday → Call (Unit {0})
update_intraday day figures =
    catch is_database
      (transaction (modify (set_snapshots (update_where (is_day day) (refreshed figures)))))
      (λ e. pure tt)

unfoldable pub list_daily : Date → Date → Call (List DailySnapshot)
list_daily start end = gets λ s.
    sort_by (λ a b. leb a.trade_date b.trade_date)
      (keep (λ row. leb start row.trade_date && leb row.trade_date end) s.db.snapshots)
