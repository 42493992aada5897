-- ===== src/Db/Positions/Queries.antt =====
-- The lists of positions in zarabot/db/positions.py. Timestamps are compared as instants, where
-- SQLite compares their UTC texts.
use bazarabot.Base.{
  ℕ, Bool, true, false, not, ◌&&◌, ◌||◌, List, [], ◌∷◌, Option, none, some, keep, sort_by, leb, ltb,
  if◌then◌else◌,
}
use bazarabot.Base.Exec.{Result, ok, err}
use bazarabot.Models.{Datetime, Position, position_ok}
use bazarabot.Errors.{Error, value_error}
use bazarabot.Db.Store.{Call, PositionRow}
use bazarabot.Db.Positions.Rows
use bazarabot.Db.Positions.Rows.{is_open}

-- `[_row_to_position(row) for row in rows]`: one row that the dataclass refuses raises.
abbrev pub rows_to_positions : List PositionRow → Result Error (List Position)
rows_to_positions [] = ok []
rows_to_positions (row ∷ rows) =
    let rest = rows_to_positions rows in
    if position_ok row.position
    then (elim rest [ ok ps ↦ ok (row.position ∷ ps) | err e ↦ err e ])
    else err value_error

unfoldable pub get : ℕ → Call (Option Position)
get = Rows.load

unfoldable pub list_open : Call (List Position)
list_open s = (
  rows_to_positions
      (sort_by (λ a b. leb a.position.id b.position.id) (keep is_open s.db.positions)),
  s,
)

-- `ORDER BY exit_at DESC, id DESC`; NULL comes last in SQLite's descending order.
abbrev pub newer_exit : Option Datetime → ℕ → Option Datetime → ℕ → Bool
newer_exit none i none j = leb j i
newer_exit none i (some b) j = false
newer_exit (some a) i none j = true
newer_exit (some a) i (some b) j = ltb b.instant a.instant || (leb b.instant a.instant && leb j i)

unfoldable pub list_closed : Call (List Position)
list_closed s = (
  rows_to_positions (
      sort_by (λ a b. newer_exit a.position.exit_at a.position.id b.position.exit_at b.position.id)
        (keep (λ row. not (is_open row)) s.db.positions)),
  s,
)
