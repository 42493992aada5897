-- ===== src/Db/Positions/Rows.antt =====
-- zarabot/db/positions.py: reading rows, inserting rows and events, and what the schema refuses.
use Prim.Native.Nat.{max}
use bazarabot.Base.{
  ℕ, suc, Bool, true, not, ◌&&◌, String, ◌==◌, List, [], ◌∷◌, ◌++◌, Option, none, some, eqb, first,
  is_some, get_or, update_where, if◌then◌else◌,
}
use bazarabot.Base.Int.{ℤ, pos, leb_ℤ, ◌*ℤ◌}
use bazarabot.Base.Decimal.{Decimal, of_int, sub, mul}
use bazarabot.Base.Exec.{Result, ok, err, pure, modify, or_raise, ◌>>=◌}
use bazarabot.Models.{OrderRecord, Position, is_open_status, position_ok}
use bazarabot.Errors.{Error, value_error, integrity_error, position_state_error}
use bazarabot.Db.Store.{clock_now, Store, Call, PositionRow, PositionChange}
use bazarabot.Db.Orders

abbrev pub has_id : ℕ → PositionRow → Bool
has_id id row = eqb row.position.id id

abbrev pub is_open : PositionRow → Bool
is_open row = is_open_status row.position.status

-- The partial unique index `idx_positions_one_open`.
abbrev pub open_in : String → PositionRow → Bool
open_in ticker row = is_open row && (row.position.ticker == ticker)

-- `_row_to_position`: the constructor checks the row.
abbrev pub row_to_position : Option PositionRow → Result Error (Option Position)
row_to_position none = ok none
row_to_position (some row) =
    if position_ok row.position then ok (some row.position) else err value_error

-- `_load`, which `get` also is.
unfoldable pub load : ℕ → Call (Option Position)
load id s = (row_to_position (first (has_id id) s.db.positions), s)

-- A load that raises `PositionStateError` when the row is absent.
unfoldable pub load_present : ℕ → Call Position
unfolding load
load_present id = do found ← load id; or_raise found position_state_error

-- An INTEGER PRIMARY KEY: one more than the greatest in the table.
abbrev pub max_id : List PositionRow → ℕ
max_id [] = 0
max_id (row ∷ rows) = max row.position.id (max_id rows)

abbrev pub next_id : List PositionRow → ℕ
next_id rows = suc (max_id rows)

abbrev pub set_positions : (List PositionRow → List PositionRow) → Store → Store
set_positions f s = record s { db = record s.db { positions = f s.db.positions } }

-- `REFERENCES orders (key)`
abbrev pub order_exists : String → Store → Bool
order_exists key s = is_some (first (Orders.has_key key) s.db.orders)

abbrev pub optional_order_exists : Option String → Store → Bool
optional_order_exists none s = true
optional_order_exists (some key) s = order_exists key s

-- `INSERT INTO positions` of an open row: `CHECK (lots > 0)`, then the unique index, which
-- `_reraise_unless_duplicate_position` translates, then the foreign key. The id is assigned.
abbrev pub insert : (ℕ → Position) → Call ℕ
insert row s =
    let id = next_id s.db.positions in
    if leb_ℤ (row id).lots (pos 0)
    then (err integrity_error, s)
    else if is_some (first (open_in (row id).ticker) s.db.positions)
    then (err position_state_error, s)
    else if not (order_exists (row id).open_order_key s)
    then (err integrity_error, s)
    else (
      ok id,
      set_positions (λ rows. rows ++ record { position = row id; exit_commission = none } ∷ []) s,
    )

-- `_insert_event`
abbrev pub insert_event : ℕ → PositionChange → Call (Unit {0})
insert_event id change s = (
  ok tt,
  record s {
    db = record s.db {
      position_events =
          s.db.position_events
          ++ record { position_id = id; occurred_at = (clock_now s); event = change } ∷ [];
    };
  },
)

-- An UPDATE of the row with an id.
abbrev pub update : ℕ → (PositionRow → PositionRow) → Call (Unit {0})
update id f = modify (set_positions (update_where (has_id id) f))

abbrev pub commission_of : Option OrderRecord → Decimal
commission_of none = of_int (pos 0)
commission_of (some order) = get_or order.commission (of_int (pos 0))

-- `_order_commission`: zero for no key, no such order, and a commission that is not known.
unfoldable pub order_commission : Option String → Call Decimal
order_commission none = pure (of_int (pos 0))
order_commission (some key) =
    if key == ""
    then pure (of_int (pos 0))
    else do order ← Orders.get key; pure (commission_of order)

-- `_realised`
unfoldable pub realised : Decimal → Decimal → ℤ → ℤ → Decimal → Decimal → Decimal
realised entry_price exit_price lots lot_size entry_commission exit_commission =
    sub (sub (mul (sub exit_price entry_price) (of_int (lots *ℤ lot_size))) entry_commission)
      exit_commission
