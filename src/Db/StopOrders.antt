-- ===== src/Db/StopOrders.antt =====
-- zarabot/db/stop_orders.py: the sole owner of stop-order rows.
pub mod Writes
pub mod Standing
use bazarabot.Base.{
  ℕ, Bool, true, false, not, ◌&&◌, String, ◌==◌, List, [], ◌∷◌, ◌++◌, Option, none, some, eqb,
  first, keep, is_some, update_where, if◌then◌else◌,
}
use bazarabot.Base.Int.{ℤ}
use bazarabot.Base.Decimal.{Decimal}
use bazarabot.Base.Exec.{Result, ok, err, gets, modify, or_raise, raise_if, ◌>>=◌, ◌>>◌}
use bazarabot.Models.{Datetime, StopOrderRecord, StopOrderStatus, stop_order_ok}
use bazarabot.Errors.{Error, value_error, integrity_error, duplicate_order_error, order_state_error}
use bazarabot.Db.Store.{clock_now, Store, Call, transaction}
use bazarabot.Db.Positions.Rows

-- `_TERMINAL`
abbrev pub is_terminal : StopOrderStatus → Bool
is_terminal StopOrderStatus.placing = false
is_terminal StopOrderStatus.active = false
is_terminal _ = true

abbrev pub has_key : String → StopOrderRecord → Bool
has_key key r = r.key == key

-- The partial unique index `idx_stop_orders_one_live`: PLACING or ACTIVE for a position.
abbrev pub live_for : ℕ → StopOrderRecord → Bool
live_for id r = not (is_terminal r.status) && eqb r.position_id id

-- `_row_to_stop`
abbrev pub row_to_stop : Option StopOrderRecord → Result Error (Option StopOrderRecord)
row_to_stop none = ok none
row_to_stop (some r) = if stop_order_ok r then ok (some r) else err value_error

-- `_load`
unfoldable pub load : String → Call (Option StopOrderRecord)
load key s = (row_to_stop (first (has_key key) s.db.stop_orders), s)

unfoldable pub load_present : String → Call StopOrderRecord
unfolding load
load_present key = do found ← load key; or_raise found order_state_error

abbrev pub set_stop_orders : (List StopOrderRecord → List StopOrderRecord) → Store → Store
set_stop_orders f s = record s { db = record s.db { stop_orders = f s.db.stop_orders } }

abbrev pub placing_row : String → ℕ → String → ℤ → Decimal → Datetime → StopOrderRecord
placing_row key position_id ticker lots stop_price at = record {
  key = key;
  stop_order_id = none;
  position_id = position_id;
  ticker = ticker;
  lots = lots;
  stop_price = stop_price;
  status = StopOrderStatus.placing;
  created_at = at;
  settled_at = none;
}

-- `INSERT INTO stop_orders` of a key that is not there: one live stop for a position, and
-- `REFERENCES positions (id)`; neither failure names the key.
abbrev pub insert : StopOrderRecord → Call (Unit {0})
insert r s =
    if is_some (first (live_for r.position_id) s.db.stop_orders)
    then (err integrity_error, s)
    else if not (is_some (first (Rows.has_id r.position_id) s.db.positions))
    then (err integrity_error, s)
    else (ok tt, set_stop_orders (λ rows. rows ++ r ∷ []) s)

unfoldable pub record_placing : String → ℕ → String → ℤ → Decimal → Call StopOrderRecord
unfolding load load_present
record_placing key position_id ticker lots stop_price = transaction do
  existing ← load key
  raise_if (is_some existing) duplicate_order_error
  at ← gets (λ s. (clock_now s))
  insert (placing_row key position_id ticker lots stop_price at)
  load_present key

abbrev pub activated : String → StopOrderRecord → StopOrderRecord
activated stop_order_id r = record r {
  status = StopOrderStatus.active;
  stop_order_id = some stop_order_id;
}

unfoldable pub activate : String → String → Call StopOrderRecord
unfolding load_present
activate key stop_order_id = transaction do
  current ← load_present key
  raise_if (is_terminal current.status) order_state_error
  modify (set_stop_orders (update_where (has_key key) (activated stop_order_id)))
  load_present key

abbrev pub settled : StopOrderStatus → Datetime → StopOrderRecord → StopOrderRecord
settled status at r = record r { status = status; settled_at = some at }

unfoldable pub settle : String → StopOrderStatus → Datetime → Call StopOrderRecord
unfolding load_present
settle key status settled_at = do
  raise_if (not settled_at.aware) value_error
  raise_if (not (is_terminal status)) order_state_error
  transaction do
    current ← load_present key
    raise_if (is_terminal current.status) order_state_error
    modify (set_stop_orders (update_where (has_key key) (settled status settled_at)))
    load_present key

-- The single row among those found, or none; several raise.
abbrev pub single : List StopOrderRecord → Result Error (Option StopOrderRecord)
single [] = ok none
single (r ∷ []) = row_to_stop (some r)
single (r ∷ q ∷ rows) = err order_state_error

unfoldable pub active_for_position : ℕ → Call (Option StopOrderRecord)
active_for_position position_id s = (single (keep (live_for position_id) s.db.stop_orders), s)
