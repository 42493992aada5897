-- ===== src/Db/Positions.antt =====
-- zarabot/db/positions.py: the sole owner of position rows and of their events.
pub mod Rows
pub mod Queries
pub mod Writes
pub mod Booking
pub mod Opening
pub mod Soundness
pub mod Outcome
pub mod Closing
use bazarabot.Base.{
  ℕ, Bool, true, false, not, ◌||◌, String, List, [], ◌∷◌, Option, none, some, is_none, is_some,
  get_or, if◌then◌else◌, first,
}
use bazarabot.Base.Int.{ℤ, pos, leb_ℤ}
use bazarabot.Base.Decimal.{Decimal, of_int, literal, add, sub, mul, div_hundred}
use bazarabot.Base.Exec.{Result, ok, err, pure, raise, lift, gets, or_raise, raise_if, ◌>>=◌, ◌>>◌}
use bazarabot.Models.{
  Datetime, ExitTrigger, Instrument, OrderRecord, Position, PositionStatus, Signal, StopProtection,
  is_external, is_open_status, protection_ok,
}
use bazarabot.Config.{Config}
use bazarabot.Errors.{Error, value_error, integrity_error, position_state_error}
use bazarabot.Db.Store.{Store, Call, PositionRow, PositionChange, transaction}
use Rows.{
  load_present, insert, insert_event, update, order_commission, realised, optional_order_exists,
  has_id,
}

abbrev pub hundred : Decimal
hundred = literal 100 0

-- The columns that an open row starts with.
abbrev pub open_row :
    String
    → String
    → String
    → ℤ
    → ℤ
    → Decimal
    → Datetime
    → Decimal
    → Decimal
    → Bool
    → String
    → ℕ
    → Position
open_row ticker figi strategy lots lot_size price at stop target adopted key id = record {
  id = id;
  ticker = ticker;
  figi = figi;
  strategy = strategy;
  lots = lots;
  lot_size = lot_size;
  entry_price = price;
  entry_at = at;
  stop_price = stop;
  target_price = target;
  status = PositionStatus.opened;
  adopted = adopted;
  open_order_key = key;
  close_order_key = none;
  exit_trigger = none;
  exit_price = none;
  exit_at = none;
  realised_pnl = none;
  stop_protection = StopProtection.local;
  stop_order_key = none;
}

unfoldable pub open_position :
    Signal → OrderRecord → Instrument → Decimal → Decimal → Datetime → Call Position
unfolding load_present
open_position signal order instrument stop target opened_at = do
  raise_if (not opened_at.aware) value_error
  raise_if (not signal.generated_at.aware) value_error
  price ← or_raise order.filled_price position_state_error
  transaction do
    let lots = get_or order.filled_lots order.lots
    id ← insert (
        open_row signal.ticker instrument.figi signal.strategy lots instrument.lot price opened_at
          stop target false order.key)
    insert_event id (PositionChange.opened signal.ticker lots price order.key stop target)
    load_present id

-- The schema's CHECK: a key exactly under EXCHANGE.
abbrev pub schema_protection_ok : StopProtection → Option String → Bool
schema_protection_ok StopProtection.exchange key = is_some key
schema_protection_ok StopProtection.local key = is_none key

abbrev pub protected : StopProtection → Option String → PositionRow → PositionRow
protected protection key row = record row {
  position = record row.position { stop_protection = protection; stop_order_key = key };
}

unfoldable pub set_stop_protection : ℕ → StopProtection → Option String → Call Position
unfolding load_present
set_stop_protection id protection key = do
  raise_if (not (protection_ok protection key)) position_state_error
  transaction do
    existing ← load_present id
    raise_if (not (schema_protection_ok protection key)) integrity_error
    update id (protected protection key)
    insert_event id (
        PositionChange.stop_protection_changed existing.stop_protection protection
          existing.stop_order_key key)
    load_present id

-- The arguments that `close` refuses before it reads anything.
abbrev pub check_close : ExitTrigger → Option OrderRecord → Option Decimal → Call (Unit {0})
check_close trigger order exit_commission =
    if is_external trigger
    then raise_if (is_some order) value_error
    else raise_if (is_none order || is_some exit_commission) value_error

abbrev pub closing_commission : Option OrderRecord → Option Decimal → Decimal
closing_commission none exit_commission = get_or exit_commission (of_int (pos 0))
closing_commission (some order) exit_commission = get_or order.commission (of_int (pos 0))

abbrev pub order_key : Option OrderRecord → Option String
order_key none = none
order_key (some order) = some order.key

abbrev pub closed_row :
    ExitTrigger
    → Decimal
    → Datetime
    → Decimal
    → Option String
    → Option Decimal
    → PositionRow
    → PositionRow
closed_row trigger price at pnl key exit_commission row = record {
  position = record row.position {
    status = PositionStatus.closed;
    exit_trigger = some trigger;
    exit_price = some price;
    exit_at = some at;
    realised_pnl = some pnl;
    close_order_key = key;
    stop_protection = StopProtection.local;
    stop_order_key = none;
  };
  exit_commission = exit_commission;
}

unfoldable pub close :
    ℕ → ExitTrigger → Decimal → Datetime → Option OrderRecord → Option Decimal → Call Position
unfolding load_present
close id trigger exit_price closed_at order exit_commission = do
  raise_if (not closed_at.aware) value_error
  check_close trigger order exit_commission
  transaction do
    existing ← load_present id
    raise_if (not (is_open_status existing.status)) position_state_error
    entry_commission ← order_commission (some existing.open_order_key)
    let pnl =
        realised existing.entry_price exit_price existing.lots existing.lot_size entry_commission
          (closing_commission order exit_commission)
    known ← gets (optional_order_exists (order_key order))
    raise_if (not known) integrity_error
    update id (closed_row trigger exit_price closed_at pnl (order_key order) exit_commission)
    insert_event id (
        PositionChange.closed trigger exit_price pnl (order_key order) exit_commission
          existing.stop_protection)
    load_present id

-- `_stored_exit_commission`
abbrev pub stored_exit_commission : Option PositionRow → Decimal
stored_exit_commission none = of_int (pos 0)
stored_exit_commission (some row) = get_or row.exit_commission (of_int (pos 0))

-- The closing leg's fee of a closed row: from the row itself under EXTERNAL, else from its order.
abbrev pub externally : Option ExitTrigger → Bool
externally none = false
externally (some trigger) = is_external trigger

abbrev pub current_closing_commission : ℕ → Position → Call Decimal
current_closing_commission id p s =
    if externally p.exit_trigger
    then (ok (stored_exit_commission (first (has_id id) s.db.positions)), s)
    else order_commission p.close_order_key s

abbrev pub rebooked : Decimal → PositionRow → PositionRow
rebooked pnl row = record row { position = record row.position { realised_pnl = some pnl } }

unfoldable pub recompute_realised : ℕ → Call Position
unfolding load_present
recompute_realised id = transaction do
  existing ← load_present id
  raise_if (is_open_status existing.status) position_state_error
  exit_price ← or_raise existing.exit_price position_state_error
  closing ← current_closing_commission id existing
  entry ← order_commission (some existing.open_order_key)
  let pnl = realised existing.entry_price exit_price existing.lots existing.lot_size entry closing
  update id (rebooked pnl)
  insert_event id (PositionChange.realised_recomputed existing.realised_pnl pnl)
  load_present id

-- The stop and the target at a price, from the percentages of the settings.
abbrev pub stop_at : Config → Decimal → Decimal
stop_at cfg price = div_hundred (mul price (sub hundred cfg.stop_loss_pct))

abbrev pub target_at : Config → Decimal → Decimal
target_at cfg price = div_hundred (mul price (add hundred cfg.take_profit_pct))

unfoldable pub adopt : Config → Instrument → ℤ → Decimal → Datetime → String → Call Position
unfolding load_present
adopt cfg instrument lots average_price adopted_at open_order_key = do
  raise_if (not adopted_at.aware) value_error
  raise_if (leb_ℤ lots (pos 0)) position_state_error
  transaction do
    id ← insert (
        open_row instrument.ticker instrument.figi "ADOPTED" lots instrument.lot average_price
          adopted_at (stop_at cfg average_price) (target_at cfg average_price) true open_order_key)
    insert_event id (
        PositionChange.adopted instrument.ticker lots average_price open_order_key
          (stop_at cfg average_price) (target_at cfg average_price))
    load_present id

abbrev pub resized : ℤ → PositionRow → PositionRow
resized lots row = record row { position = record row.position { lots = lots } }

unfoldable pub update_lots : ℕ → ℤ → Call Position
unfolding load_present
update_lots id lots = do
  raise_if (leb_ℤ lots (pos 0)) position_state_error
  transaction do
    existing ← load_present id
    raise_if (not (is_open_status existing.status)) position_state_error
    update id (resized lots)
    insert_event id (PositionChange.lots_adjusted existing.lots lots)
    load_present id
