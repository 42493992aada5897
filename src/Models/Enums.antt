-- ===== src/Models/Enums.antt =====
-- The enumerations of zarabot/models.py, and the tests by `is` that the code makes on them.
use bazarabot.Base.{Bool, true, false}

pub data Side : Type 0 where
  buy sell : Side

pub data OrderStatus : Type 0 where
  submitting submitted filled rejected cancelled unknown : OrderStatus

pub data ExitTrigger : Type 0 where
  stop_loss take_profit max_age external : ExitTrigger

pub data RejectionReason : Type 0 where
  halted session_closed instrument_not_trading duplicate_ticker max_positions cooldown_active
        insufficient_cash zero_lots portfolio_exposure broker_lot_limit :
      RejectionReason

pub data HaltReason : Type 0 where
  daily_loss_limit manual reconciliation_mismatch : HaltReason

pub data StopOrderStatus : Type 0 where
  placing active cancelled executed orphaned failed : StopOrderStatus

pub data StopProtection : Type 0 where
  exchange local : StopProtection

-- `orders.intent` and `positions.status` are texts that the schema restricts to these values.
pub data Intent : Type 0 where
  entry exit : Intent

pub data PositionStatus : Type 0 where
  opened closed : PositionStatus

abbrev pub is_buy : Side → Bool
is_buy Side.buy = true
is_buy Side.sell = false

abbrev pub is_filled : OrderStatus → Bool
is_filled OrderStatus.filled = true
is_filled _ = false

abbrev pub is_submitted : OrderStatus → Bool
is_submitted OrderStatus.submitted = true
is_submitted _ = false

abbrev pub is_stop_loss : ExitTrigger → Bool
is_stop_loss ExitTrigger.stop_loss = true
is_stop_loss _ = false

abbrev pub is_external : ExitTrigger → Bool
is_external ExitTrigger.external = true
is_external _ = false

abbrev pub is_exchange : StopProtection → Bool
is_exchange StopProtection.exchange = true
is_exchange StopProtection.local = false

abbrev pub is_entry : Intent → Bool
is_entry Intent.entry = true
is_entry Intent.exit = false

abbrev pub is_open_status : PositionStatus → Bool
is_open_status PositionStatus.opened = true
is_open_status PositionStatus.closed = false
