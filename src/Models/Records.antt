-- ===== src/Models/Records.antt =====
-- The dataclasses of zarabot/models.py, as plain records; `Validation` holds their checks.
use bazarabot.Base.{Bool, ℕ, String, List, Option}
use bazarabot.Base.Int.{ℤ}
use bazarabot.Base.Decimal.{Decimal}
use bazarabot.Models.Enums.{
  Side, OrderStatus, ExitTrigger, RejectionReason, HaltReason, StopOrderStatus, StopProtection,
  Intent, PositionStatus,
}

-- A `datetime`: the instant in microseconds since the year 1, and whether it carries a timezone.
pub record Datetime : Type 0 where
  pub instant : ℕ
  pub aware : Bool

-- A `date`: the proleptic ordinal of the day.
abbrev pub Date : Type 0
Date = ℕ

pub record Instrument : Type 0 where
  pub figi : String
  pub ticker : String
  pub lot : ℤ
  pub min_price_increment : Decimal
  pub currency : String
  pub trading_status : String
  pub refreshed_at : Datetime

pub record Signal : Type 0 where
  pub ticker : String
  pub strategy : String
  pub side : Side
  pub generated_at : Datetime
  pub reference_price : Decimal

pub record OperationRecord : Type 0 where
  pub id : String
  pub figi : String
  pub ticker : String
  pub occurred_at : Datetime
  pub commission : Decimal
  pub payment : Decimal
  pub price : Option Decimal
  pub quantity : Option ℤ
  pub operation_type : String
  pub state : String
  pub parent_operation_id : Option String
  pub trade_ids : List String

pub record Candle : Type 0 where
  pub timestamp : Datetime
  -- `open`
  pub opening : Decimal
  pub high : Decimal
  pub low : Decimal
  pub close : Decimal
  pub volume : ℤ

pub record Position : Type 0 where
  pub id : ℕ
  pub ticker : String
  pub figi : String
  pub strategy : String
  pub lots : ℤ
  pub lot_size : ℤ
  pub entry_price : Decimal
  pub entry_at : Datetime
  pub stop_price : Decimal
  pub target_price : Decimal
  pub status : PositionStatus
  pub adopted : Bool
  pub open_order_key : String
  pub close_order_key : Option String
  pub exit_trigger : Option ExitTrigger
  pub exit_price : Option Decimal
  pub exit_at : Option Datetime
  pub realised_pnl : Option Decimal
  pub stop_protection : StopProtection
  pub stop_order_key : Option String

pub record OrderRecord : Type 0 where
  pub key : String
  pub ticker : String
  pub figi : String
  pub side : Side
  pub intent : Intent
  pub lots : ℤ
  pub status : OrderStatus
  pub filled_lots : Option ℤ
  pub filled_price : Option Decimal
  pub commission : Option Decimal
  pub broker_reason : Option String
  pub created_at : Datetime
  pub settled_at : Option Datetime
  pub exit_trigger : Option ExitTrigger
  pub broker_order_id : Option String
  pub commission_alerted_at : Option Datetime
  pub trade_ids : List String

pub record StopOrderRecord : Type 0 where
  pub key : String
  pub stop_order_id : Option String
  pub position_id : ℕ
  pub ticker : String
  pub lots : ℤ
  pub stop_price : Decimal
  pub status : StopOrderStatus
  pub created_at : Datetime
  pub settled_at : Option Datetime

-- An entry of `ReconciliationReport.adjustments`, a dict with its `type` and the values beside it.
pub data Adjustment : Type 0 where
  closed_externally : String → ℕ → Decimal → Datetime → Decimal → Adjustment
  exit_unresolved : String → ℕ → String → Adjustment
  adopted foreign_holding : String → ℤ → Decimal → Adjustment
  lots_adjusted : String → ℕ → ℤ → ℤ → Adjustment
  stop_duplicate : String → ℕ → String → List String → Adjustment
  stop_mispriced : String → ℕ → Decimal → Decimal → Adjustment
  stop_missized : String → ℕ → ℤ → ℤ → Adjustment
  stop_adoptable : String → ℕ → Option String → Adjustment
  stop_missing : String → ℕ → Adjustment
  stop_orphan : String → Option String → String → Adjustment

pub record ReconciliationReport : Type 0 where
  pub ran_at : Datetime
  pub adjustments : List Adjustment

pub record PortfolioState : Type 0 where
  pub cash : Decimal
  pub positions : List Position

pub record SessionInfo : Type 0 where
  pub trade_date : Date
  pub start : Option Datetime
  pub end : Option Datetime
  pub is_trading_day : Bool

pub record RiskDecision : Type 0 where
  pub approved : Bool
  pub lots : Option ℤ
  pub reason : Option RejectionReason

pub record HaltState : Type 0 where
  pub halted : Bool
  pub reason : Option HaltReason
  pub detail : Option String
  pub halted_at : Option Datetime
  pub resumed_at : Option Datetime
  pub resumed_by : Option String

pub record TradingCalendar : Type 0 where
  pub sessions : List SessionInfo
