-- ===== src/Samples.antt =====
-- The records that the examples run the code on.
use bazarabot.Base.{ℕ, true, false, String, List, [], ◌∷◌, none, some}
use bazarabot.Base.Int.{pos}
use bazarabot.Base.Decimal.{Decimal, of_int}
use bazarabot.Models.{
  Datetime, ExitTrigger, Instrument, Intent, OrderRecord, OrderStatus, PortfolioState, Position,
  PositionStatus, SessionInfo, Side, Signal, StopProtection,
}
use bazarabot.Config.{Config}
use bazarabot.Db.Store.{Database, PositionRow, Store}

abbrev pub at : ℕ → Datetime
at n = record { instant = n; aware = true }

abbrev pub money : ℕ → Decimal
money n = of_int (pos n)

abbrev pub share : Instrument
share = record {
  figi = "F1";
  ticker = "SBER";
  lot = pos 10;
  min_price_increment = money 1;
  currency = "rub";
  trading_status = "NORMAL_TRADING";
  refreshed_at = at 0;
}

abbrev pub settings : Config
settings = record {
  allocated_capital = money 10_000;
  position_size_pct = money 50;
  stop_loss_pct = money 5;
  take_profit_pct = money 10;
  max_holding_days = pos 3;
  max_open_positions = pos 10;
  reentry_cooldown_minutes = 120;
  daily_loss_limit_pct = money 5;
  watchlist = "SBER" ∷ [];
  enabled_strategies = "momentum" ∷ [];
  cash_reserve_pct = money 1;
  fill_slippage_alert_pct = money 2;
  allow_foreign_holdings = false;
}

abbrev pub buy_signal : Signal
buy_signal = record {
  ticker = "SBER";
  strategy = "momentum";
  side = Side.buy;
  generated_at = at 0;
  reference_price = money 100;
}

abbrev pub portfolio : PortfolioState
portfolio = record { cash = money 10_000; positions = [] }

-- Five lots of ten shares, bought at 100.
abbrev pub holding : Position
holding = record {
  id = 1;
  ticker = "SBER";
  figi = "F1";
  strategy = "momentum";
  lots = pos 5;
  lot_size = pos 10;
  entry_price = money 100;
  entry_at = at 0;
  stop_price = money 95;
  target_price = money 110;
  status = PositionStatus.opened;
  adopted = false;
  open_order_key = "K1";
  close_order_key = none;
  exit_trigger = none;
  exit_price = none;
  exit_at = none;
  realised_pnl = none;
  stop_protection = StopProtection.local;
  stop_order_key = none;
}

abbrev pub sold : Position
sold = record holding {
  status = PositionStatus.closed;
  exit_trigger = some ExitTrigger.take_profit;
  exit_price = some (money 110);
  exit_at = some (at 9);
  realised_pnl = some (money 500);
  close_order_key = some "K2";
}

abbrev pub order : String → Intent → Side → OrderStatus → OrderRecord
order key intent side status = record {
  key = key;
  ticker = "SBER";
  figi = "";
  side = side;
  intent = intent;
  lots = pos 5;
  status = status;
  filled_lots = none;
  filled_price = none;
  commission = none;
  broker_reason = none;
  created_at = at 0;
  settled_at = none;
  exit_trigger = none;
  broker_order_id = none;
  commission_alerted_at = none;
  trade_ids = [];
}

abbrev pub entry_order : OrderRecord
entry_order = order "K1" Intent.entry Side.buy OrderStatus.filled

abbrev pub exit_order : OrderRecord
exit_order = order "K2" Intent.exit Side.sell OrderStatus.submitting

abbrev pub database : List OrderRecord → List PositionRow → Database
database orders positions = record {
  orders = orders;
  positions = positions;
  position_events = [];
  stop_orders = [];
  cooldowns = [];
  halt_state = none;
  trading_days = [];
  signals = [];
  job_runs = [];
  snapshots = [];
  reconciliations = [];
}

abbrev pub store : Database → Store
store d = record { db = d; disk = []; clock = 5; outbox = [] }

abbrev pub row_of : Position → PositionRow
row_of p = record { position = p; exit_commission = none }

abbrev pub session : SessionInfo
session = record {
  trade_date = 1;
  start = some (at 0);
  end = some (at 1_000_000_000);
  is_trading_day = true;
}
