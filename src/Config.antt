-- ===== src/Config.antt =====
-- zarabot/config.py: the settings that the modelled code reads, out of the class `Config`.
use bazarabot.Base.{ℕ, List, String, Bool}
use bazarabot.Base.Int.{ℤ}
use bazarabot.Base.Decimal.{Decimal}

pub record Config : Type 0 where
  pub allocated_capital : Decimal
  pub position_size_pct : Decimal
  pub stop_loss_pct : Decimal
  pub take_profit_pct : Decimal
  pub max_holding_days : ℤ
  pub max_open_positions : ℤ
  pub reentry_cooldown_minutes : ℕ
  pub daily_loss_limit_pct : Decimal
  pub watchlist : List String
  pub enabled_strategies : List String
  pub cash_reserve_pct : Decimal
  pub fill_slippage_alert_pct : Decimal
  pub allow_foreign_holdings : Bool
