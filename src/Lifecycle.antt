-- ===== src/Lifecycle.antt =====
-- zarabot/lifecycle/exits.py: pure exit evaluation.
pub mod Precedence
mod Examples
use bazarabot.Base.{ℕ, Bool, true, false, not, ◌&&◌, Option, none, some, if◌then◌else◌}
use bazarabot.Base.Int.{ℤ, pos, leb_ℤ}
use bazarabot.Base.Decimal.{Decimal, leb_dec}
use bazarabot.Base.Exec.{Result, ok, err}
use bazarabot.Models.{Datetime, ExitTrigger, Position, SessionInfo, is_exchange, in_closing_window}
use bazarabot.Config.{Config}
use bazarabot.Errors.{Error, value_error}

-- The bot owns the stop, and the price has reached it.
abbrev pub local_stop : Position → Decimal → Bool
local_stop position price =
    not (is_exchange position.stop_protection) && leb_dec price position.stop_price

-- `trading_days_open is not None and trading_days_open >= config.max_holding_days`
abbrev pub held_long_enough : Option ℕ → Config → Bool
held_long_enough none config = false
held_long_enough (some days) config = leb_ℤ config.max_holding_days (pos days)

unfoldable pub evaluate :
    Position
    → Decimal
    → Datetime
    → SessionInfo
    → Option ℕ
    → Config
    → Result Error (Option ExitTrigger)
evaluate position price now session trading_days_open config =
    if not now.aware
    then err value_error
    else if local_stop position price
    then ok (some ExitTrigger.stop_loss)
    else if leb_dec position.target_price price
    then ok (some ExitTrigger.take_profit)
    else if held_long_enough trading_days_open config && in_closing_window session now 15
    then ok (some ExitTrigger.max_age)
    else ok none
