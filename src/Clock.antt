-- ===== src/Clock.antt =====
-- zarabot/clock.py: trading-day arithmetic. The Moscow date of an instant comes from the time zone
-- database, which is outside the program: `moscow_date` is a parameter.
pub mod Elapsed
mod Examples
use bazarabot.Base.{
  ℕ, zero, suc, ◌+◌, ◌-◌, Bool, true, false, not, ◌||◌, ◌&&◌, List, [], ◌∷◌, Option, none, some,
  eqb, any, ltb, if◌then◌else◌,
}
use bazarabot.Base.Exec.{Result, ok, err}
use bazarabot.Models.{Datetime, Date, SessionInfo, TradingCalendar}
use bazarabot.Errors.{Error, value_error}

-- Whether a session is a trading day whose start falls on a date.
abbrev pub opens_on : (Datetime → Date) → Date → SessionInfo → Bool
opens_on moscow_date day x =
    x.is_trading_day && (elim x.start [ none ↦ false | some b ↦ eqb (moscow_date b) day ])

-- `cursor in trading_dates`
abbrev pub is_trading_date : (Datetime → Date) → TradingCalendar → Date → Bool
is_trading_date moscow_date calendar day = any (opens_on moscow_date day) calendar.sessions

-- The loop `while cursor <= end_d`, `left` times from the cursor on.
abbrev pub elapsed : (Date → Bool) → Date → ℕ → ℕ
elapsed counts cursor zero = 0
elapsed counts cursor (suc left) =
    (if counts cursor then 1 else 0) + elapsed counts (suc cursor) left

unfoldable pub trading_days_between :
    (Datetime → Date) → Datetime → Datetime → TradingCalendar → Result Error ℕ
trading_days_between moscow_date start end calendar =
    if not start.aware || not end.aware
    then err value_error
    else if ltb end.instant start.instant
    then err value_error
    else ok (
        elapsed (is_trading_date moscow_date calendar) (suc (moscow_date start))
          (moscow_date end - moscow_date start))
