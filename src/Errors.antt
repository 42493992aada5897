-- ===== src/Errors.antt =====
-- The exceptions that the modelled code raises or handles. Messages are left out; the broker's
-- reason is kept where the code stores it.
use bazarabot.Base.{String, Bool, true, false}

pub data Error : Type 0 where
  value_error : Error
  -- `aiosqlite.IntegrityError` that is not translated, and any other `aiosqlite.Error`.
  integrity_error database_error : Error
  duplicate_order_error order_state_error position_state_error : Error
  order_rejected : String → Error
  stop_order_rejected broker_unavailable broker_rate_limited : Error
  order_not_found instrument_not_found exit_failed : Error
  -- `RuntimeError` of the simulated exchange before its first bar.
  not_advanced : Error

-- `except aiosqlite.Error`
abbrev pub is_database : Error → Bool
is_database integrity_error = true
is_database database_error = true
is_database _ = false

-- `except OrderStateError`
abbrev pub is_order_state : Error → Bool
is_order_state order_state_error = true
is_order_state _ = false

-- `except (BrokerUnavailable, BrokerRateLimited)`
abbrev pub is_unreachable : Error → Bool
is_unreachable broker_unavailable = true
is_unreachable broker_rate_limited = true
is_unreachable _ = false
