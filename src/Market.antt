-- ===== src/Market.antt =====
-- zarabot/market/session.py: the exchange session guard. The broker's answer to
-- `get_trading_schedule` is an argument. Log records are not modelled.
mod Examples
pub mod Calendar
pub mod Incident
pub mod Session
use bazarabot.Base.{
  ℕ, Bool, true, false, not, ◌&&◌, List, [], ◌∷◌, ◌++◌, Option, none, some, any, first, get_or,
  is_some, leb, ltb, if◌then◌else◌,
}
use bazarabot.Base.Exec.{Exec, Result, ok, err, pure, gets, modify, raise_if, continue, ◌>>=◌, ◌>>◌}
use bazarabot.Models.{Datetime, Date, SessionInfo, TradingCalendar}
use bazarabot.Errors.{
  Error, value_error, integrity_error, database_error, broker_unavailable, broker_rate_limited,
}
use bazarabot.Db.Store.{Alert, Store, Call}
use bazarabot.Db.Store
use bazarabot.Db.TradingDays.{put_all, sort, record_many, list_since, earliest}

-- The globals of the module, beside the store.
pub record Guard : Type 0 where
  pub store : Store
  pub cache : Option (List SessionInfo)
  pub history : Option (List SessionInfo)
  pub earliest_day : Option Date
  pub alerted : Bool

abbrev pub Step : Type 0 → Type 0
Step = Exec Guard Error

-- A call on the database.
abbrev pub on_store : {A : Type 0} → Call A → Step A
on_store m g = let (r, s) = m g.store in (r, record g { store = s })

abbrev pub has_trading_sessions : List SessionInfo → Bool
has_trading_sessions = any (λ x. x.is_trading_day)

-- `_report_unavailable`
unfoldable pub report_unavailable : Step (Unit {0})
report_unavailable g = if g.alerted then (ok tt, g) else do_report g
  where
    do_report : Step (Unit {0})
    do_report = do
      on_store (Store.alert Alert.schedule_unavailable)
      modify (λ h. record h { alerted = true })

-- `list_since(_earliest) if _earliest is not None else []`
abbrev pub known_since : Option Date → Call (List SessionInfo)
known_since none = pure []
known_since (some day) = list_since day

-- `except aiosqlite.Error`
abbrev pub swallow : Result Error (Unit {0}) × Guard → Result Error (Unit {0}) × Guard
swallow (err database_error, g) = (ok tt, g)
swallow (err integrity_error, g) = (ok tt, g)
swallow r = r

-- `_remember`
unfoldable pub remember : List SessionInfo → Step (Unit {0})
remember fetched g = swallow (
    (do
      on_store (record_many fetched)
      day ← on_store earliest
      modify (λ h. record h { earliest_day = day })
      known ← on_store (known_since day)
      modify (λ h. record h { history = some known }))
      g)

-- `refresh`, given what the broker answered.
unfoldable pub refresh : Result Error (List SessionInfo) → Step (Unit {0})
unfolding report_unavailable remember
refresh (err broker_unavailable) = report_unavailable
refresh (err broker_rate_limited) = report_unavailable
refresh (err e) = λ g. (err e, g)
refresh (ok fetched) =
    if has_trading_sessions fetched
    then (do modify (λ h. record h { cache = some fetched; alerted = false }); remember fetched)
    else report_unavailable

-- History first, then the live window, so that the newer observation wins.
unfoldable pub calendar : Guard → TradingCalendar
calendar g = record { sessions = sort (put_all (get_or g.history [] ++ get_or g.cache []) []) }

unfoldable pub covers : Guard → Date → Bool
covers g day = elim g.earliest_day [ none ↦ false | some from ↦ leb from day ]
