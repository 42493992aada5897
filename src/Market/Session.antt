-- ===== src/Market/Session.antt =====
-- The questions that zarabot/market/session.py answers from the cached schedule.
pub mod Hours
use bazarabot.Base.{
  ℕ, Bool, true, false, ◌&&◌, List, [], ◌∷◌, Option, none, some, first, get_or, is_some, leb, ltb,
  if◌then◌else◌,
}
use bazarabot.Base.Exec.{Result, ok, err}
use bazarabot.Models.{Datetime, SessionInfo}
use bazarabot.Models
use bazarabot.Errors.{Error, value_error}

-- `session.start <= now < session.end` of a trading day with both times.
abbrev pub within : Option Datetime → Option Datetime → Datetime → Bool
within none e now = false
within (some b) none now = false
within (some b) (some e) now = leb b.instant now.instant && ltb now.instant e.instant

abbrev pub holds : Datetime → SessionInfo → Bool
holds now x = x.is_trading_day && within x.start x.end now

abbrev pub Cache : Type 0
Cache = Option (List SessionInfo)

unfoldable pub current_session : Cache → Datetime → Result Error (Option SessionInfo)
current_session cache now =
    if now.aware then ok (first (holds now) (get_or cache [])) else err value_error

-- `session is not None`, where there is an answer.
abbrev pub found : Result Error (Option SessionInfo) → Result Error Bool
found (ok x) = ok (is_some x)
found (err e) = err e

unfoldable pub is_open : Cache → Datetime → Result Error Bool
is_open cache now = found (current_session cache now)

abbrev pub later : Datetime → Option Datetime → Datetime
later a none = a
later a (some b) = if leb a.instant b.instant then b else a

-- `max` of the ends of the trading days that have one.
abbrev pub last_end : List SessionInfo → Option Datetime
last_end [] = none
last_end (x ∷ xs) =
    let rest = last_end xs in
    elim x.end [ none ↦ rest | some e ↦ if x.is_trading_day then some (later e rest) else rest ]

abbrev pub past : Datetime → Option Datetime → Bool
past now none = true
past now (some e) = leb e.instant now.instant

unfoldable pub cache_exhausted : Cache → Datetime → Result Error Bool
cache_exhausted cache now =
    if now.aware then ok (past now (last_end (get_or cache []))) else err value_error

abbrev pub closing : Result Error (Option SessionInfo) → Datetime → ℕ → Result Error Bool
closing (err e) now mins = err e
closing (ok none) now mins = ok false
closing (ok (some x)) now mins = ok (Models.in_closing_window x now mins)

unfoldable pub in_closing_window : Cache → Datetime → ℕ → Result Error Bool
in_closing_window cache now mins = closing (current_session cache now) now mins

abbrev pub sooner : Datetime → Option Datetime → Datetime
sooner a none = a
sooner a (some b) = if leb a.instant b.instant then a else b

-- `min` of the starts after `now` of the trading days that have one.
abbrev pub first_start : Datetime → List SessionInfo → Option Datetime
first_start now [] = none
first_start now (x ∷ xs) =
    let rest = first_start now xs in
    elim x.start [
      | none ↦ rest
      | some b ↦
          if x.is_trading_day && ltb now.instant b.instant then some (sooner b rest) else rest
    ]

unfoldable pub next_open : Cache → Datetime → Result Error Datetime
next_open cache now =
    if now.aware then ok (get_or (first_start now (get_or cache [])) now) else err value_error
