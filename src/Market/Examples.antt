-- ===== src/Market/Examples.antt =====
-- Schedules of two days.
use bazarabot.Base.{true, false, ◌≡◌, refl, some, none, [], ◌∷◌, List, first}
use bazarabot.Base.Exec.{Result, ok, err}
use bazarabot.Models.{SessionInfo}
use bazarabot.Errors.{Error, broker_unavailable}
use bazarabot.Db.TradingDays.{on_day}
use bazarabot.Db.TradingDays.Upsert.{IsAscending, newest}
use bazarabot.Market.{Guard, calendar}
use bazarabot.Market.Calendar.{calendar_live_wins}
use bazarabot.Market.Incident.{refresh_all, told, schedule_alerted_once}
use bazarabot.Market.Session.{cache_exhausted}
use bazarabot.Samples.{at, database, store, session}

abbrev holiday : SessionInfo
holiday = record { trade_date = 1; start = none; end = none; is_trading_day = false }

abbrev guard : Guard
guard = record {
  store = store (database [] []);
  cache = some (session ∷ []);
  history = some (holiday ∷ []);
  earliest_day = some 1;
  alerted = false;
}

calendar_live_wins_example :
    IsAscending (calendar guard).sessions
    × (first (on_day 1) (calendar guard).sessions
        ≡ newest 1 (session ∷ []) (newest 1 (holiday ∷ []) none))
calendar_live_wins_example = calendar_live_wins guard 1

-- The broker does not answer, and then knows of a holiday only.
abbrev answers : List (Result Error (List SessionInfo))
answers = ok (holiday ∷ []) ∷ []

schedule_alerted_once_example : refresh_all (err broker_unavailable ∷ answers) guard ≡ told guard
schedule_alerted_once_example =
    schedule_alerted_once (err broker_unavailable) answers guard (refl, (refl, tt)) refl

used_up : cache_exhausted (some (session ∷ [])) (at 1_000_000_000) ≡ ok true
unfolding cache_exhausted
used_up = refl
