-- ===== src/Sandbox/Advance.antt =====
-- The cursor of `SimulatedExchange`: `advance` fires the standing stops of the bars it enters.
use bazarabot.Base.{Bool, ℕ, String, List, [], ◌∷◌, ◌++◌, Option, none, some, if◌then◌else◌}
use bazarabot.Base.Int.{ℤ}
use bazarabot.Base.Decimal.{Decimal}
use bazarabot.Base.Dict.{Dict, set}
use bazarabot.Base.Exec.{gets, modify, ◌>>=◌, ◌>>◌}
use bazarabot.Models.{Candle, Datetime, ExitTrigger}
use bazarabot.Sandbox.Exchange.{Exchange, Phase, bar_for, reaches}
use bazarabot.Sandbox.Fills.{Sim, ticker_for}
use bazarabot.Sandbox.Firing.{is_checked, fire_each}

abbrev pub new_bar : Exchange → Option Candle → List ℕ
new_bar x none = []
new_bar x (some bar) = if is_checked x bar then [] else bar.timestamp.instant ∷ []

-- The bars that are entered, over the tickers with bars.
abbrev pub entered : Exchange → Dict (List Candle) → List ℕ
entered x [] = []
entered x ((ticker, bars) ∷ rest) = new_bar x (bar_for ticker x) ++ entered x rest

abbrev pub mark_checked : List ℕ → Exchange → Exchange
mark_checked bars x = record x { stops_checked = bars ++ x.stops_checked }

-- `_fire_stops`
unfoldable pub fire_stops : Datetime → Sim (Unit {0})
fire_stops at x = (fire_each at x x.stops >>= λ _. modify (mark_checked (entered x x.bars))) x

abbrev pub move_to : Datetime → Phase → Exchange → Exchange
move_to at phase x = record x { now = some at; phase = phase }

unfoldable pub advance : Datetime → Phase → Sim (Unit {0})
advance at phase = do modify (move_to at phase); fire_stops at

abbrev pub hold : String → ℤ → Decimal → Exchange → Exchange
hold figi lots price x = record x {
  holdings = set figi (record { lots = lots; average_price = price }) x.holdings;
}

abbrev pub touched : String → Decimal → ExitTrigger → Sim Bool
touched figi level trigger = do
  found ← ticker_for figi
  gets (λ x. reaches trigger level (bar_for found.0 x))
