-- ===== src/Clock/Examples.antt =====
-- Ages over a calendar of one day, where a day has ten ticks.
use bazarabot.Base.{ℕ, ◌≡◌, refl, arith, [], ◌∷◌, ◌≤◌, ◌+◌, ◌-◌, ◌/◌}
use bazarabot.Base.Exec.{ok}
use bazarabot.Models.{Datetime, Date, TradingCalendar}
use bazarabot.Clock.{trading_days_between}
use bazarabot.Clock.Elapsed.{trading_days_add}
use bazarabot.Samples.{at, session}

abbrev one_day : TradingCalendar
one_day = record { sessions = session ∷ [] }

-- A time zone in which a new day starts every ten microseconds.
abbrev day_of : Datetime → Date
day_of t = t.instant / 10

day_of_mono : (x y : Datetime) → x.instant ≤ y.instant → day_of x ≤ day_of y
day_of_mono x y h = omega (arith, h)

trading_days_add_example :
    (m : ℕ) × (n : ℕ) × (trading_days_between day_of (at 3) (at 12) one_day ≡ ok m)
    × (trading_days_between day_of (at 12) (at 40) one_day ≡ ok n)
    × (trading_days_between day_of (at 3) (at 40) one_day ≡ ok (m + n))
    × (m + n ≤ day_of (at 40) - day_of (at 3))
trading_days_add_example =
    trading_days_add day_of one_day (at 3) (at 12) (at 40) day_of_mono refl refl refl (omega arith)
      (omega arith)
