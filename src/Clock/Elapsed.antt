-- ===== src/Clock/Elapsed.antt =====
-- The count of trading days in zarabot/clock.py over adjoining spans.
use bazarabot.Base.{ℕ, zero, suc, ◌+◌, ◌-◌, ◌≤◌, Bool, true, ◌≡◌, arith, ap, ◌∙◌}
use bazarabot.Base.Exec.{ok}
use bazarabot.Models.{Datetime, Date, TradingCalendar}
use bazarabot.Clock.{elapsed, is_trading_date, trading_days_between}

elapsed-+ :
    (counts : Date → Bool) (cursor : Date) (m n : ℕ)
    → elapsed counts cursor (m + n) ≡ elapsed counts cursor m + elapsed counts (m + cursor) n
elapsed-+ counts cursor zero n =
    let here : 0 + cursor ≡ cursor = omega arith in
    let count : 0 + n ≡ n = omega arith in rw (here, count) (omega arith)
elapsed-+ counts cursor (suc m) n =
    let count : suc m + n ≡ suc (m + n) = omega arith in
    let onward : suc m + cursor ≡ m + suc cursor = omega arith in
    rw (count, onward, elapsed-+ counts (suc cursor) m n) (omega arith)

elapsed-bound : (counts : Date → Bool) (cursor : Date) (n : ℕ) → elapsed counts cursor n ≤ n
elapsed-bound counts cursor zero = omega arith
elapsed-bound counts cursor (suc n) = ground (arith, elapsed-bound counts (suc cursor) n)

-- The count that is returned for aware instants in order.
counted :
    (moscow_date : Datetime → Date) (calendar : TradingCalendar) (a b : Datetime)
    → a.aware ≡ true
    → b.aware ≡ true
    → a.instant ≤ b.instant
    → trading_days_between moscow_date a b calendar
      ≡ ok (
          elapsed
            (is_trading_date moscow_date calendar)
            (suc (moscow_date a))
            (moscow_date b - moscow_date a))
unfolding trading_days_between
counted moscow_date calendar a b ha hb ab = ground arith

split :
    (counts : Date → Bool) (a b c : Date)
    → a ≤ b
    → b ≤ c
    → elapsed counts (suc a) (c - a)
      ≡ elapsed counts (suc a) (b - a) + elapsed counts (suc b) (c - b)
split counts a b c ab bc =
    let whole : c - a ≡ (b - a) + (c - b) = omega (arith, ab, bc) in
    let middle : (b - a) + suc a ≡ suc b = omega (arith, ab) in
    rw (whole, elapsed-+ counts (suc a) (b - a) (c - b), middle)

-- For aware instants in order, where a later instant has no earlier Moscow date, the trading days
-- from the first to the last are those to the middle one and those after it, and they are at most
-- the calendar days.
pub trading_days_add :
    (moscow_date : Datetime → Date) (calendar : TradingCalendar) (a b c : Datetime)
    → ((x y : Datetime) → x.instant ≤ y.instant → moscow_date x ≤ moscow_date y)
    → a.aware ≡ true
    → b.aware ≡ true
    → c.aware ≡ true
    → a.instant ≤ b.instant
    → b.instant ≤ c.instant
    → (m : ℕ) × (n : ℕ) × (trading_days_between moscow_date a b calendar ≡ ok m)
      × (trading_days_between moscow_date b c calendar ≡ ok n)
      × (trading_days_between moscow_date a c calendar ≡ ok (m + n))
      × (m + n ≤ moscow_date c - moscow_date a)
trading_days_add moscow_date calendar a b c mono ha hb hc ab bc =
    let counts : Date → Bool = is_trading_date moscow_date calendar in
    let whole =
      split counts (moscow_date a) (moscow_date b) (moscow_date c) (mono a b ab) (mono b c bc) in
    (
      elapsed counts (suc (moscow_date a)) (moscow_date b - moscow_date a),
      elapsed counts (suc (moscow_date b)) (moscow_date c - moscow_date b),
      counted moscow_date calendar a b ha hb ab,
      counted moscow_date calendar b c hb hc bc,
      counted moscow_date calendar a c ha hc (omega (arith, ab, bc)) ∙ ap ok whole,
      omega (
        arith,
        whole,
        elapsed-bound counts (suc (moscow_date a)) (moscow_date c - moscow_date a),
      ),
    )
