-- ===== src/Db/TradingDays/Upsert.antt =====
-- Lookups after the upsert and the sort of zarabot/db/trading_days.py.
use bazarabot.Base.{
  ◌≡◌, refl, ◌∙◌, List, [], ◌∷◌, Option, none, some, first, if◌then◌else◌, arith, ◌<◌, All,
}
use bazarabot.Models.{Date, SessionInfo}
use bazarabot.Db.TradingDays.{on_day, put, put_all, place, sort}

-- Looking up a date after an upsert.
pub first-put :
    (x : SessionInfo) (day : Date) (rows : List SessionInfo)
    → first (on_day day) (put x rows) ≡ (if on_day day x then some x else first (on_day day) rows)
first-put x day [] = refl
first-put x day (y ∷ ys) = ground (arith, first-put x day ys)

-- The last entry for a day among those put, or the row that was there.
abbrev pub newest : Date → List SessionInfo → Option SessionInfo → Option SessionInfo
newest day [] old = old
newest day (x ∷ xs) old = newest day xs (if on_day day x then some x else old)

pub first-put_all :
    (xs : List SessionInfo) (day : Date) (rows : List SessionInfo)
    → first (on_day day) (put_all xs rows) ≡ newest day xs (first (on_day day) rows)
first-put_all [] day rows = refl
first-put_all (x ∷ xs) day rows = first-put_all xs day (put x rows) ∙ (rw (first-put x day rows))

-- No two rows share a date.
abbrev pub HasDistinctDays : List SessionInfo → Type 0
HasDistinctDays [] = Unit
HasDistinctDays (x ∷ xs) = (first (on_day x.trade_date) xs ≡ none) × HasDistinctDays xs

put-HasDistinctDays :
    (x : SessionInfo) (rows : List SessionInfo)
    → HasDistinctDays rows
    → HasDistinctDays (put x rows)
put-HasDistinctDays x [] h = (refl, tt)
put-HasDistinctDays x (y ∷ ys) h =
    ground (arith, first-put x y.trade_date ys, put-HasDistinctDays x ys)

pub put_all-HasDistinctDays :
    (xs rows : List SessionInfo) → HasDistinctDays rows → HasDistinctDays (put_all xs rows)
put_all-HasDistinctDays [] rows h = h
put_all-HasDistinctDays (x ∷ xs) rows h =
    put_all-HasDistinctDays xs (put x rows) (put-HasDistinctDays x rows h)

first-place :
    (x : SessionInfo) (day : Date) (rows : List SessionInfo)
    → first (on_day day) (place x rows) ≡ (if on_day day x then some x else first (on_day day) rows)
first-place x day [] = refl
first-place x day (y ∷ ys) = ground (arith, first-place x day ys)

-- Sorting keeps every lookup.
pub first-sort :
    (day : Date) (rows : List SessionInfo)
    → first (on_day day) (sort rows) ≡ first (on_day day) rows
first-sort day [] = refl
first-sort day (x ∷ xs) = first-place x day (sort xs) ∙ (rw (first-sort day xs))

-- Strictly ascending dates.
abbrev pub IsAscending : List SessionInfo → Type 0
IsAscending [] = Unit
IsAscending (x ∷ xs) = All (λ y. x.trade_date < y.trade_date) xs × IsAscending xs

All-later :
    (d : Date) (x : SessionInfo) (rows : List SessionInfo)
    → d < x.trade_date
    → All (λ y. d < y.trade_date) rows
    → All (λ y. d < y.trade_date) (place x rows)
All-later d x [] h k = (h, tt)
All-later d x (y ∷ ys) h k = ground (arith, All-later d x ys)

All-before :
    (d e : Date) (rows : List SessionInfo)
    → d < e
    → All (λ y. e < y.trade_date) rows
    → All (λ y. d < y.trade_date) rows
All-before d e [] h k = tt
All-before d e (y ∷ ys) h k = (omega (arith, h, k.0), All-before d e ys h k.1)

place-IsAscending :
    (x : SessionInfo) (rows : List SessionInfo)
    → first (on_day x.trade_date) rows ≡ none
    → IsAscending rows
    → IsAscending (place x rows)
place-IsAscending x [] new h = (tt, tt)
place-IsAscending x (y ∷ ys) new h = ground (
  arith,
  All-later y.trade_date x ys,
  All-before x.trade_date y.trade_date ys,
  place-IsAscending x ys,
)

-- Rows with distinct dates come out in strict order.
pub sort-IsAscending : (rows : List SessionInfo) → HasDistinctDays rows → IsAscending (sort rows)
sort-IsAscending [] h = tt
sort-IsAscending (x ∷ xs) h =
    place-IsAscending x (sort xs) (first-sort x.trade_date xs ∙ h.0) (sort-IsAscending xs h.1)
