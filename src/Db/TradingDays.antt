-- ===== src/Db/TradingDays.antt =====
-- zarabot/db/trading_days.py: the days that the broker's schedule has told of, one row per date.
pub mod Upsert
use bazarabot.Base.{
  ℕ, Bool, List, [], ◌∷◌, ◌++◌, Option, none, some, eqb, leb, keep, length, if◌then◌else◌,
}
use bazarabot.Base.Exec.{pure, gets, modify, ◌>>=◌, ◌>>◌}
use bazarabot.Models.{Date, SessionInfo}
use bazarabot.Db.Store.{Store, Call, transaction}

abbrev pub on_day : Date → SessionInfo → Bool
on_day day x = eqb x.trade_date day

-- `INSERT ... ON CONFLICT (trade_date) DO UPDATE`, and `by_day[day] = session` on a dict.
abbrev pub put : SessionInfo → List SessionInfo → List SessionInfo
put x [] = x ∷ []
put x (y ∷ ys) = if on_day x.trade_date y then x ∷ ys else y ∷ put x ys

abbrev pub put_all : List SessionInfo → List SessionInfo → List SessionInfo
put_all [] rows = rows
put_all (x ∷ xs) rows = put_all xs (put x rows)

-- `ORDER BY trade_date ASC`
abbrev pub place : SessionInfo → List SessionInfo → List SessionInfo
place x [] = x ∷ []
place x (y ∷ ys) = if leb x.trade_date y.trade_date then x ∷ y ∷ ys else y ∷ place x ys

abbrev pub sort : List SessionInfo → List SessionInfo
sort [] = []
sort (x ∷ xs) = place x (sort xs)

abbrev pub set_trading_days : (List SessionInfo → List SessionInfo) → Store → Store
set_trading_days f s = record s { db = record s.db { trading_days = f s.db.trading_days } }

-- One transaction for the whole window; the column `observed_at` is never read and is left out.
unfoldable pub record_many : List SessionInfo → Call ℕ
record_many sessions =
    transaction do modify (set_trading_days (put_all sessions)); pure (length sessions)

unfoldable pub list_since : Date → Call (List SessionInfo)
list_since start = gets (λ s. sort (keep (λ x. leb start x.trade_date) s.db.trading_days))

-- `SELECT MIN(trade_date)`
abbrev pub min_date : List SessionInfo → Option Date
min_date [] = none
min_date (x ∷ xs) = elim (min_date xs) [
  | none ↦ some x.trade_date
  | some d ↦ some (if leb x.trade_date d then x.trade_date else d)
]

unfoldable pub earliest : Call (Option Date)
earliest = gets (λ s. min_date s.db.trading_days)
