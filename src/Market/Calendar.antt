-- ===== src/Market/Calendar.antt =====
-- `calendar` of zarabot/market/session.py, which ages are counted by.
use bazarabot.Base.{
  if◌then◌else◌, Option, some, ◌≡◌, refl, ◌∙◌, ◌++◌, [], none, first, get_or, List, ◌∷◌,
}
use bazarabot.Models.{Date, SessionInfo}
use bazarabot.Db.TradingDays.{on_day}
use bazarabot.Db.TradingDays.Upsert.{
  newest, first-put_all, first-sort, IsAscending, sort-IsAscending, put_all-HasDistinctDays,
}
use bazarabot.Market.{Guard, calendar}

newest-append :
    (day : Date) (xs ys : List SessionInfo) (old : Option SessionInfo)
    → newest day (xs ++ ys) old ≡ newest day ys (newest day xs old)
newest-append day [] ys old = refl
newest-append day (x ∷ xs) ys old = newest-append day xs ys (if on_day day x then some x else old)

-- The calendar is in strict order of dates, one entry per date; the entry of a date is the last one
-- of the live window, and where the window has none, the last one of the history.
pub calendar_live_wins :
    (g : Guard) (day : Date)
    → IsAscending (calendar g).sessions
      × (first (on_day day) (calendar g).sessions
          ≡ newest day (get_or g.cache []) (newest day (get_or g.history []) none))
unfolding calendar
calendar_live_wins g day = (
  sort-IsAscending _ (put_all-HasDistinctDays (get_or g.history [] ++ get_or g.cache []) [] tt),
  first-sort day _
      ∙ first-put_all (get_or g.history [] ++ get_or g.cache []) day []
      ∙ newest-append day (get_or g.history []) (get_or g.cache []) none,
)
