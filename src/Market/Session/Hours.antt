-- ===== src/Market/Session/Hours.antt =====
-- How the answers of zarabot/market/session.py fit together.
use bazarabot.Base.{
  get_or, if◌then◌else◌, ap, Bool, true, false, ◌≡◌, refl, List, [], ◌∷◌, first, is_some, arith,
}
use bazarabot.Models.{Datetime, SessionInfo}
use bazarabot.Base.Exec.{Result, ok, err}
use bazarabot.Errors.{value_error}
use bazarabot.Market.Session.{
  found, Cache, cache_exhausted, current_session, is_open, holds, last_end, past,
}

exhausted_closed :
    (now : Datetime) (rows : List SessionInfo)
    → past now (last_end rows) ≡ true
    → is_some (first (holds now) rows) ≡ false
exhausted_closed now [] h = refl
exhausted_closed now (x ∷ xs) h = ground (arith, exhausted_closed now xs)

same_flag : {E : Type 0} {a b : Bool} → ◌≡◌ {A = Result E Bool} (ok a) (ok b) → a ≡ b
same_flag e = cc

closed_when :
    (b : Bool) (now : Datetime) (rows : List SessionInfo)
    → (if b then ok (past now (last_end rows)) else err value_error) ≡ ok true
    → found (if b then ok (first (holds now) rows) else err value_error) ≡ ok false
closed_when true now rows h = ap ok (exhausted_closed now rows (same_flag h))
closed_when false now rows h = cc

-- Once the schedule is used up, the market counts as closed.
exhausted_is_closed :
    (cache : Cache) (now : Datetime)
    → cache_exhausted cache now ≡ ok true
    → is_open cache now ≡ ok false
unfolding cache_exhausted is_open current_session
exhausted_is_closed cache now h = closed_when now.aware now (get_or cache []) h
