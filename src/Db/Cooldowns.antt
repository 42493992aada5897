-- ===== src/Db/Cooldowns.antt =====
-- zarabot/db/cooldowns.py: when an exit started the re-entry cooldown of an instrument.
pub mod Newest
use bazarabot.Base.{
  ℕ, Bool, true, false, not, String, ◌==◌, List, [], ◌∷◌, ◌++◌, Option, none, some, first,
  update_where, leb, ltb, if◌then◌else◌, ◌+◌,
}
use bazarabot.Base.Exec.{ok, pure, gets, modify, raise_if, ◌>>=◌, ◌>>◌}
use bazarabot.Models.{Datetime, minutes}
use bazarabot.Errors.{value_error}
use bazarabot.Db.Store.{Store, Call, transaction}

abbrev pub names : String → (String × Datetime) → Bool
names ticker row = row.0 == ticker

abbrev pub time_of : Option (String × Datetime) → Option Datetime
time_of none = none
time_of (some row) = some row.1

-- `SELECT started_at FROM cooldowns WHERE ticker = ?`
abbrev pub lookup : String → Store → Option Datetime
lookup ticker s = time_of (first (names ticker) s.db.cooldowns)

unfoldable pub started_at : String → Call (Option Datetime)
started_at ticker = gets (lookup ticker)

abbrev pub set_cooldowns : (List (String × Datetime) → List (String × Datetime)) → Store → Store
set_cooldowns f s = record s { db = record s.db { cooldowns = f s.db.cooldowns } }

-- The row is moved forward, never back; without a row one is added.
abbrev pub advance : String → Datetime → Option Datetime → Call (Unit {0})
advance ticker at (some existing) =
    if leb at.instant existing.instant
    then pure tt
    else modify (set_cooldowns (update_where (names ticker) (λ row. (ticker, at))))
advance ticker at none = modify (set_cooldowns (λ rows. rows ++ (ticker, at) ∷ []))

unfoldable pub start : String → Datetime → Call (Unit {0})
start ticker at = do
  raise_if (not at.aware) value_error
  transaction do row ← gets (lookup ticker); advance ticker at row

-- `now - started < timedelta(minutes=minutes)`, with the start on the other side.
abbrev pub runs : Option Datetime → Datetime → ℕ → Bool
runs none now mins = false
runs (some started) now mins = ltb now.instant (started.instant + minutes mins)

unfoldable pub is_active : String → Datetime → ℕ → Call Bool
unfolding started_at
is_active ticker now mins = do
  raise_if (not now.aware) value_error
  started ← started_at ticker
  pure (runs started now mins)

abbrev pub end_of : Option Datetime → ℕ → Option Datetime
end_of none mins = none
end_of (some started) mins = some (record started { instant = started.instant + minutes mins })

unfoldable pub active_until : String → ℕ → Call (Option Datetime)
unfolding started_at
active_until ticker mins = do started ← started_at ticker; pure (end_of started mins)
