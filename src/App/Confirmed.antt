-- ===== src/App/Confirmed.antt =====
-- `_close_executed` closes on a fill that the broker reports, and on nothing else.
use bazarabot.Base.{◌≡◌, refl, ℕ, String, Bool, true, List, [], ◌∷◌, ◌++◌, Option, none, some, keep}
use bazarabot.Base.Exec.{Result, ok, ◌>>=◌}
use bazarabot.Base.Exec.Keeps.{Keeps, Keeps-pure, Keeps-bind, Keeps-gets, Keeps-if}
use bazarabot.Models.{Datetime, OrderRecord, Position, is_exchange}
use bazarabot.Db.Store.{Database, clock_now}
use bazarabot.Db.Preserved.{Keeps-active_for_position}
use bazarabot.Errors.{Error}
use bazarabot.Execution.Desk.{Env, Desk, Action, on_broker, put_world}
use bazarabot.Execution.Stops.{nonempty}
use bazarabot.Execution.Kept.{Keeps-on_db}
use bazarabot.App.Executions.{
  Outcome, close_executed, close_held, confirm, confirm_all, earliest_entry, fill_for, id_of,
  live_ids, report_unexplained,
}

-- The tables are those from before.
abbrev Same : {W : Type 0} → Database → Desk W → Type 0
Same before d = (d.store.db ≡ before) × Unit {0}

no_fill : (broker_id : Option String) → fill_for broker_id [] ≡ none
no_fill none = refl
no_fill (some id) = refl

module _ {W : Type 0} (before : Database) where
  reading_kept : {A : Type 0} (m : W → Result Error A × W) → Keeps (Same before) (on_broker m)
  reading_kept m = record { at = λ d h. h }

  -- An answer that is known beforehand.
  answered :
      {A B : Type 0} (m : W → Result Error A × W) (a : A) (f : A → Action W B)
      → ((w : W) → (m w).0 ≡ ok a)
      → Keeps (Same before) (f a)
      → Keeps (Same before) (on_broker m >>= f)
  answered m a f known k = record {
    at = λ d h. rw (known d.world) (k.at (put_world (m d.world).1 d) h);
  }

  reported_kept :
      (env : Env W) (alerted : Bool) (outcome : Outcome)
      → Keeps (Same before) (report_unexplained env alerted outcome)
  reported_kept env alerted (closed, []) = Keeps-pure _
  reported_kept env alerted (closed, ticker ∷ tickers) =
      Keeps-if alerted _ _ (Keeps-pure (closed, true)) (record { at = λ d h. h })

  unconfirmed_kept :
      (env : Env W) (mins : ℕ) (live : List String) (position : Position)
      (broker_id : Option String) (fill : Option OrderRecord)
      → fill ≡ none
      → Keeps (Same before) (confirm env mins live position broker_id fill)
  unconfirmed_kept env mins live position broker_id none e = Keeps-pure _
  unconfirmed_kept env mins live position broker_id (some fill) e = absurd (cc e)

  confirm_all_kept :
      (env : Env W) (mins : ℕ) (live : List String) (positions : List Position)
      → Keeps (Same before) (confirm_all env mins [] live positions)
  unfolding confirm_all
  confirm_all_kept env mins live [] = Keeps-pure _
  confirm_all_kept env mins live (position ∷ rest) =
      Keeps-bind _ _
        (Keeps-on_db (λ db. db ≡ before) (λ w. Unit {0}) _
          (Keeps-active_for_position (λ db. db ≡ before) position.id))
        λ found.
          Keeps-bind _ _
            (unconfirmed_kept env mins live position (id_of found) _
              (no_fill (nonempty (id_of found))))
            λ one.
              Keeps-bind _ _ (confirm_all_kept env mins live rest)
                λ others. Keeps-pure (one.0 ++ others.0, one.1 ++ others.1)

-- As long as the broker reports no execution of a stop, no table changes, whatever stops it lists
-- and wherever an exception comes.
pub close_executed_needs_fill :
    {W : Type 0} (env : Env W) (day_start : Datetime → Datetime) (mins : ℕ) (alerted : Bool)
    (positions : List Position) (d : Desk W)
    → ((since until : Datetime) (w : W)
        → (env.broker.get_executed_stop_fills since until w).0 ≡ ok [])
    → (close_executed env day_start mins alerted positions d).1.store.db ≡ d.store.db
unfolding close_executed
close_executed_needs_fill env day_start mins alerted positions d silent =
    ((held_kept (keep (λ p. is_exchange p.stop_protection) positions)).at d (refl, tt)).0
  where
    held_kept :
        (held : List Position)
        → Keeps (Same d.store.db) (close_held env day_start mins alerted held)
    held_kept [] = Keeps-pure _
    held_kept (p ∷ ps) = Keeps-bind _ _ (Keeps-gets (λ d. clock_now d.store)) λ at.
        answered d.store.db
          (env.broker.get_executed_stop_fills (day_start (earliest_entry p.entry_at ps)) at) []
          (λ fills. on_broker env.broker.list_stop_orders >>= λ standing.
            confirm_all env mins fills (live_ids standing) (p ∷ ps) >>= λ outcome.
            report_unexplained env alerted outcome)
          (silent (day_start (earliest_entry p.entry_at ps)) at)
          (Keeps-bind _ _ (reading_kept d.store.db env.broker.list_stop_orders) λ standing.
            Keeps-bind _ _ (confirm_all_kept d.store.db env mins (live_ids standing) (p ∷ ps))
              λ outcome. reported_kept d.store.db env alerted outcome)
