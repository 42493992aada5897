-- ===== src/App/Executions.antt =====
-- `_close_executed` of zarabot/app/loops.py: stops that the broker says have executed.
use bazarabot.Base.{
  ℕ, String, ◌==◌, Bool, true, false, List, [], ◌∷◌, ◌++◌, Option, none, some, any, keep, ltb,
  sort_by, if◌then◌else◌,
}
use bazarabot.Base.Dict.{Dict, get, leb_text}
use bazarabot.Base.Exec.{pure, gets, ◌>>=◌, ◌>>◌}
use bazarabot.Models.{Datetime, OrderRecord, Position, StopOrderRecord, is_exchange}
use bazarabot.Db.Store.{Alert, Database, clock_now}
use bazarabot.Db.Store
use bazarabot.Db.StopOrders.{active_for_position}
use bazarabot.Db.Cooldowns.{active_until}
use bazarabot.Execution.Desk.{Env, Action, on_db, on_broker}
use bazarabot.Execution.Stops.{nonempty}
use bazarabot.Execution.Exits.{close_executed_stop}

-- `min(position.entry_at for position in exchange)`
abbrev pub earliest_entry : Datetime → List Position → Datetime
earliest_entry acc [] = acc
earliest_entry acc (p ∷ ps) =
    earliest_entry (if ltb p.entry_at.instant acc.instant then p.entry_at else acc) ps

abbrev pub present : Option String → List String
present none = []
present (some id) = id ∷ []

-- `live`: both identifiers of every standing stop.
abbrev pub live_ids : List StopOrderRecord → List String
live_ids [] = []
live_ids (stop ∷ stops) = stop.key ∷ present (nonempty stop.stop_order_id) ++ live_ids stops

-- `_stop_is_live`
abbrev pub stop_is_live : Position → List String → Option String → Bool
stop_is_live position standing broker_id =
    any (λ own. any (λ key. key == own) standing)
      (present (nonempty position.stop_order_key) ++ present (nonempty broker_id))

abbrev pub id_of : Option StopOrderRecord → Option String
id_of none = none
id_of (some found) = found.stop_order_id

-- `fills.get(broker_id) if broker_id else None`
abbrev pub fill_for : Option String → Dict OrderRecord → Option OrderRecord
fill_for none fills = none
fill_for (some id) fills = get id fills

-- The ids of the positions that were closed, and the tickers whose stop is gone unexplained.
abbrev pub Outcome : Type 0
Outcome = List ℕ × List String

module _ {W : Type 0} (env : Env W) where
  abbrev pub confirm :
      ℕ → List String → Position → Option String → Option OrderRecord → Action W Outcome
  confirm mins live position broker_id none =
      pure ([], if stop_is_live position live broker_id then [] else position.ticker ∷ [])
  confirm mins live position broker_id (some fill) = do
    close_executed_stop env position fill
    on_db (active_until position.ticker mins)
    pure (position.id ∷ [], [])

  unfoldable pub confirm_all : ℕ → Dict OrderRecord → List String → List Position → Action W Outcome
  confirm_all mins fills live [] = pure ([], [])
  confirm_all mins fills live (position ∷ rest) = do
    found ← on_db (active_for_position position.id)
    one ← confirm mins live position (id_of found) (fill_for (nonempty (id_of found)) fills)
    others ← confirm_all mins fills live rest
    pure (one.0 ++ others.0, one.1 ++ others.1)

  -- One alert per incident. The result is the closed positions and the flag.
  abbrev pub report_unexplained : Bool → Outcome → Action W (List ℕ × Bool)
  report_unexplained alerted (closed, []) = pure (closed, false)
  report_unexplained alerted (closed, ticker ∷ tickers) =
      if alerted then pure (closed, true) else (do
        on_db (Store.alert (Alert.stops_unexplained (sort_by leb_text (ticker ∷ tickers))))
        pure (closed, true))

  -- `day_start` is the midnight of the Moscow day.
  abbrev pub close_held :
      (Datetime → Datetime) → ℕ → Bool → List Position → Action W (List ℕ × Bool)
  close_held day_start mins alerted [] = pure ([], false)
  close_held day_start mins alerted (p ∷ ps) = do
    at ← gets (λ d. clock_now d.store)
    fills ←
        on_broker (env.broker.get_executed_stop_fills (day_start (earliest_entry p.entry_at ps)) at)
    standing ← on_broker env.broker.list_stop_orders
    outcome ← confirm_all mins fills (live_ids standing) (p ∷ ps)
    report_unexplained alerted outcome

  -- `_close_executed`, with `_stop_discrepancy_alerted` before and after.
  unfoldable pub close_executed :
      (Datetime → Datetime) → ℕ → Bool → List Position → Action W (List ℕ × Bool)
  close_executed day_start mins alerted positions =
      close_held day_start mins alerted (keep (λ p. is_exchange p.stop_protection) positions)
