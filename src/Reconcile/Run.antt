-- ===== src/Reconcile/Run.antt =====
-- `reconcile` of zarabot/broker/reconcile.py.
use bazarabot.Base.{not, List, [], ◌∷◌, ◌++◌}
use bazarabot.Base.Exec.{pure, modify, raise_if, ◌>>=◌, ◌>>◌}
use bazarabot.Models.{Adjustment, Datetime, ReconciliationReport}
use bazarabot.Errors.{value_error}
use bazarabot.Db.Store.{Store, Call, transaction}
use bazarabot.Db.Positions.Queries.{list_open}
use bazarabot.Execution.Desk.{Env, Action, on_db, on_broker}
use bazarabot.Reconcile.Holdings.{
  by_ticker, match_all, recognise_all, recognising_orders, unknown_holdings,
}
use bazarabot.Reconcile.Stops.{price_increments, sorted_tickers, stop_adjustments}

abbrev pub set_reconciliations :
    (List (Datetime × List Adjustment) → List (Datetime × List Adjustment)) → Store → Store
set_reconciliations f s = record s { db = record s.db { reconciliations = f s.db.reconciliations } }

-- `_persist`
unfoldable pub persist : Datetime → List Adjustment → Call (Unit {0})
persist moment adjustments =
    transaction (modify (set_reconciliations (λ rows. rows ++ (moment, adjustments) ∷ [])))

module _ {W : Type 0} (env : Env W) where
  -- The adjustments of the holdings, which correct the local rows.
  unfoldable pub match_holdings : Datetime → Action W (List Adjustment)
  match_holdings now = do
    portfolio ← on_broker env.broker.get_portfolio
    opened ← on_db list_open
    let at_broker = by_ticker portfolio.positions
    let here = by_ticker opened
    matched ← match_all env now at_broker here
    let unknown = unknown_holdings at_broker here
    recognised ← recognising_orders env unknown
    adopted ← recognise_all env now recognised unknown
    pure (matched ++ adopted)

  -- The findings on the stops, which change nothing.
  unfoldable pub judge_stops : Action W (List Adjustment)
  judge_stops = do
    opened ← on_db list_open
    stops ← on_broker env.broker.list_stop_orders
    increments ← price_increments env (sorted_tickers opened stops)
    pure (stop_adjustments opened stops increments)

  unfoldable pub reconcile : Datetime → Action W ReconciliationReport
  reconcile now = do
    raise_if (not now.aware) value_error
    corrected ← match_holdings now
    found ← judge_stops
    on_db (persist now (corrected ++ found))
    pure (record { ran_at = now; adjustments = corrected ++ found })
