-- ===== src/Reconcile/Holdings.antt =====
-- Holdings and local positions ticker by ticker: the first half of `reconcile`.
use bazarabot.Base.{
  Bool, ◌&&◌, String, ◌==◌, List, [], ◌∷◌, ◌++◌, Option, none, some, is_none, if◌then◌else◌,
}
use bazarabot.Base.Int.{ℤ, leb_ℤ}
use bazarabot.Base.Dict.{Dict, get, set}
use bazarabot.Base.Exec.{pure, ◌>>=◌, ◌>>◌}
use bazarabot.Models.{Adjustment, Datetime, OrderRecord, Position, is_entry}
use bazarabot.Db.Store.{Alert}
use bazarabot.Db.Store
use bazarabot.Db.Orders.Queries.{list_unresolved}
use bazarabot.Db.Positions
use bazarabot.Execution.Desk.{Env, Action, on_db, on_broker}
use bazarabot.Reconcile.Sales.{close_externally}

abbrev pub put_tickers : Dict Position → List Position → Dict Position
put_tickers found [] = found
put_tickers found (p ∷ ps) = put_tickers (if p.ticker == "" then found else set p.ticker p found) ps

-- `_by_ticker`
abbrev pub by_ticker : List Position → Dict Position
by_ticker positions = put_tickers [] positions

-- The first key of each ticker: `found.setdefault(order.ticker, order.key)`.
abbrev pub put_keys : Dict String → List OrderRecord → Dict String
put_keys found [] = found
put_keys found (o ∷ os) =
    put_keys
      (if is_entry o.intent && is_none (get o.ticker found)
        then set o.ticker o.key found
        else found)
      os

abbrev pub equal_lots : ℤ → ℤ → Bool
equal_lots a b = leb_ℤ a b && leb_ℤ b a

-- `ticker not in local_by_ticker`
abbrev pub unknown_holdings : Dict Position → Dict Position → List Position
unknown_holdings [] local_by_ticker = []
unknown_holdings ((ticker, holding) ∷ rest) local_by_ticker =
    let others = unknown_holdings rest local_by_ticker in
    if is_none (get ticker local_by_ticker) then holding ∷ others else others

module _ {W : Type 0} (env : Env W) where
  -- `_adjust_lots`
  unfoldable pub adjust_lots : Position → ℤ → Action W Adjustment
  adjust_lots position broker_lots = do
    on_db (Positions.update_lots position.id broker_lots)
    on_db (Store.alert (Alert.lots_adjusted position.ticker position.id position.lots broker_lots))
    pure (Adjustment.lots_adjusted position.ticker position.id position.lots broker_lots)

  -- `_adopt_holding`
  unfoldable pub adopt_holding : Position → Datetime → String → Action W Adjustment
  adopt_holding holding moment open_order_key = do
    instrument ← on_broker (env.broker.get_instrument holding.ticker)
    on_db (
        Positions.adopt env.config instrument holding.lots holding.entry_price moment
          open_order_key)
    on_db (Store.alert (Alert.adopted_holding holding.ticker holding.lots holding.entry_price))
    pure (Adjustment.adopted holding.ticker holding.lots holding.entry_price)

  -- `_report_foreign`
  unfoldable pub report_foreign : Position → Action W Adjustment
  report_foreign holding = do
    on_db (Store.alert (Alert.foreign_holding holding.ticker holding.lots holding.entry_price))
    pure (Adjustment.foreign_holding holding.ticker holding.lots holding.entry_price)

  -- What a local position calls for, given the holding of its ticker.
  abbrev pub match_holding : Datetime → Position → Option Position → Action W (List Adjustment)
  match_holding now position none = do a ← close_externally env position now; pure (a ∷ [])
  match_holding now position (some holding) =
      if equal_lots holding.lots position.lots
      then pure []
      else (do a ← adjust_lots position holding.lots; pure (a ∷ []))

  unfoldable pub match_all : Datetime → Dict Position → Dict Position → Action W (List Adjustment)
  match_all now broker_by_ticker [] = pure []
  match_all now broker_by_ticker ((ticker, position) ∷ rest) = do
    made ← match_holding now position (get ticker broker_by_ticker)
    others ← match_all now broker_by_ticker rest
    pure (made ++ others)

  -- `_recognising_orders`, read only where there is an unknown holding.
  unfoldable pub recognising_orders : List Position → Action W (Dict String)
  recognising_orders [] = pure []
  recognising_orders (holding ∷ holdings) = do
    orders ← on_db list_unresolved
    pure (put_keys [] orders)

  abbrev pub recognise : Datetime → Position → Option String → Action W Adjustment
  recognise now holding none = report_foreign holding
  recognise now holding (some open_order_key) = adopt_holding holding now open_order_key

  unfoldable pub recognise_all : Datetime → Dict String → List Position → Action W (List Adjustment)
  recognise_all now recognised [] = pure []
  recognise_all now recognised (holding ∷ holdings) = do
    made ← recognise now holding (get holding.ticker recognised)
    others ← recognise_all now recognised holdings
    pure (made ∷ others)
