-- ===== src/Sandbox/Broker.antt =====
-- The methods of `SimulatedExchange` that stand for the calls of zarabot/broker/client.py.
use bazarabot.Base.{
  ◌<>◌, ◌==◌, Bool, true, false, not, ◌&&◌, String, List, [], ◌∷◌, Option, none, some, keep, leb,
  if◌then◌else◌,
}
use bazarabot.Base.Int.{ℤ, pos, leb_ℤ}
use bazarabot.Base.Decimal.{Decimal, floor_div, leb_dec, ltb_dec, mul, of_int}
use bazarabot.Base.Decimal.Quotient.{quotient}
use bazarabot.Base.Dict.{Dict, get, set, values}
use bazarabot.Base.Exec.{pure, gets, modify, or_raise, raise_if, ◌>>=◌, ◌>>◌}
use bazarabot.Models.{
  Candle, Datetime, Instrument, OperationRecord, OrderRecord, OrderStatus, PortfolioState, Position,
  PositionStatus, StopOrderRecord, StopOrderStatus, StopProtection, position_ok,
}
use bazarabot.Errors.{value_error, instrument_not_found, order_not_found, stop_order_rejected}
use bazarabot.Execution.Desk.{Broker}
use bazarabot.Sandbox.Exchange.{Exchange, Holding, bar_for, price_at, visible}
use bazarabot.Sandbox.Fills.{Sim, moment, ticker_for, checked_order, put_stop, post_market_order}
use bazarabot.Sandbox.Firing.{is_active, checked_stop, ended_stop}

abbrev pub get_instrument : String → Sim Instrument
get_instrument ticker x = or_raise (get ticker x.instruments) instrument_not_found x

abbrev pub is_between : Datetime → Datetime → Datetime → Bool
is_between since until t = leb since.instant t.instant && leb t.instant until.instant

-- (The interval is not read.)
unfoldable pub get_candles : String → Datetime → Datetime → Sim (List Candle)
get_candles figi since until = do
  found ← ticker_for figi
  gets (λ x. keep (λ bar. is_between since until bar.timestamp) (visible found.0 x))

unfoldable pub get_last_price : String → Sim Decimal
get_last_price figi = do
  found ← ticker_for figi
  seen ← gets (bar_for found.0)
  bar ← or_raise seen instrument_not_found
  gets (λ x. price_at x.phase bar)

-- `_holding_position`
abbrev pub holding_position : String → String → Holding → Datetime → Position
holding_position ticker figi held at = record {
  id = 0;
  ticker = ticker;
  figi = figi;
  strategy = "ADOPTED";
  lots = held.lots;
  lot_size = pos 1;
  entry_price = held.average_price;
  entry_at = at;
  stop_price = held.average_price;
  target_price = held.average_price;
  status = PositionStatus.opened;
  adopted = true;
  open_order_key = "SIM-" <> figi;
  close_order_key = none;
  exit_trigger = none;
  exit_price = none;
  exit_at = none;
  realised_pnl = none;
  stop_protection = StopProtection.local;
  stop_order_key = none;
}

abbrev pub checked_position : Position → Sim Position
checked_position p = do raise_if (not (position_ok p)) value_error; pure p

abbrev pub positions_of : Dict Holding → Sim (List Position)
positions_of [] = pure []
positions_of ((figi, held) ∷ rest) = do
  found ← ticker_for figi
  at ← moment
  p ← checked_position (holding_position found.0 figi held at)
  ps ← positions_of rest
  pure (p ∷ ps)

-- `PortfolioState` checks its cash.
unfoldable pub get_portfolio : Sim PortfolioState
get_portfolio x =
    (positions_of x.holdings >>= λ ps.
    raise_if (ltb_dec x.cash (of_int (pos 0))) value_error >>= λ _.
    pure (record { cash = x.cash; positions = ps }))
      x

-- `int(cash / (close * lot))`: the quotient has 28 digits, and `int` drops what is behind the point.
abbrev pub affordable : Exchange → Instrument → Option Candle → ℤ
affordable x instrument none = pos 0
affordable x instrument (some bar) =
    if leb_dec bar.close (of_int (pos 0))
    then pos 0
    else floor_div (quotient x.cash (mul bar.close (of_int instrument.lot))) (of_int (pos 1))

unfoldable pub get_max_lots : String → Sim ℤ
get_max_lots figi = do found ← ticker_for figi; gets (λ x. affordable x found.1 (bar_for found.0 x))

unfoldable pub get_order_state : String → Sim OrderRecord
get_order_state key x = or_raise (get key x.orders) order_not_found x

-- `_cancelled`
abbrev pub cancelled_order : OrderRecord → Datetime → OrderRecord
cancelled_order order at = record order {
  status = OrderStatus.cancelled;
  filled_lots = some (pos 0);
  filled_price = none;
  commission = none;
  broker_reason = some "cancelled";
  settled_at = some at;
  broker_order_id = none;
  commission_alerted_at = none;
  trade_ids = [];
}

abbrev pub is_submitted : OrderStatus → Bool
is_submitted OrderStatus.submitted = true
is_submitted _ = false

abbrev pub cancel_found : String → Option OrderRecord → Sim (Unit {0})
cancel_found key none = pure tt
cancel_found key (some order) =
    if is_submitted order.status
    then (do
      at ← moment
      done ← checked_order (cancelled_order order at)
      modify (λ x. record x { orders = set key done x.orders }))
    else pure tt

unfoldable pub cancel_order : String → Sim (Unit {0})
cancel_order key = do found ← gets (λ x. get key x.orders); cancel_found key found

abbrev pub new_stop : String → String → ℤ → Decimal → Datetime → StopOrderRecord
new_stop key ticker lots price at = record {
  key = key;
  stop_order_id = some ("SIM-" <> key);
  position_id = 0;
  ticker = ticker;
  lots = lots;
  stop_price = price;
  status = StopOrderStatus.active;
  created_at = at;
  settled_at = none;
}

unfoldable pub post_stop_loss : String → String → ℤ → Decimal → Sim StopOrderRecord
post_stop_loss key figi lots price = do
  raise_if (leb_ℤ lots (pos 0)) stop_order_rejected
  refused ← gets (λ x. x.reject_stops)
  raise_if refused stop_order_rejected
  found ← ticker_for figi
  at ← moment
  stop ← checked_stop (new_stop key found.0 lots price at)
  modify (put_stop key stop)
  pure stop

abbrev pub has_id : String → StopOrderRecord → Bool
has_id id stop = elim stop.stop_order_id [ none ↦ false | some own ↦ own == id ]

-- The loop over a copy of the stops.
abbrev pub cancel_each : String → Dict StopOrderRecord → Sim (Unit {0})
cancel_each id [] = pure tt
cancel_each id ((key, stop) ∷ rest) = do
  if has_id id stop
      then (do
        at ← moment
        done ← checked_stop (ended_stop StopOrderStatus.cancelled stop at)
        modify (put_stop key done))
      else pure tt
  cancel_each id rest

unfoldable pub cancel_stop_order : String → Sim (Unit {0})
cancel_stop_order id x = cancel_each id x.stops x

unfoldable pub list_stop_orders : Sim (List StopOrderRecord)
list_stop_orders = gets (λ x. keep (λ stop. is_active stop.status) (values x.stops))

abbrev pub is_settled_between : Datetime → Datetime → String × OrderRecord → Bool
is_settled_between since until (id, fill) = elim fill.settled_at [
  | none ↦ false
  | some at ↦ is_between since until at
]

unfoldable pub get_executed_stop_fills : Datetime → Datetime → Sim (List (String × OrderRecord))
get_executed_stop_fills since until =
    gets (λ x. keep (is_settled_between since until) x.executed_stops)

-- The exchange as the broker. The two calls that it has no method for are those of the caller.
abbrev pub simulated :
    (String → Sim OrderRecord)
    → (Datetime → Datetime → Sim (List OperationRecord))
    → Broker Exchange
simulated by_broker_id operations = record {
  get_instrument = get_instrument;
  get_max_lots = get_max_lots;
  post_market_order = post_market_order;
  get_order_state = get_order_state;
  cancel_order = cancel_order;
  post_stop_loss = post_stop_loss;
  cancel_stop_order = cancel_stop_order;
  get_order_state_by_broker_id = by_broker_id;
  get_operations = operations;
  get_portfolio = get_portfolio;
  list_stop_orders = list_stop_orders;
  get_last_price = get_last_price;
  get_executed_stop_fills = get_executed_stop_fills;
}
