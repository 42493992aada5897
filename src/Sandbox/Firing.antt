-- ===== src/Sandbox/Firing.antt =====
-- Standing stops of `SimulatedExchange`, fired on the low of a bar.
use bazarabot.Base.{
  ◌<>◌, Bool, true, false, not, String, [], ◌∷◌, Option, none, some, any, eqb, if◌then◌else◌,
}
use bazarabot.Base.Int.{ℤ}
use bazarabot.Base.Decimal.{Decimal, add, sub, ltb_dec, min_dec}
use bazarabot.Base.Dict.{Dict, get, set}
use bazarabot.Base.Exec.{pure, gets, modify, or_raise, raise_if, ◌>>=◌, ◌>>◌}
use bazarabot.Models.{
  Candle, Datetime, Instrument, Intent, OrderRecord, OrderStatus, Side, StopOrderRecord,
  StopOrderStatus, stop_order_ok,
}
use bazarabot.Errors.{value_error, instrument_not_found}
use bazarabot.Sandbox.Exchange.{Exchange, bar_for}
use bazarabot.Sandbox.Fills.{Sim, checked_order, fee_for, put_stop, sold, turnover_of}

-- `min(stop.stop_price, bar.open)`
abbrev pub stop_fill_price : StopOrderRecord → Candle → Decimal
stop_fill_price stop bar = min_dec stop.stop_price bar.opening

abbrev pub is_active : StopOrderStatus → Bool
is_active StopOrderStatus.active = true
is_active _ = false

abbrev pub is_checked : Exchange → Candle → Bool
is_checked x bar = any (λ t. eqb t bar.timestamp.instant) x.stops_checked

-- The bar on which a stop fires, if it does.
abbrev pub firing_bar : Exchange → StopOrderRecord → Option Candle → Option Candle
firing_bar x stop none = none
firing_bar x stop (some bar) =
    if is_checked x bar then none else if ltb_dec stop.stop_price bar.low then none else some bar

abbrev pub id_text : Option String → String
id_text none = "None"
id_text (some id) = id

abbrev pub executed_order : StopOrderRecord → String → Decimal → Decimal → Datetime → OrderRecord
executed_order stop figi price fee at = record {
  key = "EX-" <> id_text stop.stop_order_id;
  ticker = stop.ticker;
  figi = figi;
  side = Side.sell;
  intent = Intent.exit;
  lots = stop.lots;
  status = OrderStatus.filled;
  filled_lots = some stop.lots;
  filled_price = some price;
  commission = some fee;
  broker_reason = none;
  created_at = at;
  settled_at = some at;
  exit_trigger = none;
  broker_order_id = none;
  commission_alerted_at = none;
  trade_ids = [];
}

-- `_stop_settled` and `_stop_cancelled`
abbrev pub ended_stop : StopOrderStatus → StopOrderRecord → Datetime → StopOrderRecord
ended_stop status stop at = record stop { status = status; settled_at = some at }

abbrev pub checked_stop : StopOrderRecord → Sim StopOrderRecord
checked_stop stop = do raise_if (not (stop_order_ok stop)) value_error; pure stop

abbrev pub put_executed : String → OrderRecord → Exchange → Exchange
put_executed id fill x = record x { executed_stops = set id fill x.executed_stops }

-- `self.cash += turnover - fee`, and the lots leave the holding.
abbrev pub collect : Decimal → String → ℤ → Exchange → Exchange
collect amount figi lots x = record x {
  cash = add x.cash amount;
  holdings = sold figi lots x.holdings;
}

-- The cash of the sale, the holding, the fill and the stop, in the order of the code.
unfoldable pub fire : Datetime → String → StopOrderRecord → Instrument → Candle → Sim (Unit {0})
fire at key stop instrument bar = do
  let price = stop_fill_price stop bar
  let turnover = turnover_of price stop.lots instrument
  fee ← gets (λ x. fee_for x turnover)
  modify (collect (sub turnover fee) instrument.figi stop.lots)
  fill ← checked_order (executed_order stop instrument.figi price fee at)
  modify (put_executed (id_text stop.stop_order_id) fill)
  done ← checked_stop (ended_stop StopOrderStatus.executed stop at)
  modify (put_stop key done)

abbrev pub fire_on : Datetime → String → StopOrderRecord → Option Candle → Sim (Unit {0})
fire_on at key stop none = pure tt
fire_on at key stop (some bar) = do
  found ← gets (λ x. get stop.ticker x.instruments)
  instrument ← or_raise found instrument_not_found
  fire at key stop instrument bar

-- The loop over a copy of the stops; the bars checked before are those of its start.
unfoldable pub fire_each : Datetime → Exchange → Dict StopOrderRecord → Sim (Unit {0})
fire_each at before [] = pure tt
fire_each at before ((key, stop) ∷ rest) = do
  if is_active stop.status
      then fire_on at key stop (firing_bar before stop (bar_for stop.ticker before))
      else pure tt
  fire_each at before rest
