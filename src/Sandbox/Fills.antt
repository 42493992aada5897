-- ===== src/Sandbox/Fills.antt =====
-- Market orders of `SimulatedExchange`, filled at the opening of the next bar.
use bazarabot.Base.{Bool, not, ◌&&◌, String, [], Option, none, some, if◌then◌else◌}
use bazarabot.Base.Int.{ℤ, pos, ◌+ℤ◌, ◌-ℤ◌, ◌*ℤ◌, leb_ℤ}
use bazarabot.Base.Decimal.{Decimal, add, sub, mul, of_int, ltb_dec}
use bazarabot.Base.Dict.{Dict, get, set, remove}
use bazarabot.Base.Exec.{Exec, pure, gets, modify, or_raise, raise_if, ◌>>=◌, ◌>>◌}
use bazarabot.Models.{
  Candle, Datetime, Instrument, Intent, OrderRecord, OrderStatus, Side, StopOrderRecord, is_buy,
  order_ok,
}
use bazarabot.Errors.{Error, value_error, order_rejected, instrument_not_found, not_advanced}
use bazarabot.Sandbox.Exchange.{Exchange, Holding, fee_on, listed, next_bar, slipped}

abbrev pub Sim : Type 0 → Type 0
Sim = Exec Exchange Error

-- `_moment`
abbrev pub moment : Sim Datetime
moment x = or_raise x.now not_advanced x

-- `_ticker_for`, with the instrument.
abbrev pub ticker_for : String → Sim (String × Instrument)
ticker_for figi x = or_raise (listed figi x) instrument_not_found x

-- The dataclasses check themselves.
abbrev pub checked_order : OrderRecord → Sim OrderRecord
checked_order o = do raise_if (not (order_ok o)) value_error; pure o

abbrev pub put_order : OrderRecord → Exchange → Exchange
put_order o x = record x { orders = set o.key o x.orders }

abbrev pub put_stop : String → StopOrderRecord → Exchange → Exchange
put_stop key stop x = record x { stops = set key stop x.stops }

-- `_settled`
abbrev pub settled_fill : OrderRecord → Decimal → Decimal → Datetime → OrderRecord
settled_fill order price fee at = record order {
  status = OrderStatus.filled;
  filled_lots = some order.lots;
  filled_price = some price;
  commission = some fee;
  broker_reason = none;
  settled_at = some at;
  broker_order_id = none;
  commission_alerted_at = none;
  trade_ids = [];
}

abbrev pub lots_held : Option Holding → ℤ
lots_held none = pos 0
lots_held (some held) = held.lots

abbrev pub bought : String → ℤ → Decimal → Dict Holding → Dict Holding
bought figi lots price holdings =
    set figi (record { lots = lots_held (get figi holdings) +ℤ lots; average_price = price })
      holdings

abbrev pub reduced : String → ℤ → Option Holding → Dict Holding → Dict Holding
reduced figi lots none holdings = holdings
reduced figi lots (some held) holdings =
    if leb_ℤ (held.lots -ℤ lots) (pos 0)
    then remove figi holdings
    else set figi (record held { lots = held.lots -ℤ lots }) holdings

abbrev pub sold : String → ℤ → Dict Holding → Dict Holding
sold figi lots holdings = reduced figi lots (get figi holdings) holdings

-- The cash and the holdings of a fill.
unfoldable pub move_fill : OrderRecord → Decimal → Decimal → Decimal → Exchange → Exchange
move_fill order price turnover fee x =
    if is_buy order.side
    then record x {
      cash = sub x.cash (add turnover fee);
      holdings = bought order.figi order.lots price x.holdings;
    }
    else record x {
      cash = add x.cash (sub turnover fee);
      holdings = sold order.figi order.lots x.holdings;
    }

-- `price * Decimal(lots * lot)`
abbrev pub turnover_of : Decimal → ℤ → Instrument → Decimal
turnover_of price lots instrument = mul price (of_int (lots *ℤ instrument.lot))

abbrev pub fee_for : Exchange → Decimal → Decimal
fee_for x turnover = fee_on x.commission turnover

-- `_apply_fill`, for the instrument of the order.
unfoldable pub apply_fill : OrderRecord → Decimal → Instrument → Sim OrderRecord
apply_fill order price instrument = do
  let turnover = turnover_of price order.lots instrument
  fee ← gets (λ x. fee_for x turnover)
  modify (move_fill order price turnover fee)
  at ← moment
  checked_order (settled_fill order price fee at)

abbrev pub new_order : String → String → String → Side → ℤ → Datetime → OrderRecord
new_order key ticker figi side lots at = record {
  key = key;
  ticker = ticker;
  figi = figi;
  side = side;
  intent = if is_buy side then Intent.entry else Intent.exit;
  lots = lots;
  status = OrderStatus.submitted;
  filled_lots = some (pos 0);
  filled_price = none;
  commission = none;
  broker_reason = none;
  created_at = at;
  settled_at = none;
  exit_trigger = none;
  broker_order_id = none;
  commission_alerted_at = none;
  trade_ids = [];
}

-- `turnover + self.commission.on(turnover) > self.cash`
abbrev pub is_unfunded : OrderRecord → Decimal → Instrument → Exchange → Bool
is_unfunded order price instrument x =
    let turnover = turnover_of price order.lots instrument in
    is_buy order.side && ltb_dec x.cash (add turnover (fee_for x turnover))

abbrev pub put_and_return : OrderRecord → Sim OrderRecord
put_and_return o = do modify (put_order o); pure o

-- At the opening of the bar that follows, or not at all.
abbrev pub fill_at : OrderRecord → Instrument → Option Candle → Sim OrderRecord
fill_at order instrument none = put_and_return order
fill_at order instrument (some bar) = do
  price ← gets (λ x. slipped x.slippage bar.opening order.side)
  unfunded ← gets (is_unfunded order price instrument)
  raise_if unfunded (order_rejected "insufficient funds")
  settled ← apply_fill order price instrument
  put_and_return settled

unfoldable pub post_market_order : String → String → Side → ℤ → Sim OrderRecord
post_market_order key figi side lots = do
  raise_if (leb_ℤ lots (pos 0)) (order_rejected "lots must be positive")
  found ← ticker_for figi
  at ← moment
  order ← checked_order (new_order key found.0 figi side lots at)
  following ← gets (next_bar found.0)
  fill_at order found.1 following
