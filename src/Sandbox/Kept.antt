-- ===== src/Sandbox/Kept.antt =====
-- What the calls of the simulated exchange, and the sequences of operations on it, keep.
use bazarabot.Base.{String, Option, none, some, List, [], ◌∷◌}
use bazarabot.Base.Int.{ℤ}
use bazarabot.Base.Decimal.{Decimal}
use bazarabot.Base.Dict.{Dict, get}
use bazarabot.Base.Exec.{modify}
use bazarabot.Base.Exec.Keeps.{
  Keeps, Keeps-bind, Keeps-modify, Keeps-or_raise, Keeps-pure, Keeps-raise_if, Keeps-if, Keeps-gets,
  keeps_rules,
}
use bazarabot.Errors.{Error, instrument_not_found, order_not_found}
use bazarabot.Models.{
  Candle, Datetime, Instrument, OperationRecord, OrderRecord, Position, StopOrderRecord,
}
use bazarabot.Execution.Kept.{IsQuiet}
use bazarabot.Sandbox.Exchange.{Exchange, Holding, Phase}
use bazarabot.Sandbox.Fills.{put_stop, Sim}
use bazarabot.Sandbox.Firing.{collect, put_executed, checked_stop, fire, fire_each, fire_on}
use bazarabot.Sandbox.Advance.{move_to, advance, fire_stops, mark_checked, entered}
use bazarabot.Sandbox.Broker.{
  get_last_price, get_portfolio, get_max_lots, get_order_state, cancel_order, post_stop_loss,
  cancel_stop_order, cancel_each, cancel_found, checked_position, positions_of, list_stop_orders,
  get_executed_stop_fills, simulated,
}
use bazarabot.Sandbox.Positive.{
  AllHeld, sold-AllValues, Keeps-moment, Keeps-ticker_for, Keeps-checked_order,
}

Keeps-checked_stop : (stop : StopOrderRecord) → Keeps AllHeld (checked_stop stop)
Keeps-checked_stop stop = search keeps_rules

Keeps-cancel_found :
    (key : String) (found : Option OrderRecord) → Keeps AllHeld (cancel_found key found)
Keeps-cancel_found key none = Keeps-pure tt
Keeps-cancel_found key (some order) =
    Keeps-if _ _ _
      (Keeps-bind _ _ Keeps-moment
        λ at. Keeps-bind _ _ (Keeps-checked_order _) λ done. record { at = λ x h. h })
      (Keeps-pure tt)

Keeps-cancel_each :
    (id : String) (stops : Dict StopOrderRecord) → Keeps AllHeld (cancel_each id stops)
Keeps-cancel_each id [] = Keeps-pure tt
Keeps-cancel_each id ((key, stop) ∷ rest) =
    Keeps-bind _ _
      (Keeps-if _ _ _
        (Keeps-bind _ _ Keeps-moment
          λ at. Keeps-bind _ _ (Keeps-checked_stop _) λ done. record { at = λ x h. h })
        (Keeps-pure tt))
      λ _. Keeps-cancel_each id rest

Keeps-checked_position : (p : Position) → Keeps AllHeld (checked_position p)
Keeps-checked_position p = search keeps_rules

Keeps-positions_of : (holdings : Dict Holding) → Keeps AllHeld (positions_of holdings)
Keeps-positions_of [] = Keeps-pure []
Keeps-positions_of ((figi, held) ∷ rest) = Keeps-bind _ _ (Keeps-ticker_for figi) λ found.
    Keeps-bind _ _ Keeps-moment λ at.
      Keeps-bind _ _ (Keeps-checked_position _)
        λ p. Keeps-bind _ _ (Keeps-positions_of rest) λ ps. Keeps-pure _

pub simulated-IsQuiet :
    (by_broker_id : String → Sim OrderRecord)
    (operations : Datetime → Datetime → Sim (List OperationRecord))
    → ((id : String) → Keeps AllHeld (by_broker_id id))
    → ((since until : Datetime) → Keeps AllHeld (operations since until))
    → IsQuiet (simulated by_broker_id operations) AllHeld
unfolding get_last_price get_portfolio get_max_lots get_order_state cancel_order post_stop_loss
    cancel_stop_order list_stop_orders get_executed_stop_fills
simulated-IsQuiet by_broker_id operations k l = record {
  get_instrument = λ ticker. record {
    at = λ x h.
        (Keeps-or_raise {P = AllHeld} (get ticker x.instruments) instrument_not_found).at x h;
  };
  get_max_lots = λ figi. search (keeps_rules, Keeps-ticker_for);
  get_order_state = λ key. record {
    at = λ x h. (Keeps-or_raise {P = AllHeld} (get key x.orders) order_not_found).at x h;
  };
  cancel_order = λ key. search (keeps_rules, Keeps-cancel_found);
  post_stop_loss = λ key figi lots price.
      search (keeps_rules, Keeps-ticker_for, Keeps-moment, Keeps-checked_stop, Keeps-modify) depth
        9;
  cancel_stop_order = λ id. record { at = λ x h. (Keeps-cancel_each id x.stops).at x h };
  get_order_state_by_broker_id = k;
  get_operations = l;
  get_portfolio = record {
    at = λ x h.
        (Keeps-bind {P = AllHeld} (positions_of x.holdings) _ (Keeps-positions_of x.holdings)
            λ ps. Keeps-bind _ _ (Keeps-raise_if _ _) λ _. Keeps-pure _).at
          x h;
  };
  list_stop_orders = Keeps-gets _;
  get_last_price = λ figi. search (keeps_rules, Keeps-ticker_for);
  get_executed_stop_fills = λ since until. Keeps-gets _;
}

Keeps-collect :
    (amount : Decimal) (figi : String) (lots : ℤ)
    → Keeps AllHeld (modify {E = Error} (collect amount figi lots))
Keeps-collect amount figi lots = record { at = λ x h. sold-AllValues figi lots x.holdings h }

Keeps-put_executed :
    (id : String) (fill : OrderRecord) → Keeps AllHeld (modify {E = Error} (put_executed id fill))
Keeps-put_executed id fill = record { at = λ x h. h }

Keeps-put_stop :
    (key : String) (stop : StopOrderRecord) → Keeps AllHeld (modify {E = Error} (put_stop key stop))
Keeps-put_stop key stop = record { at = λ x h. h }

Keeps-fire :
    (at : Datetime) (key : String) (stop : StopOrderRecord) (instrument : Instrument) (bar : Candle)
    → Keeps AllHeld (fire at key stop instrument bar)
unfolding fire
Keeps-fire at key stop instrument bar =
    search
      (
        keeps_rules, Keeps-collect, Keeps-put_executed, Keeps-put_stop, Keeps-checked_order,
        Keeps-checked_stop,
      )
      depth 12

Keeps-fire_on :
    (at : Datetime) (key : String) (stop : StopOrderRecord) (bar : Option Candle)
    → Keeps AllHeld (fire_on at key stop bar)
Keeps-fire_on at key stop none = Keeps-pure tt
Keeps-fire_on at key stop (some bar) = search (keeps_rules, Keeps-fire)

Keeps-fire_each :
    (at : Datetime) (before : Exchange) (stops : Dict StopOrderRecord)
    → Keeps AllHeld (fire_each at before stops)
unfolding fire_each
Keeps-fire_each at before [] = Keeps-pure tt
Keeps-fire_each at before ((key, stop) ∷ rest) =
    Keeps-bind _ _ (Keeps-if _ _ _ (Keeps-fire_on at key stop _) (Keeps-pure tt))
      λ _. Keeps-fire_each at before rest

Keeps-fire_stops : (at : Datetime) → Keeps AllHeld (fire_stops at)
unfolding fire_stops
Keeps-fire_stops at = record {
  at = λ x h.
      (Keeps-bind {P = AllHeld} (fire_each at x x.stops) _ (Keeps-fire_each at x x.stops)
          λ _. Keeps-modify (mark_checked (entered x x.bars)) λ y g. g).at
        x h;
}

pub Keeps-advance : (at : Datetime) (phase : Phase) → Keeps AllHeld (advance at phase)
unfolding advance
Keeps-advance at phase = record { at = λ x h. (Keeps-fire_stops at).at (move_to at phase x) h }
