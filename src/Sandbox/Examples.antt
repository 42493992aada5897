-- ===== src/Sandbox/Examples.antt =====
-- A backtest of two bars: a purchase, and a stop that the second bar's low reaches.
use bazarabot.Base.{
  arith, ◌==◌, Bool-cases, inl, inr, ◌≡◌, refl, String, List, [], ◌∷◌, none, some, false,
}
use bazarabot.Base.Int.{pos, ◌*ℤ◌}
use bazarabot.Base.Decimal.{Le, ltb_dec, mul, sub, add}
use bazarabot.Base.Exec.{ok, err}
use bazarabot.Errors.{broker_unavailable}
use bazarabot.Models.{
  Candle, Datetime, Side, StopOrderRecord, StopOrderStatus, order_ok, stop_order_ok,
}
use bazarabot.Execution.Desk.{Desk, Env}
use bazarabot.Execution.Operations.{Operation}
use bazarabot.Execution.Operations.Soundness.{IsConsistent}
use bazarabot.Sandbox.Exchange.{Exchange, Phase, bar_for, fee_on}
use bazarabot.Sandbox.Fills.{post_market_order}
use bazarabot.Sandbox.Firing.{fire, fire_each}
use bazarabot.Sandbox.Advance.{advance, fire_stops, move_to}
use bazarabot.Sandbox.Broker.{simulated}
use bazarabot.Sandbox.Positive.{AllHeld}
use bazarabot.Sandbox.Solvency.{IsSolvent, post_market_order-IsSolvent}
use bazarabot.Sandbox.Once.{advance_once}
use bazarabot.Sandbox.History.{Move, make_all, make_all-AllHeld}
use bazarabot.Samples.{at, money, share, buy_signal, settings, database, store}

abbrev candle : Datetime → Candle
candle t = record {
  timestamp = t;
  opening = money 100;
  high = money 110;
  low = money 90;
  close = money 105;
  volume = pos 1_000;
}

abbrev stop : StopOrderRecord
stop = record {
  key = "S1";
  stop_order_id = some "SIM-S1";
  position_id = 0;
  ticker = "SBER";
  lots = pos 5;
  stop_price = money 95;
  status = StopOrderStatus.active;
  created_at = at 0;
  settled_at = none;
}

abbrev two_bars : Exchange
two_bars = record {
  bars = ("SBER", candle (at 10) ∷ candle (at 20) ∷ []) ∷ [];
  instruments = ("SBER", share) ∷ [];
  cash = money 10_000;
  slippage = money 0;
  commission = record { pct = money 1; minimum = money 1 };
  reject_stops = false;
  now = some (at 10);
  phase = Phase.at_close;
  stops_checked = 10 ∷ [];
  orders = [];
  stops = ("S1", stop) ∷ [];
  executed_stops = [];
  holdings = ("F1", record { lots = pos 5; average_price = money 100 }) ∷ [];
}

two_bars-AllHeld : AllHeld two_bars
two_bars-AllHeld = (omega arith, tt)

two_bars-IsSolvent : IsSolvent two_bars
unfolding Le
two_bars-IsSolvent = omega arith

post_market_order-IsSolvent_example :
    IsSolvent (post_market_order "K1" "F1" Side.buy (pos 2) two_bars).1
post_market_order-IsSolvent_example =
    post_market_order-IsSolvent "K1" "F1" (pos 2) two_bars two_bars-IsSolvent

advance_passes : (advance (at 20) Phase.at_open two_bars).0 ≡ ok tt
unfolding advance fire_stops fire_each fire ltb_dec sub add mul fee_on order_ok stop_order_ok ◌*ℤ◌
advance_passes = refl

-- Both moments are within the second bar.
same_bar :
    (ticker : String)
    → bar_for ticker (move_to (at 25) Phase.at_low two_bars)
      ≡ bar_for ticker (move_to (at 20) Phase.at_open two_bars)
same_bar ticker = elim (Bool-cases ("SBER" == ticker)) [ inl e ↦ rw e refl | inr e ↦ rw e refl ]

advance_once_example :
    advance (at 25) Phase.at_low (advance (at 20) Phase.at_open two_bars).1
    ≡ (ok tt, move_to (at 25) Phase.at_low (advance (at 20) Phase.at_open two_bars).1)
advance_once_example =
    advance_once (at 20) (at 25) Phase.at_open Phase.at_low two_bars same_bar advance_passes

abbrev env : Env Exchange
env = record {
  broker = simulated (λ id x. (err broker_unavailable, x)) (λ since until x. (ok [], x));
  uuid = λ n. "key";
  config = settings;
  moscow_date = λ t. 1;
}

abbrev desk : Desk Exchange
desk = record { store = store (database [] []); world = two_bars; keys_used = 0 }

abbrev moves : List Move
moves =
    Move.operation (Operation.open_position buy_signal (pos 2) share)
    ∷ Move.bar (at 20) Phase.at_open
    ∷ Move.operation (Operation.reconcile (at 20))
    ∷ Move.bar (at 20) Phase.at_close
    ∷ []

empty-IsConsistent : IsConsistent (database [] [])
empty-IsConsistent = record {
  orders = record { distinct = tt; valid = tt };
  positions = record { one_open = tt; distinct = tt; valid = tt };
  stop_orders = record { distinct = tt; one_live = tt; valid = tt };
}

make_all-AllHeld_example :
    IsConsistent (make_all env moves desk).store.db × AllHeld (make_all env moves desk).world
make_all-AllHeld_example =
    make_all-AllHeld (λ id x. (err broker_unavailable, x)) (λ since until x. (ok [], x)) env
      (λ id. record { at = λ x h. h }) (λ since until. record { at = λ x h. h }) moves desk
      empty-IsConsistent two_bars-AllHeld
