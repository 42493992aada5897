-- ===== src/Execution/Answers.antt =====
-- A broker with fixed answers, for the examples.
use bazarabot.Base.{[], some}
use bazarabot.Base.Int.{pos}
use bazarabot.Base.Exec.{ok, err}
use bazarabot.Models.{OrderRecord, OrderStatus, Intent, Side}
use bazarabot.Errors.{broker_unavailable}
use bazarabot.Execution.Desk.{Broker, Env}
use bazarabot.Samples.{money, share, settings, order}

abbrev pub fill : OrderRecord
fill = record (order "B9" Intent.exit Side.sell OrderStatus.filled) {
  filled_lots = some (pos 5);
  filled_price = some (money 110);
}

-- Every order is filled; stops cannot be placed.
abbrev pub filling : Broker (Unit {0})
filling = record {
  get_instrument = λ ticker w. (ok share, w);
  get_max_lots = λ figi w. (ok (pos 5), w);
  post_market_order = λ key figi side lots w. (ok fill, w);
  get_order_state = λ key w. (ok fill, w);
  cancel_order = λ key w. (ok tt, w);
  post_stop_loss = λ key figi lots price w. (err broker_unavailable, w);
  cancel_stop_order = λ id w. (ok tt, w);
  get_order_state_by_broker_id = λ id w. (ok fill, w);
  get_operations = λ since until w. (ok [], w);
  get_portfolio = λ w. (ok (record { cash = money 0; positions = [] }), w);
  list_stop_orders = λ w. (ok [], w);
  get_last_price = λ figi w. (ok (money 100), w);
  get_executed_stop_fills = λ since until w. (ok [], w);
}

abbrev pub env : Env (Unit {0})
env = record { broker = filling; uuid = λ n. "key"; config = settings; moscow_date = λ t. 1 }
