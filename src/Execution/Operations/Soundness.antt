-- ===== src/Execution/Operations/Soundness.antt =====
-- Sequences of operations of zarabot/execution/orders.py and zarabot/ops/commissions.py, and the tables that they write.
use bazarabot.Base.{refl, true, ℕ, ◌≡◌, List, String}
use bazarabot.Models.{OrderStatus, Position}
use bazarabot.Db.Store.{Database}
use bazarabot.Db.Orders.{is_terminal}
use bazarabot.Db.Orders.Finality
use bazarabot.Db.Positions.Soundness
use bazarabot.Db.StopOrders.Standing
use bazarabot.Db.Orders.Finality.{EndedAs, Write-EndedAs}
use bazarabot.Db.Positions.Soundness.{ClosedAs, Write-ClosedAs}
use bazarabot.Db.Apart.{
  orders_apart, positions_apart, stop_orders_apart, same_orders, same_positions, same_stop_orders,
  same_ended, same_closed,
}
use bazarabot.Db.Preserved.{IsPreserved}
use bazarabot.Execution.Desk.{Broker, Env, Desk}
use bazarabot.Execution.Operations.{Operation, run_all}
use bazarabot.Execution.Operations.Kept.{run_all_kept}
use bazarabot.Execution.Kept.{IsQuiet, Submits}

-- The broker may do anything.
abbrev Anything : {W : Type 0} → W → Type 0
Anything w = Unit {0}

Anything-IsQuiet : {W : Type 0} (broker : Broker W) → IsQuiet broker Anything
Anything-IsQuiet broker = record {
  get_instrument = λ ticker. record { at = λ w h. tt };
  get_max_lots = λ figi. record { at = λ w h. tt };
  get_order_state = λ key. record { at = λ w h. tt };
  cancel_order = λ key. record { at = λ w h. tt };
  post_stop_loss = λ key figi lots price. record { at = λ w h. tt };
  cancel_stop_order = λ id. record { at = λ w h. tt };
  get_order_state_by_broker_id = λ id. record { at = λ w h. tt };
  get_operations = λ since until. record { at = λ w h. tt };
  get_portfolio = record { at = λ w h. tt };
  list_stop_orders = record { at = λ w h. tt };
  get_last_price = λ figi. record { at = λ w h. tt };
  get_executed_stop_fills = λ since until. record { at = λ w h. tt };
}

Anything-Submits : {W : Type 0} (broker : Broker W) → Submits broker Anything Anything
Anything-Submits broker key figi side lots = record { at = λ w h. tt }

module _ {W : Type 0} (env : Env W) (R : Database → Type 0) (kept : IsPreserved R) where
  tables_kept : (ops : List Operation) (d : Desk W) → R d.store.db → R (run_all env ops d).store.db
  tables_kept ops d h =
      (run_all_kept env R kept Anything (Anything-IsQuiet env.broker) (Anything-Submits env.broker)
        ops d (h, tt)).0

-- All three tables of the order path are sound.
pub record IsConsistent (d : Database) : Type 0 where
  pub orders : Finality.IsSound d
  pub positions : Soundness.IsSound d
  pub stop_orders : Standing.IsSound d

pub IsConsistent-IsPreserved : IsPreserved IsConsistent
IsConsistent-IsPreserved = record {
  orders = λ d d' w h. record {
    orders = Finality.Write-IsSound w h.orders;
    positions = same_positions d d' (orders_apart w).0 h.positions;
    stop_orders = same_stop_orders d d' (orders_apart w).1 h.stop_orders;
  };
  positions = λ d d' w h. record {
    orders = same_orders d d' (positions_apart w).0 h.orders;
    positions = Soundness.Write-IsSound w h.positions;
    stop_orders = same_stop_orders d d' (positions_apart w).1 h.stop_orders;
  };
  stop_orders = λ d d' w h. record {
    orders = same_orders d d' (stop_orders_apart w).0 h.orders;
    positions = same_positions d d' (stop_orders_apart w).1 h.positions;
    stop_orders = Standing.Write-IsSound w h.stop_orders;
  };
  cooldowns = λ d rows h. record {
    orders = same_orders d (record d { cooldowns = rows }) refl h.orders;
    positions = same_positions d (record d { cooldowns = rows }) refl h.positions;
    stop_orders = same_stop_orders d (record d { cooldowns = rows }) refl h.stop_orders;
  };
  reconciliations = λ d rows h. record {
    orders = same_orders d (record d { reconciliations = rows }) refl h.orders;
    positions = same_positions d (record d { reconciliations = rows }) refl h.positions;
    stop_orders = same_stop_orders d (record d { reconciliations = rows }) refl h.stop_orders;
  };
  halt_state = λ d row h. record {
    orders = same_orders d (record d { halt_state = row }) refl h.orders;
    positions = same_positions d (record d { halt_state = row }) refl h.positions;
    stop_orders = same_stop_orders d (record d { halt_state = row }) refl h.stop_orders;
  };
}

EndedAs-IsPreserved :
    (key : String) (status : OrderStatus)
    → is_terminal status ≡ true
    → IsPreserved (EndedAs key status)
EndedAs-IsPreserved key status t = record {
  orders = λ d d' w h. Write-EndedAs key status t w h;
  positions = λ d d' w h. same_ended d d' key status (positions_apart w).0 h;
  stop_orders = λ d d' w h. same_ended d d' key status (stop_orders_apart w).0 h;
  cooldowns = λ d rows h. h;
  halt_state = λ d row h. h;
  reconciliations = λ d rows h. h;
}

pub ClosedAs-IsPreserved : (id : ℕ) (p : Position) → IsPreserved (ClosedAs id p)
ClosedAs-IsPreserved id p = record {
  orders = λ d d' w h. same_closed d d' id p (orders_apart w).0 h;
  positions = λ d d' w h. Write-ClosedAs id p w h;
  stop_orders = λ d d' w h. same_closed d d' id p (stop_orders_apart w).1 h;
  cooldowns = λ d rows h. h;
  halt_state = λ d row h. h;
  reconciliations = λ d rows h. h;
}

-- Whatever the broker answers, however the database fails, and wherever an exception leaves an
-- operation, every sequence of operations, the commission backfill, the reconciliation and the
-- shutdown among them, takes consistent tables to consistent tables: distinct keys and ids, valid
-- rows, one open position for a ticker, one standing stop for a position.
pub run_all-IsConsistent :
    {W : Type 0} (env : Env W) (ops : List Operation) (d : Desk W)
    → IsConsistent d.store.db
    → IsConsistent (run_all env ops d).store.db
run_all-IsConsistent env ops d h = tables_kept env IsConsistent IsConsistent-IsPreserved ops d h

-- Whatever the broker answers, however the database fails, through every sequence of operations, the
-- commission backfill, the reconciliation and the shutdown among them, an order that has ended keeps
-- its status, and a closed position stays closed with the trigger, price and time of its close.
pub outcomes_stay :
    {W : Type 0} (env : Env W) (ops : List Operation) (d : Desk W) (key : String)
    (status : OrderStatus) (id : ℕ) (p : Position)
    → is_terminal status ≡ true
    → EndedAs key status d.store.db
    → ClosedAs id p d.store.db
    → EndedAs key status (run_all env ops d).store.db × ClosedAs id p (run_all env ops d).store.db
outcomes_stay env ops d key status id p t ended closed = (
  tables_kept env (EndedAs key status) (EndedAs-IsPreserved key status t) ops d ended,
  tables_kept env (ClosedAs id p) (ClosedAs-IsPreserved id p) ops d closed,
)
