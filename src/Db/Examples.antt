-- ===== src/Db/Examples.antt =====
-- The database with one order, one position or one stop.
use bazarabot.Base.{◌⊎◌, true, false, ◌≡◌, ◌&&◌, refl, arith, List, [], ◌∷◌, some, none, first}
use bazarabot.Base.Int.{pos}
use bazarabot.Base.Decimal.{ltb_dec}
use bazarabot.Base.Exec.{ok, err}
use bazarabot.Models.{
  ExitTrigger, OrderRecord, OrderStatus, RiskDecision, Signal, order_ok, position_ok,
  risk_decision_ok, signal_ok,
}
use bazarabot.Errors.{order_state_error, position_state_error}
use bazarabot.Db.Store.{Store, PositionRow, transaction}
use bazarabot.Db.Connection.{Answer, Body, Connection}
use bazarabot.Db.Orders
use bazarabot.Db.Orders.Finality
use bazarabot.Db.Orders.Finality.{OrderCall, terminal_status_final, orders_stay-IsSound}
use bazarabot.Db.Orders.Outcome.{settled_now, settle_settles}
use bazarabot.Db.Positions
use bazarabot.Db.Positions.Rows.{has_id, is_open}
use bazarabot.Db.Positions.Soundness
use bazarabot.Db.Positions.Soundness.{PositionCall, positions_stay-IsSound, close_final}
use bazarabot.Db.Positions.Outcome.{closed_now, close_books}
use bazarabot.Db.StopOrders
use bazarabot.Db.StopOrders.Standing
use bazarabot.Db.StopOrders.Standing.{StopCall, one_standing_stop}
use bazarabot.Db.Cooldowns
use bazarabot.Db.Cooldowns.Newest.{perform_all, cooldown_lasts}
use bazarabot.Base.Members.{IsMember}
use bazarabot.Db.Signals.{record_signal, list_for_period}
use bazarabot.Db.Signals.RoundTrip.{record_signal-list_for_period}
use bazarabot.Samples.{
  at, money, share, buy_signal, holding, sold, entry_order, exit_order, database, store, row_of,
}

-- A nested acquisition whose error is caught, and a statement after it.
abbrev forgiving : Body
forgiving =
    Body.attempted
      (Body.statement (λ db. ok (record db { orders = [] }))
        (Body.statement (λ db. err order_state_error) Body.finished))
      (Body.statement (λ db. ok (record db { halt_state = none })) Body.finished)

-- SQLite begins the transaction, and refuses to commit it.
abbrev uncommitting : Connection
uncommitting = record {
  committed = database (entry_order ∷ []) [];
  opened = none;
  depth = 0;
  answers = Answer.done ∷ Answer.refused ∷ [];
}

abbrev with_entry : Store
with_entry = store (database (entry_order ∷ []) [])

abbrev order_calls : List OrderCall
order_calls =
    OrderCall.settle "K1" OrderStatus.rejected (pos 0) none none none none
    ∷ OrderCall.record_commission "K1" (money 3)
    ∷ []

terminal_status_final_example :
    Finality.EndedAs "K1" OrderStatus.filled (Finality.perform_all order_calls with_entry).db
terminal_status_final_example =
    terminal_status_final "K1" OrderStatus.filled order_calls with_entry refl
      (entry_order, refl, refl)

entry_valid : order_ok entry_order ≡ true
unfolding order_ok
entry_valid = refl

orders_stay-IsSound_example : Finality.IsSound (Finality.perform_all order_calls with_entry).db
orders_stay-IsSound_example =
    orders_stay-IsSound order_calls with_entry
      (record { distinct = (refl, tt); valid = (entry_valid, tt) })

abbrev with_exit : Store
with_exit = store (database (exit_order ∷ []) [])

exit_valid : order_ok exit_order ≡ true
unfolding order_ok
exit_valid = refl

abbrev outcome : OrderRecord
outcome =
    settled_now OrderStatus.filled (pos 5) (some (money 110)) (some (money 3)) none (some "B2")
      (at 5) exit_order

outcome_valid : order_ok outcome ≡ true
unfolding order_ok ltb_dec
outcome_valid = refl

settle_settles_example :
    let after =
      Orders.settle "K2" OrderStatus.filled
        (pos 5)
        (some (money 110))
        (some (money 3))
        none
        (some "B2")
        with_exit in
    ((Orders.is_terminal exit_order.status ≡ false)
      × (after.0 ≡ ok outcome)
      × (first (Orders.has_key "K2") after.1.db.orders ≡ some outcome)
      × (first (Orders.has_key "K1") after.1.db.orders
          ≡ first (Orders.has_key "K1") with_exit.db.orders))
    ⊎ ((Orders.is_terminal exit_order.status ≡ true)
        × (after.0 ≡ err order_state_error)
        × (after.1.db ≡ with_exit.db))
settle_settles_example =
    settle_settles "K2" OrderStatus.filled (pos 5) (some (money 110)) (some (money 3)) none
      (some "B2") with_exit exit_order refl refl refl exit_valid "K1" refl outcome_valid

abbrev with_position : Store
with_position = store (database (entry_order ∷ exit_order ∷ []) (row_of holding ∷ []))

holding_valid : position_ok holding ≡ true
unfolding position_ok ltb_dec
holding_valid = refl

abbrev position_calls : List PositionCall
position_calls =
    PositionCall.open_position buy_signal entry_order share (money 95) (money 110) (at 6)
    ∷ PositionCall.close 1 ExitTrigger.take_profit (money 110) (at 9) (some exit_order) none
    ∷ PositionCall.update_lots 1 (pos 2)
    ∷ []

positions_stay-IsSound_example :
    Soundness.IsSound (Soundness.perform_all position_calls with_position).db
positions_stay-IsSound_example =
    positions_stay-IsSound position_calls with_position
      (record { one_open = (λ e. refl, tt); distinct = (refl, tt); valid = (holding_valid, tt) })

abbrev with_sold : Store
with_sold = store (database (entry_order ∷ exit_order ∷ []) (row_of sold ∷ []))

close_final_example : Soundness.ClosedAs 1 sold (Soundness.perform_all position_calls with_sold).db
close_final_example =
    close_final 1 sold position_calls with_sold (row_of sold, refl, refl, (refl, refl, refl, refl))

sold_row_closed : is_open (row_of sold) ≡ false
sold_row_closed = refl

sold_valid : position_ok sold ≡ true
unfolding position_ok ltb_dec
sold_valid = refl

abbrev entry_paid : OrderRecord
entry_paid = record entry_order { commission = some (money 3) }

abbrev exit_paid : OrderRecord
exit_paid = record exit_order { commission = some (money 4) }

abbrev with_paid : Store
with_paid = store (database (entry_paid ∷ exit_paid ∷ []) (row_of holding ∷ []))

abbrev booked_row : PositionRow
booked_row =
    closed_now ExitTrigger.take_profit (money 110) (at 9) exit_paid entry_paid (row_of holding)

booked_valid : position_ok booked_row.position ≡ true
unfolding position_ok ltb_dec
booked_valid = refl

entry_paid_valid : order_ok entry_paid ≡ true
unfolding order_ok ltb_dec
entry_paid_valid = refl

close_books_example :
    let after =
      Positions.close 1 ExitTrigger.take_profit
        (money 110)
        (at 9)
        (some exit_paid)
        none
        with_paid in
    ((is_open (row_of holding) ≡ true)
      × (after.0 ≡ ok booked_row.position)
      × (first (has_id 1) after.1.db.positions ≡ some booked_row)
      × (first (has_id 2) after.1.db.positions ≡ first (has_id 2) with_paid.db.positions))
    ⊎ ((is_open (row_of holding) ≡ false)
        × (after.0 ≡ err position_state_error)
        × (after.1.db ≡ with_paid.db))
close_books_example =
    close_books 1 ExitTrigger.take_profit (money 110) (at 9) exit_paid entry_paid with_paid
      (row_of holding) refl refl refl refl holding_valid 2 refl refl refl entry_paid_valid refl
      booked_valid

abbrev stop_calls : List StopCall
stop_calls =
    StopCall.record_placing "S1" 1 "SBER" (pos 5) (money 95)
    ∷ StopCall.activate "S1" "X1"
    ∷ StopCall.record_placing "S2" 1 "SBER" (pos 5) (money 95)
    ∷ []

one_standing_stop_example :
    Standing.IsSound (Standing.perform_all stop_calls with_position).db
    × (StopOrders.active_for_position 1 (Standing.perform_all stop_calls with_position) ≡ (
      ok (
          first
            (StopOrders.live_for 1)
            (Standing.perform_all stop_calls with_position).db.stop_orders),
      Standing.perform_all stop_calls with_position,
    ))
one_standing_stop_example =
    one_standing_stop stop_calls with_position 1
      (record { distinct = tt; one_live = tt; valid = tt })

exit_recorded : (Cooldowns.start "SBER" (at 5) with_position).0 ≡ ok tt
unfolding Cooldowns.start transaction
exit_recorded = refl

cooldown_lasts_example :
    (Cooldowns.is_active "SBER"
      (at 100)
      120
      (perform_all (("SBER", at 3) ∷ []) (Cooldowns.start "SBER" (at 5) with_position).1)).0
    ≡ ok true
cooldown_lasts_example =
    cooldown_lasts "SBER" (at 5) (at 100) 120 (("SBER", at 3) ∷ []) with_position exit_recorded refl
      (omega arith)

abbrev approval : RiskDecision
approval = record { approved = true; lots = some (pos 5); reason = none }

signal_readable : (signal_ok buy_signal && risk_decision_ok approval) ≡ true
unfolding signal_ok ltb_dec
signal_readable = refl

record_signal-list_for_period_example :
    (pairs : List (Signal × RiskDecision)) × ((list_for_period
        (λ t. 1)
        1
        2
        (record_signal buy_signal approval with_entry).1).0
      ≡ ok pairs)
    × IsMember (buy_signal, approval) pairs
record_signal-list_for_period_example =
    record_signal-list_for_period (λ t. 1) 1 2 buy_signal approval with_entry tt refl refl
      signal_readable refl
