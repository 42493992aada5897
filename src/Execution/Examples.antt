-- ===== src/Execution/Examples.antt =====
-- The order path on a broker with fixed answers.
use bazarabot.Base.{◌≡◌, refl, true, false, ℕ, List, [], ◌∷◌, some, none, ◌≤◌, ◌+◌}
use bazarabot.Base.Int.{pos}
use bazarabot.Base.Decimal.{ltb_dec}
use bazarabot.Base.Exec.{ok, err}
use bazarabot.Models.{ExitTrigger, HaltState, OrderRecord, OrderStatus, order_ok, position_ok}
use bazarabot.Errors.{database_error, broker_unavailable}
use bazarabot.Db.Store.{Store, PositionRow, transaction}
use bazarabot.Db.Cooldowns
use bazarabot.Db.Orders
use bazarabot.Db.Orders.Finality
use bazarabot.Db.Positions
use bazarabot.Db.Positions.Soundness
use bazarabot.Db.Positions.Outcome.{closed_now}
use bazarabot.Halt.{is_halted_row}
use bazarabot.Execution.Desk.{Broker, Env, Desk, write}
use bazarabot.Execution.Halting.{write_failure_halts}
use bazarabot.Db.Orders.Queries.{list_unresolved}
use bazarabot.Execution.Outage.{resolve_unfinished_unreachable}
use bazarabot.Execution.Recovery.{resolve_unfinished}
use bazarabot.Execution.Operations.{Operation, run_all, all_allowed}
use bazarabot.Execution.Operations.Soundness.{IsConsistent, run_all-IsConsistent, outcomes_stay}
use bazarabot.Execution.Operations.Budget.{with_count, run_all_within_budget}
use bazarabot.Execution.Answers.{fill, filling, env}
use bazarabot.Samples.{
  at, money, share, buy_signal, holding, sold, entry_order, exit_order, database, store, row_of,
}

abbrev holding_one : Store
holding_one = store (database (entry_order ∷ exit_order ∷ []) (row_of holding ∷ []))

abbrev desk : Desk (Unit {0})
desk = record { store = holding_one; world = tt; keys_used = 0 }

abbrev sold_one : Desk (Unit {0})
sold_one = record {
  store = store (database (entry_order ∷ exit_order ∷ []) (row_of sold ∷ []));
  world = tt;
  keys_used = 0;
}

abbrev counting : Desk (ℕ × Unit {0})
counting = record { store = holding_one; world = (0, tt); keys_used = 0 }

abbrev ops : List Operation
ops =
    Operation.open_position buy_signal (pos 2) share
    ∷ Operation.close_position holding ExitTrigger.take_profit
    ∷ Operation.resolve_unfinished (at 9)
    ∷ Operation.close_executed_stop holding fill
    ∷ Operation.backfill (at 0) (at 9)
    ∷ Operation.reconcile (at 9)
    ∷ Operation.shutdown 15
    ∷ []

entry_accepted : order_ok entry_order ≡ true
unfolding order_ok
entry_accepted = refl

exit_accepted : order_ok exit_order ≡ true
unfolding order_ok
exit_accepted = refl

holding_accepted : position_ok holding ≡ true
unfolding position_ok ltb_dec
holding_accepted = refl

holding_one-IsConsistent : IsConsistent holding_one.db
holding_one-IsConsistent = record {
  orders = record { distinct = (refl, (refl, tt)); valid = (entry_accepted, (exit_accepted, tt)) };
  positions = record {
    one_open = (λ e. refl, tt);
    distinct = (refl, tt);
    valid = (holding_accepted, tt);
  };
  stop_orders = record { distinct = tt; one_live = tt; valid = tt };
}

run_all-IsConsistent_example : IsConsistent (run_all env ops desk).store.db
run_all-IsConsistent_example = run_all-IsConsistent env ops desk holding_one-IsConsistent

run_all_within_budget_example :
    (run_all (with_count env) ops counting).world.0 ≤ counting.world.0 + all_allowed ops
run_all_within_budget_example = run_all_within_budget env ops counting

outcomes_stay_example :
    Finality.EndedAs "K1" OrderStatus.filled (run_all env ops sold_one).store.db
    × Soundness.ClosedAs 1 sold (run_all env ops sold_one).store.db
outcomes_stay_example =
    outcomes_stay env ops sold_one "K1" OrderStatus.filled 1 sold refl (entry_order, refl, refl)
      (row_of sold, refl, refl, (refl, refl, refl, refl))

abbrev running : HaltState
running = record {
  halted = false;
  reason = none;
  detail = none;
  halted_at = none;
  resumed_at = none;
  resumed_by = none;
}

-- The next transaction fails, and the one after it works.
abbrev failing : Store
failing = record holding_one {
  db = record holding_one.db { halt_state = some running };
  disk = true ∷ [];
}

refused : (transaction (Orders.load "K1") failing).0 ≡ err database_error
unfolding transaction
refused = refl

works_again : (transaction (Orders.load "K1") failing).1.db.halt_state ≡ some running
unfolding transaction
works_again = refl

write_failure_halts_example :
    ((write (transaction (Orders.load "K1")) failing).0 ≡ err database_error)
    × (is_halted_row (write (transaction (Orders.load "K1")) failing).1.db.halt_state ≡ true)
unfolding transaction
write_failure_halts_example =
    write_failure_halts (transaction (Orders.load "K1")) failing database_error running refused refl
      refl works_again

abbrev order_of_exit : OrderRecord
order_of_exit = record exit_order { filled_lots = some (pos 5); filled_price = some (money 110) }

abbrev booked_row : PositionRow
booked_row =
    closed_now ExitTrigger.take_profit (money 110) (at 9) order_of_exit entry_order (row_of holding)

-- No question about an order is answered.
abbrev silent : Broker (Unit {0})
silent = record filling { get_order_state = λ key w. (err broker_unavailable, w) }

abbrev cut_off : Env (Unit {0})
cut_off = record env { broker = silent }

one_unresolved : list_unresolved holding_one ≡ (ok (exit_order ∷ []), holding_one)
unfolding list_unresolved order_ok
one_unresolved = refl

resolve_unfinished_unreachable_example : resolve_unfinished cut_off (at 9) desk ≡ (ok [], desk)
resolve_unfinished_unreachable_example =
    resolve_unfinished_unreachable cut_off (λ key w. refl) (at 9) (exit_order ∷ []) desk refl
      one_unresolved
