-- ===== src/Execution/Operations/Budget.antt =====
-- How many market orders the operations of zarabot/execution/orders.py send.
use bazarabot.Base.{ℕ, suc, ◌+◌, ◌≤◌, List, [], ◌∷◌, arith}
use bazarabot.Db.Preserved.{IsPreserved}
use bazarabot.Execution.Desk.{Broker, Env, Desk}
use bazarabot.Execution.Operations.{Operation, run, run_all, orders_allowed, all_allowed}
use bazarabot.Execution.Kept.{IsQuiet, Submits}
use bazarabot.Execution.Kept.Stops.{
  Keeps-place_protective_stop, Keeps-replace_stop, Keeps-adopt_existing_stop,
  Keeps-cancel_orphaned_stop,
}
use bazarabot.Execution.Kept.Entries.{Leads-open_position}
use bazarabot.Execution.Kept.Exits.{Leads-close_position, Keeps-close_executed_stop}
use bazarabot.Commissions.Kept.{Keeps-backfill}
use bazarabot.Reconcile.Kept.{Keeps-reconcile}
use bazarabot.App.Shutdown.{Keeps-shutdown}
use bazarabot.Execution.Kept.Recovery.{Keeps-resolve_unfinished}

module _ {W : Type 0} where
  abbrev pub behind : {A : Type 0} → (W → A × W) → ℕ × W → A × (ℕ × W)
  behind m (n, w) = let (a, w') = m w in (a, (n, w'))

  -- The same broker, with a count of the market orders that were posted.
  abbrev pub counted : Broker W → Broker (ℕ × W)
  counted broker = record {
    get_instrument = λ ticker. behind (broker.get_instrument ticker);
    get_max_lots = λ figi. behind (broker.get_max_lots figi);
    post_market_order = λ key figi side lots (n, w).
        let (r, w') = broker.post_market_order key figi side lots w in (r, (suc n, w'));
    get_order_state = λ key. behind (broker.get_order_state key);
    cancel_order = λ key. behind (broker.cancel_order key);
    post_stop_loss = λ key figi lots price. behind (broker.post_stop_loss key figi lots price);
    cancel_stop_order = λ id. behind (broker.cancel_stop_order id);
    get_order_state_by_broker_id = λ id. behind (broker.get_order_state_by_broker_id id);
    get_operations = λ since until. behind (broker.get_operations since until);
    get_portfolio = behind broker.get_portfolio;
    list_stop_orders = behind broker.list_stop_orders;
    get_last_price = λ figi. behind (broker.get_last_price figi);
    get_executed_stop_fills = λ since until. behind (broker.get_executed_stop_fills since until);
  }

  abbrev pub with_count : Env W → Env (ℕ × W)
  with_count env = record {
    broker = counted env.broker;
    uuid = env.uuid;
    config = env.config;
    moscow_date = env.moscow_date;
  }

  abbrev AtMost : ℕ → ℕ × W → Type 0
  AtMost n (k, w) = k ≤ n

  counted-IsQuiet : (broker : Broker W) (n : ℕ) → IsQuiet (counted broker) (AtMost n)
  counted-IsQuiet broker n = record {
    get_instrument = λ ticker. record { at = λ (k, w) h. h };
    get_max_lots = λ figi. record { at = λ (k, w) h. h };
    get_order_state = λ key. record { at = λ (k, w) h. h };
    cancel_order = λ key. record { at = λ (k, w) h. h };
    post_stop_loss = λ key figi lots price. record { at = λ (k, w) h. h };
    cancel_stop_order = λ id. record { at = λ (k, w) h. h };
    get_order_state_by_broker_id = λ id. record { at = λ (k, w) h. h };
    get_operations = λ since until. record { at = λ (k, w) h. h };
    get_portfolio = record { at = λ (k, w) h. h };
    list_stop_orders = record { at = λ (k, w) h. h };
    get_last_price = λ figi. record { at = λ (k, w) h. h };
    get_executed_stop_fills = λ since until. record { at = λ (k, w) h. h };
  }

  counted-Submits :
      (broker : Broker W) (n : ℕ) → Submits (counted broker) (AtMost n) (AtMost (suc n))
  counted-Submits broker n key figi side lots = record { at = λ (k, w) h. omega (arith, h) }

AtMost-suc : {W : Type 0} (n : ℕ) (v : ℕ × W) → AtMost n v → AtMost (suc n) v
AtMost-suc n (k, w) h = omega (arith, h)

trivial : IsPreserved (λ d. Unit {0})
trivial = record {
  orders = λ d d' w h. tt;
  positions = λ d d' w h. tt;
  stop_orders = λ d d' w h. tt;
  cooldowns = λ d rows h. tt;
  halt_state = λ d row h. tt;
  reconciliations = λ d rows h. tt;
}

module _ {W : Type 0} (env : Env W) where
  -- An operation that starts with `n` orders posted ends with at most its allowance more.
  run_within_budget :
      (op : Operation) (n : ℕ) (d : Desk (ℕ × W))
      → d.world.0 ≤ n
      → (run (with_count env) op d).world.0 ≤ n + orders_allowed op
  run_within_budget (Operation.open_position g lots i) n d h =
      let k =
        (Leads-open_position (with_count env) (λ d. Unit {0}) trivial (AtMost n) (AtMost (suc n))
            (counted-IsQuiet env.broker n) (counted-IsQuiet env.broker (suc n))
            (counted-Submits env.broker n) (AtMost-suc n) g lots i).at
          d (tt, h) in
      omega (arith, k.1)
  run_within_budget (Operation.close_position p t) n d h =
      let k =
        (Leads-close_position (with_count env) (λ d. Unit {0}) trivial (AtMost n) (AtMost (suc n))
            (counted-IsQuiet env.broker n) (counted-IsQuiet env.broker (suc n))
            (counted-Submits env.broker n) (AtMost-suc n) p t).at
          d (tt, h) in
      omega (arith, k.1)
  run_within_budget (Operation.close_executed_stop p o) n d h =
      let k =
        (Keeps-close_executed_stop (with_count env) (λ d. Unit {0}) trivial (AtMost n)
            (counted-IsQuiet env.broker n) p o).at
          d (tt, h) in
      omega (arith, k.1)
  run_within_budget (Operation.resolve_unfinished at) n d h =
      let k =
        (Keeps-resolve_unfinished (with_count env) (λ d. Unit {0}) trivial (AtMost n)
            (counted-IsQuiet env.broker n) at).at
          d (tt, h) in
      omega (arith, k.1)
  run_within_budget (Operation.backfill since until) n d h =
      let k =
        (Keeps-backfill (with_count env) (λ d. Unit {0}) trivial (AtMost n)
            (counted-IsQuiet env.broker n) since until).at
          d (tt, h) in
      omega (arith, k.1)
  run_within_budget (Operation.reconcile now) n d h =
      let k =
        (Keeps-reconcile (with_count env) (λ d. Unit {0}) trivial (AtMost n)
            (counted-IsQuiet env.broker n) now).at
          d (tt, h) in
      omega (arith, k.1)
  run_within_budget (Operation.shutdown signal) n d h =
      let k =
        (Keeps-shutdown (with_count env) (λ d. Unit {0}) trivial (AtMost n)
            (counted-IsQuiet env.broker n) signal).at
          d (tt, h) in
      omega (arith, k.1)
  run_within_budget (Operation.place_protective_stop p i) n d h =
      let k =
        (Keeps-place_protective_stop (with_count env) (λ d. Unit {0}) trivial (AtMost n)
            (counted-IsQuiet env.broker n) p i).at
          d (tt, h) in
      omega (arith, k.1)
  run_within_budget (Operation.replace_stop p i) n d h =
      let k =
        (Keeps-replace_stop (with_count env) (λ d. Unit {0}) trivial (AtMost n)
            (counted-IsQuiet env.broker n) p i).at
          d (tt, h) in
      omega (arith, k.1)
  run_within_budget (Operation.adopt_existing_stop p o) n d h =
      let k =
        (Keeps-adopt_existing_stop (with_count env) (λ d. Unit {0}) trivial (AtMost n)
            (counted-IsQuiet env.broker n) p o).at
          d (tt, h) in
      omega (arith, k.1)
  run_within_budget (Operation.cancel_orphaned_stop o) n d h =
      let k =
        (Keeps-cancel_orphaned_stop (with_count env) (λ d. Unit {0}) trivial (AtMost n)
            (counted-IsQuiet env.broker n) o).at
          d (tt, h) in
      omega (arith, k.1)

-- Whatever the broker answers and however the database fails, a sequence of operations posts at
-- most one market order for each entry and each exit in it, and none for the others: an executed
-- stop, the recovery of unfinished orders, the work on stops, the commission backfill, the
-- reconciliation and the shutdown post none.
pub run_all_within_budget :
    {W : Type 0} (env : Env W) (ops : List Operation) (d : Desk (ℕ × W))
    → (run_all (with_count env) ops d).world.0 ≤ d.world.0 + all_allowed ops
unfolding run_all
run_all_within_budget env [] d = omega arith
run_all_within_budget env (op ∷ ops) d =
    let once = run_within_budget env op d.world.0 d (omega arith) in
    let rest = run_all_within_budget env ops (run (with_count env) op d) in
    omega (arith, once, rest)
