-- ===== src/Execution/Recovery.antt =====
-- Recovery in zarabot/execution/orders.py: orders left unresolved are settled from the broker's
-- record of them.
use bazarabot.Base.{
  String, ◌==◌, Bool, true, false, not, ◌&&◌, List, [], ◌∷◌, reverse, Option, none, some, leb,
  if◌then◌else◌,
}
use bazarabot.Base.Int.{pos, ltb_ℤ, leb_ℤ, ◌-ℤ◌}
use bazarabot.Base.Decimal.{Decimal}
use bazarabot.Base.Exec.{Result, ok, err, pure, raise, or_raise, raise_if, ◌>>=◌, ◌>>◌}
use bazarabot.Models.{
  Datetime, Date, ExitTrigger, OrderRecord, OrderStatus, Position, RiskDecision, Side, Signal,
  is_buy, is_entry, is_filled, is_submitted,
}
use bazarabot.Errors.{Error, order_not_found, position_state_error, value_error, is_unreachable}
use bazarabot.Db.Store.{Alert, Call}
use bazarabot.Db.Store
use bazarabot.Db.Orders.Queries.{list_unresolved}
use bazarabot.Db.Positions
use bazarabot.Db.Signals
use bazarabot.Execution.Desk.{Env, Action, on_db, on_broker, write}
use bazarabot.Execution.Stops.{cancel_stop_to_local, place_stop}
use bazarabot.Execution.Entries.{
  already_open, lots_filled, resolve_partial_entry, settle_from, settle_rejected,
}
use bazarabot.Execution.Exits.{finish_close}

-- `order.status in {REJECTED, CANCELLED}`
abbrev pub is_refused : OrderStatus → Bool
is_refused OrderStatus.rejected = true
is_refused OrderStatus.cancelled = true
is_refused _ = false

abbrev pub is_sale : OrderRecord → Bool
is_sale o = not (is_entry o.intent) && not (is_buy o.side)

abbrev pub is_purchase : OrderRecord → Bool
is_purchase o = is_entry o.intent && is_buy o.side

-- The first signal of the ticker in the list, which is searched from its end.
abbrev pub signal_of : String → List (Signal × RiskDecision) → Option Signal
signal_of ticker [] = none
signal_of ticker ((signal, decision) ∷ rest) =
    if signal.ticker == ticker then some signal else signal_of ticker rest

abbrev pub earlier_day : Date → Date → Date
earlier_day a b = if leb a b then a else b

abbrev pub later_day : Date → Date → Date
later_day a b = if leb a b then b else a

-- A trade that no signal explains.
abbrev pub unattributed : OrderRecord → Datetime → Decimal → Signal
unattributed order moment price = record {
  ticker = order.ticker;
  strategy = "UNATTRIBUTED";
  side = Side.buy;
  generated_at = moment;
  reference_price = price;
}

abbrev pub signal_or_unattributed : OrderRecord → Datetime → Option Signal → Call Signal
signal_or_unattributed order moment (some signal) = pure signal
signal_or_unattributed order moment none = do
  price ← or_raise order.filled_price position_state_error
  pure (unattributed order moment price)

module _ {W : Type 0} (env : Env W) where
  -- `_signal_for_recovered_entry`
  unfoldable pub signal_for_recovered_entry : OrderRecord → Datetime → Call Signal
  signal_for_recovered_entry order moment = do
    let created = env.moscow_date order.created_at
    let seen = env.moscow_date moment
    pairs ←
        Signals.list_for_period env.moscow_date (earlier_day created seen) (later_day created seen)
    signal_or_unattributed order moment (signal_of order.ticker (reverse pairs))

  -- An exit order of a position that is still open: without a trigger it is only told.
  abbrev pub finish_sale :
      OrderRecord → Datetime → Position → Option ExitTrigger → Action W (Unit {0})
  finish_sale order now position none =
      on_db (Store.alert (Alert.exit_without_trigger order.key order.ticker))
  finish_sale order now position (some trigger) = do
    cancel_stop_to_local env position
    on_db (finish_close position order trigger now)
    pure tt

  -- The position is reduced to what was not sold.
  unfoldable pub shrink : OrderRecord → Decimal → Position → Call (Unit {0})
  unfolding write
  shrink order price position = do
    let remaining = position.lots -ℤ lots_filled order
    write (Positions.update_lots position.id remaining)
    Store.alert (Alert.partial_exit position.ticker (lots_filled order) price remaining)

  abbrev pub end_sale : OrderRecord → Datetime → Decimal → Option Position → Action W (Unit {0})
  end_sale order now price none = pure tt
  end_sale order now price (some position) =
      if leb_ℤ position.lots (lots_filled order)
      then finish_sale order now position order.exit_trigger
      else on_db (shrink order price position)

  abbrev pub end_sale_at : OrderRecord → Datetime → Option Decimal → Action W (Unit {0})
  end_sale_at order now none = pure tt
  end_sale_at order now (some price) = do
    position ← on_db (already_open order.ticker)
    end_sale order now price position

  -- `_apply_terminal_exit`
  unfoldable pub apply_terminal_exit : OrderRecord → Datetime → Action W (Unit {0})
  apply_terminal_exit order now =
      if not (is_sale order)
      then pure tt
      else if leb_ℤ (lots_filled order) (pos 0)
      then pure tt
      else end_sale_at order now order.filled_price

  abbrev pub recover_entry :
      OrderRecord → Datetime → Decimal → Option Position → Action W (Unit {0})
  recover_entry order now price (some position) = pure tt
  recover_entry order now price none = do
    instrument ← on_broker (env.broker.get_instrument order.ticker)
    signal ← on_db (signal_for_recovered_entry order now)
    position ← on_db (
        write (
          Positions.open_position signal order instrument (Positions.stop_at env.config price)
            (Positions.target_at env.config price) now))
    place_stop env position instrument
    pure tt

  abbrev pub recover_sale : OrderRecord → Datetime → Option Position → Action W (Unit {0})
  recover_sale order now none = pure tt
  recover_sale order now (some position) = finish_sale order now position order.exit_trigger

  abbrev pub apply_fill : OrderRecord → Datetime → Option Decimal → Action W (Unit {0})
  apply_fill order now none = pure tt
  apply_fill order now (some price) =
      if is_purchase order
      then (do position ← on_db (already_open order.ticker); recover_entry order now price position)
      else if is_sale order
      then (do position ← on_db (already_open order.ticker); recover_sale order now position)
      else pure tt

  -- `_apply_discovered_fill`
  unfoldable pub apply_discovered_fill : OrderRecord → Datetime → Action W (Unit {0})
  apply_discovered_fill order now =
      if leb_ℤ (lots_filled order) (pos 0) then pure tt else apply_fill order now order.filled_price

  abbrev pub resolve_rest : Datetime → Option OrderRecord → Action W (Option OrderRecord)
  resolve_rest now none = pure none
  resolve_rest now (some resolved) = do apply_discovered_fill resolved now; pure (some resolved)

  -- What the broker's record of the order leads to.
  unfoldable pub apply_state : OrderRecord → Datetime → OrderRecord → Action W (Option OrderRecord)
  apply_state order now state =
      if is_filled state.status
      then (do
        settled ← on_db (write (settle_from order.key OrderStatus.filled state))
        apply_discovered_fill settled now
        pure (some settled))
      else if is_refused state.status
      then (do
        settled ← on_db (write (settle_from order.key state.status state))
        apply_terminal_exit settled now
        pure (some settled))
      else if is_submitted state.status
          && is_entry order.intent
          && ltb_ℤ (pos 0) (lots_filled state)
      then (do resolved ← resolve_partial_entry env order.key; resolve_rest now resolved)
      else pure none

  -- The answer to `get_order_state`: an order that is not found was never placed.
  abbrev pub resolve_answer :
      OrderRecord → Datetime → Result Error OrderRecord → Action W (Option OrderRecord)
  resolve_answer order now (ok state) = apply_state order now state
  resolve_answer order now (err order_not_found) = do
    settled ← on_db (write (settle_rejected order.key "never placed"))
    pure (some settled)
  resolve_answer order now (err e) = if is_unreachable e then pure none else raise e

  -- `_resolve_one`
  unfoldable pub resolve_one : OrderRecord → Datetime → Action W (Option OrderRecord)
  resolve_one order now d =
      let (answer, d') = on_broker (env.broker.get_order_state order.key) d in
      resolve_answer order now answer d'

  abbrev pub with_resolved : Option OrderRecord → List OrderRecord → List OrderRecord
  with_resolved none orders = orders
  with_resolved (some o) orders = o ∷ orders

  unfoldable pub resolve_all : Datetime → List OrderRecord → Action W (List OrderRecord)
  resolve_all now [] = pure []
  resolve_all now (order ∷ orders) = do
    settled ← resolve_one order now
    rest ← resolve_all now orders
    pure (with_resolved settled rest)

  unfoldable pub resolve_unfinished : Datetime → Action W (List OrderRecord)
  resolve_unfinished now = do
    raise_if (not now.aware) value_error
    orders ← on_db list_unresolved
    resolve_all now orders
