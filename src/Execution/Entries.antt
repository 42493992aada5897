-- ===== src/Execution/Entries.antt =====
-- Entries in zarabot/execution/orders.py: from an approved signal to a protected position.
use bazarabot.Base.{
  String, ◌==◌, Bool, true, false, not, ◌&&◌, ◌||◌, Option, none, some, first, is_none, is_some,
  get_or, if◌then◌else◌,
}
use bazarabot.Base.Int.{ℤ, pos, ltb_ℤ, leb_ℤ}
use bazarabot.Base.Decimal.{Decimal, sub, mul, of_int, leb_dec, literal}
use bazarabot.Base.Exec.{pure, raise, or_raise, raise_if, catch, ◌>>=◌, ◌>>◌}
use bazarabot.Models.{
  Instrument, Intent, OrderRecord, OrderStatus, Position, Side, Signal, is_filled, is_submitted,
}
use bazarabot.Config.{Config}
use bazarabot.Errors.{
  Error, order_rejected, broker_unavailable, order_not_found, position_state_error, is_unreachable,
}
use bazarabot.Db.Store.{clock_now, Alert, Call}
use bazarabot.Db.Store
use bazarabot.Db.Orders
use bazarabot.Db.Positions
use bazarabot.Db.Positions.Queries
use bazarabot.Execution.Desk.{Env, Action, on_db, on_broker, new_key, write}
use bazarabot.Execution.Stops.{place_stop}

-- `_already_open`
unfoldable pub already_open : String → Call (Option Position)
already_open ticker = do
  found ← Positions.Queries.list_open
  pure (first (λ p. p.ticker == ticker) found)

-- `state.filled_lots if state.filled_lots is not None else 0`
abbrev pub lots_filled : OrderRecord → ℤ
lots_filled o = get_or o.filled_lots (pos 0)

-- `filled <= 0 or price is None`
abbrev pub is_unfilled : OrderRecord → Bool
is_unfilled o = leb_ℤ (lots_filled o) (pos 0) || is_none o.filled_price

-- `except OrderRejected as exc`
abbrev pub is_rejection : Error → Bool
is_rejection (order_rejected reason) = true
is_rejection _ = false

abbrev pub reason_of : Error → String
reason_of (order_rejected reason) = reason
reason_of _ = ""

-- `except (OrderNotFound, BrokerUnavailable, BrokerRateLimited)`
abbrev pub is_unanswered : Error → Bool
is_unanswered order_not_found = true
is_unanswered e = is_unreachable e

-- The order is settled by the broker's own record of it, under a status.
abbrev pub settle_from : String → OrderStatus → OrderRecord → Call OrderRecord
settle_from key status o =
    Orders.settle key status (lots_filled o) o.filled_price o.commission o.broker_reason none

abbrev pub settle_rejected : String → String → Call OrderRecord
settle_rejected key reason =
    Orders.settle key OrderStatus.rejected (pos 0) none none (some reason) none

-- What a re-read entry is settled as: cancelled where nothing filled, else filled.
unfoldable pub settle_partial : String → OrderRecord → Call OrderRecord
unfolding write
settle_partial key o =
    if is_unfilled o
    then write
        (Orders.settle key OrderStatus.cancelled (pos 0) none o.commission (some "cancelled") none)
    else write (settle_from key OrderStatus.filled o)

-- The size of a difference, as a decimal.
abbrev pub distance : Decimal → Decimal → Decimal
distance a b = if leb_dec a b then sub b a else sub a b

-- `abs(fill - reference) / reference * 100 <= threshold`, multiplied out for a positive reference.
abbrev pub within_slippage : Config → Decimal → Decimal → Bool
within_slippage cfg reference fill =
    leb_dec (mul (distance fill reference) (literal 100 0))
      (mul cfg.fill_slippage_alert_pct reference)

-- `_alert_fill_slippage`
unfoldable pub alert_fill_slippage : Config → Signal → Decimal → Call (Unit {0})
alert_fill_slippage cfg signal fill =
    if leb_dec signal.reference_price (of_int (pos 0))
    then Store.alert (Alert.reference_unusable signal.ticker signal.reference_price fill)
    else if within_slippage cfg signal.reference_price fill
    then pure tt
    else Store.alert (Alert.fill_slippage signal.ticker signal.reference_price fill)

-- `allowed` where it is below what was asked for.
abbrev pub clamped : ℤ → ℤ → ℤ
clamped allowed requested = if ltb_ℤ allowed requested then allowed else requested

module _ {W : Type 0} (env : Env W) where
  -- The position row of a fill, with the stop and the target at the fill's price.
  unfoldable pub open_at : Signal → OrderRecord → Instrument → Decimal → Call Position
  open_at signal order instrument price s =
      write
        (Positions.open_position signal order instrument (Positions.stop_at env.config price)
          (Positions.target_at env.config price) (clock_now s))
        s

  -- `_open_from_fill`
  unfoldable pub open_from_fill : Signal → OrderRecord → Instrument → Action W Position
  open_from_fill signal order instrument = do
    price ← or_raise order.filled_price (order_rejected "fill has no price")
    position ← on_db (open_at signal order instrument price)
    protected ← place_stop env position instrument
    on_db (alert_fill_slippage env.config signal price)
    pure protected

  abbrev pub settle_if_known : String → Option OrderRecord → Action W (Option OrderRecord)
  settle_if_known key none = pure none
  settle_if_known key (some o) = do settled ← on_db (settle_partial key o); pure (some settled)

  -- `_resolve_partial_entry`: the remainder is cancelled, and the broker's re-read is settled.
  unfoldable pub resolve_partial_entry : String → Action W (Option OrderRecord)
  resolve_partial_entry key = do
    state ←
        catch is_unanswered
          (do
            on_broker (env.broker.cancel_order key)
            o ← on_broker (env.broker.get_order_state key)
            pure (some o))
          (λ e. pure none)
    settle_if_known key state

  -- The broker's limit is zero: the intent is written down as rejected.
  unfoldable pub refuse_entry : Signal → ℤ → Action W Position
  refuse_entry signal requested = do
    key ← new_key env
    on_db (write (Orders.record_submitting key signal.ticker Side.buy requested Intent.entry none))
    on_db (write (settle_rejected key "max lots is 0"))
    raise (order_rejected "max lots is 0")

  -- A rejection is settled, told and raised again.
  abbrev pub reject_entry : String → Signal → Error → Action W OrderRecord
  reject_entry key signal e = do
    on_db (write (settle_rejected key (reason_of e)))
    on_db (Store.alert (Alert.entry_rejected signal.ticker (reason_of e)))
    raise e

  -- The market order of an entry.
  unfoldable pub post_entry : String → Signal → Instrument → ℤ → Action W OrderRecord
  post_entry key signal instrument lots =
      catch is_rejection
        (on_broker (env.broker.post_market_order key instrument.figi Side.buy lots))
        (reject_entry key signal)

  -- A partial fill, once it is resolved.
  abbrev pub open_partial : Signal → Instrument → ℤ → Option OrderRecord → Action W Position
  open_partial signal instrument lots none = raise broker_unavailable
  open_partial signal instrument lots (some settled) = do
    raise_if (is_unfilled settled) (order_rejected "entry cancelled with nothing filled")
    on_db (Store.alert (Alert.partial_entry signal.ticker (lots_filled settled) lots))
    open_from_fill signal settled instrument

  -- What the broker's answer to the order leads to.
  unfoldable pub book_entry : String → Signal → Instrument → ℤ → OrderRecord → Action W Position
  book_entry key signal instrument lots posted =
      if is_submitted posted.status && ltb_ℤ (pos 0) (lots_filled posted)
      then (do settled ← resolve_partial_entry key; open_partial signal instrument lots settled)
      else (do
        raise_if (not (is_filled posted.status) || is_unfilled posted) broker_unavailable
        settled ← on_db (write (settle_from key OrderStatus.filled posted))
        open_from_fill signal settled instrument)

  unfoldable pub submit_entry : Signal → ℤ → Instrument → Action W Position
  submit_entry signal lots instrument = do
    key ← new_key env
    on_db (write (Orders.record_submitting key signal.ticker Side.buy lots Intent.entry none))
    posted ← post_entry key signal instrument lots
    book_entry key signal instrument lots posted

  unfoldable pub open_position : Signal → ℤ → Instrument → Action W Position
  open_position signal requested instrument = do
    existing ← on_db (already_open signal.ticker)
    raise_if (is_some existing) position_state_error
    allowed ← on_broker (env.broker.get_max_lots instrument.figi)
    if leb_ℤ (clamped allowed requested) (pos 0)
        then refuse_entry signal requested
        else submit_entry signal (clamped allowed requested) instrument
