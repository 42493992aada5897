-- ===== src/Execution/Stops.antt =====
-- Standing stops in zarabot/execution/orders.py: placing, adopting, cancelling, replacing.
use bazarabot.Base.{
  ℕ, zero, suc, String, ◌==◌, Bool, true, false, ◌&&◌, Option, none, some, is_some, get_or,
  if◌then◌else◌,
}
use bazarabot.Base.Exec.{pure, or_raise, catch, ◌>>=◌, ◌>>◌}
use bazarabot.Models.{
  Instrument, Position, StopOrderRecord, StopOrderStatus, StopProtection, is_exchange,
  is_open_status,
}
use bazarabot.Errors.{Error, stop_order_rejected, is_database, is_order_state, is_unreachable}
use bazarabot.Db.Store.{clock_now, Alert, Call}
use bazarabot.Db.Store
use bazarabot.Db.Positions
use bazarabot.Db.Positions.Queries
use bazarabot.Db.StopOrders
use bazarabot.Execution.Desk.{Env, Action, on_db, on_broker, new_key, write, suppress}

-- `except (StopOrderRejected, BrokerUnavailable, BrokerRateLimited)`
abbrev pub is_unplaceable : Error → Bool
is_unplaceable stop_order_rejected = true
is_unplaceable e = is_unreachable e

-- `except (OrderStateError, aiosqlite.Error)`
abbrev pub is_unsettled : Error → Bool
is_unsettled e = if is_order_state e then true else is_database e

-- A text that is present and not empty.
abbrev pub nonempty : Option String → Option String
nonempty none = none
nonempty (some text) = if text == "" then none else some text

abbrev pub settle_stop_now : String → StopOrderStatus → Call StopOrderRecord
settle_stop_now key status s = StopOrders.settle key status (clock_now s) s

abbrev pub or_given : Position → Option Position → Position
or_given position found = get_or found position

-- `active_for_position` found one, and the exchange protects the position.
abbrev pub is_protected : Option StopOrderRecord → Position → Bool
is_protected standing position = is_some standing && is_exchange position.stop_protection

-- The row is bound to the exchange's stop, and the position to the row.
unfoldable pub bind_stop : String → ℕ → String → Call Position
unfolding write
bind_stop key id stop_id = do
  write (StopOrders.activate key stop_id)
  write (Positions.set_stop_protection id StopProtection.exchange (some key))

module _ {W : Type 0} (env : Env W) where
  -- The body of the `try` of one attempt.
  unfoldable pub post_stop : String → Position → Instrument → Action W Position
  unfolding bind_stop
  post_stop key position instrument = do
    placed ←
        on_broker (env.broker.post_stop_loss key instrument.figi position.lots position.stop_price)
    stop_id ← or_raise (nonempty placed.stop_order_id) stop_order_rejected
    on_db (bind_stop key position.id stop_id)

  -- After the last attempt.
  unfoldable pub give_up : Position → Action W Position
  give_up position = do
    on_db (Store.alert (Alert.stop_unplaceable position.ticker 3))
    current ← on_db (Positions.Queries.get position.id)
    pure (or_given position current)

  -- The rounds that are left of `for _attempt in range(_STOP_ATTEMPTS)`.
  unfoldable pub attempts : ℕ → Position → Instrument → Action W Position
  attempts zero position instrument = give_up position
  attempts (suc left) position instrument = do
    key ← new_key env
    on_db (
        write (
          StopOrders.record_placing key position.id position.ticker position.lots
            position.stop_price))
    catch is_unplaceable (post_stop key position instrument) λ e. do
      on_db (suppress is_unsettled (settle_stop_now key StopOrderStatus.failed))
      attempts left position instrument

  -- `_place_stop`
  unfoldable pub place_stop : Position → Instrument → Action W Position
  place_stop position instrument = do
    standing ← on_db (StopOrders.active_for_position position.id)
    if is_protected standing position then pure position else attempts 3 position instrument

  -- What is done with a position that is still there.
  abbrev pub place_loaded : Position → Instrument → Option Position → Action W Position
  place_loaded position instrument none = pure position
  place_loaded position instrument (some loaded) = place_stop loaded instrument

  unfoldable pub place_protective_stop : Position → Instrument → Action W Position
  place_protective_stop position instrument = do
    loaded ← on_db (Positions.Queries.get position.id)
    place_loaded position instrument loaded

  unfoldable pub adopt_existing_stop : Position → StopOrderRecord → Action W Position
  adopt_existing_stop position stop = do
    on_db (
        write (
          StopOrders.record_placing stop.key position.id position.ticker stop.lots stop.stop_price))
    stop_id ← or_raise (nonempty stop.stop_order_id) stop_order_rejected
    on_db (bind_stop stop.key position.id stop_id)

  -- `if stop.stop_order_id: await cancel_stop_order(...)`
  abbrev pub cancel_if_known : Option String → Action W (Unit {0})
  cancel_if_known none = pure tt
  cancel_if_known (some stop_id) = on_broker (env.broker.cancel_stop_order stop_id)

  abbrev pub holds_stop : String → Position → Bool
  holds_stop key owner =
      is_open_status owner.status
      && (elim owner.stop_order_key [ none ↦ false | some k ↦ k == key ])

  abbrev pub release_owner : String → Option Position → Action W (Unit {0})
  release_owner key none = pure tt
  release_owner key (some owner) =
      if holds_stop key owner
      then (do
        on_db (write (Positions.set_stop_protection owner.id StopProtection.local none))
        pure tt)
      else pure tt

  unfoldable pub cancel_orphaned_stop : StopOrderRecord → Action W (Unit {0})
  cancel_orphaned_stop stop = do
    cancel_if_known (nonempty stop.stop_order_id)
    on_db (suppress is_order_state (settle_stop_now stop.key StopOrderStatus.orphaned))
    owner ← on_db (Positions.Queries.get stop.position_id)
    release_owner stop.key owner

  abbrev pub cancel_standing : Option StopOrderRecord → Action W (Unit {0})
  cancel_standing none = pure tt
  cancel_standing (some standing) = do
    cancel_if_known (nonempty standing.stop_order_id)
    on_db (suppress is_order_state (settle_stop_now standing.key StopOrderStatus.cancelled))

  -- `_cancel_stop_to_local`
  unfoldable pub cancel_stop_to_local : Position → Action W Position
  cancel_stop_to_local position = do
    standing ← on_db (StopOrders.active_for_position position.id)
    cancel_standing standing
    loaded ← on_db (Positions.Queries.get position.id)
    let target = or_given position loaded
    if is_exchange target.stop_protection
        then on_db (write (Positions.set_stop_protection target.id StopProtection.local none))
        else pure target

  unfoldable pub replace_stop : Position → Instrument → Action W Position
  replace_stop position instrument = do
    cancel_stop_to_local position
    loaded ← on_db (Positions.Queries.get position.id)
    place_loaded position instrument loaded
