-- ===== src/Execution/Exits.antt =====
-- Exits in zarabot/execution/orders.py: those that the bot sells, and those that the exchange did.
use bazarabot.Base.{◌<>◌, String, Bool, true, not, ◌&&◌, ◌||◌, Option, none, some, if◌then◌else◌}
use bazarabot.Base.Int.{ℤ, pos, leb_ℤ}
use bazarabot.Base.Decimal.{Decimal}
use bazarabot.Base.Exec.{pure, raise, or_raise, raise_if, catch, ◌>>=◌, ◌>>◌}
use bazarabot.Models.{
  Datetime, ExitTrigger, Intent, OrderRecord, OrderStatus, Position, Side, StopOrderStatus,
  StopProtection, is_exchange, is_filled, is_stop_loss,
}
use bazarabot.Errors.{
  Error, exit_failed, position_state_error, value_error, is_database, is_order_state,
  is_unreachable,
}
use bazarabot.Db.Store.{clock_now, Alert, Call}
use bazarabot.Db.Store
use bazarabot.Db.Cooldowns
use bazarabot.Db.Orders
use bazarabot.Db.Positions
use bazarabot.Db.Positions.Queries
use bazarabot.Execution.Desk.{
  Env, Action, on_db, on_broker, new_key, write, suppress, halt_on_db_failure,
}
use bazarabot.Execution.Stops.{cancel_stop_to_local, nonempty, settle_stop_now}
use bazarabot.Execution.Entries.{is_rejection, is_unfilled, reason_of, settle_from, settle_rejected}

-- `_finish_close`: a cooldown that cannot be written halts trading, and the close stands.
unfoldable pub finish_close : Position → OrderRecord → ExitTrigger → Datetime → Call Position
unfolding write halt_on_db_failure
finish_close position order trigger moment = do
  price ← or_raise order.filled_price exit_failed
  closed ← write (Positions.close position.id trigger price moment (some order) none)
  catch is_database (Cooldowns.start position.ticker moment)
      λ e. halt_on_db_failure ("cooldown write failed after closing " <> position.ticker)
  pure closed

abbrev pub finish_close_now : Position → OrderRecord → ExitTrigger → Call Position
finish_close_now position order trigger s = finish_close position order trigger (clock_now s) s

-- The failures of a market order that `close_position` answers.
abbrev pub is_refused_or_lost : Error → Bool
is_refused_or_lost e = if is_rejection e then true else is_unreachable e

-- `fill.filled_lots or current.lots`
abbrev pub lots_or : ℤ → Option ℤ → ℤ
lots_or lots none = lots
lots_or lots (some n) = if leb_ℤ n (pos 0) && leb_ℤ (pos 0) n then lots else n

-- The stop's row is executed, where there is one; a row that has ended stays as it is.
abbrev pub settle_executed : Option String → Call (Unit {0})
settle_executed none = pure tt
settle_executed (some key) = suppress is_order_state (settle_stop_now key StopOrderStatus.executed)

module _ {W : Type 0} (env : Env W) where
  -- A rejected exit is settled and told; both failures become `ExitFailed`.
  abbrev pub fail_exit : String → Position → Error → Action W OrderRecord
  fail_exit key position e =
      if is_rejection e
      then (do
        on_db (write (settle_rejected key (reason_of e)))
        on_db (Store.alert (Alert.exit_rejected position.ticker (reason_of e)))
        raise exit_failed)
      else (do on_db (Store.alert (Alert.exit_unreachable position.ticker)); raise exit_failed)

  unfoldable pub post_exit : String → Position → Action W OrderRecord
  post_exit key position =
      catch is_refused_or_lost
        (on_broker (env.broker.post_market_order key position.figi Side.sell position.lots))
        (fail_exit key position)

  -- An outcome that is not a fill is told, and left to the recovery.
  unfoldable pub book_exit : String → Position → ExitTrigger → OrderRecord → Action W Position
  book_exit key position trigger posted =
      if not (is_filled posted.status) || is_unfilled posted
      then (do on_db (Store.alert (Alert.exit_unknown position.ticker)); raise exit_failed)
      else (do
        order ← on_db (write (settle_from key OrderStatus.filled posted))
        on_db (finish_close_now position order trigger))

  unfoldable pub submit_exit : Position → ExitTrigger → Action W Position
  submit_exit position trigger = do
    key ← new_key env
    on_db (
        write (
          Orders.record_submitting key position.ticker Side.sell position.lots Intent.exit
            (some trigger)))
    posted ← post_exit key position
    book_exit key position trigger posted

  -- The position without a standing stop.
  abbrev pub release_stop : Position → Action W Position
  release_stop current =
      if is_exchange current.stop_protection then cancel_stop_to_local env current else pure current

  unfoldable pub close_position : Position → ExitTrigger → Action W Position
  close_position position trigger = do
    found ← on_db (Positions.Queries.get position.id)
    current ← or_raise found position_state_error
    raise_if (is_stop_loss trigger && is_exchange current.stop_protection) value_error
    released ← release_stop current
    submit_exit released trigger

  -- The row of the exchange's sale, under a key of the bot's own, settled by its figures.
  unfoldable pub record_execution : Position → OrderRecord → Decimal → Action W OrderRecord
  record_execution current fill price = do
    key ← new_key env
    on_db (
        write (
          Orders.record_submitting key current.ticker Side.sell current.lots Intent.exit
            (some ExitTrigger.stop_loss)))
    on_db (
        write (
          Orders.settle key OrderStatus.filled (lots_or current.lots fill.filled_lots) (some price)
            fill.commission (some "stop executed") (some fill.key)))

  abbrev pub unprotect : Position → Action W Position
  unprotect current =
      if is_exchange current.stop_protection
      then on_db (write (Positions.set_stop_protection current.id StopProtection.local none))
      else pure current

  unfoldable pub close_executed_stop : Position → OrderRecord → Action W Position
  close_executed_stop position fill = do
    price ← or_raise fill.filled_price value_error
    found ← on_db (Positions.Queries.get position.id)
    current ← or_raise found position_state_error
    on_db (settle_executed (nonempty current.stop_order_key))
    released ← unprotect current
    order ← record_execution released fill price
    on_db (Store.alert (Alert.stop_executed released.ticker))
    on_db (finish_close_now released order ExitTrigger.stop_loss)
