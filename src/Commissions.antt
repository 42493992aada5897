-- ===== src/Commissions.antt =====
-- zarabot/ops/commissions.py: commissions that arrive after the fill.
pub mod Kept
pub mod Measured
mod Examples
use bazarabot.Base.{
  ℕ, ◌+◌, Bool, true, false, not, ◌&&◌, ◌||◌, String, ◌==◌, List, [], ◌∷◌, Option, none, some, any,
  get_or, ◌++◌, is_none, keep, leb, length, ltb, if◌then◌else◌,
}
use bazarabot.Base.Int.{pos}
use bazarabot.Base.Decimal.{Decimal, of_int, sum}
use bazarabot.Base.Exec.{ok, pure, raise_if, catch, ◌>>=◌, ◌>>◌}
use bazarabot.Models.{Datetime, OperationRecord, OrderRecord, Position, minutes}
use bazarabot.Errors.{value_error, is_unreachable}
use bazarabot.Db.Store.{Alert, Call, clock_now}
use bazarabot.Db.Store
use bazarabot.Db.Orders
use bazarabot.Db.Orders.Queries.{list_missing_commission}
use bazarabot.Db.Positions
use bazarabot.Db.Positions.Queries.{list_closed}
use bazarabot.Execution.Desk.{Env, Action, on_db, on_broker}
use bazarabot.Execution.Stops.{nonempty}
use bazarabot.Execution.Entries.{is_unanswered}

abbrev pub is_in : List String → String → Bool
is_in keys k = any (λ j. j == k) keys

-- `executions & set(item.trade_ids)`
abbrev pub is_trade : List String → OperationRecord → Bool
is_trade executions item = any (is_in executions) item.trade_ids

abbrev pub ids : List OperationRecord → List String
ids [] = []
ids (item ∷ items) = item.id ∷ ids items

-- `item.parent_operation_id in parents`
abbrev pub is_child : List String → Option String → Bool
is_child parents none = false
is_child parents (some id) = is_in parents id

abbrev pub commissions : List OperationRecord → List Decimal
commissions [] = []
commissions (item ∷ items) = item.commission ∷ commissions items

-- The fees of the operations that are children of the order's trades.
abbrev pub fees_of : List String → List OperationRecord → List Decimal
fees_of executions operations =
    let parents = ids (keep (is_trade executions) operations) in
    commissions (keep (λ item. is_child parents item.parent_operation_id) operations)

-- `max(item.occurred_at for item in trades)`, from the first of them.
abbrev pub latest : ℕ → List OperationRecord → ℕ
latest acc [] = acc
latest acc (item ∷ items) =
    latest (if ltb acc item.occurred_at.instant then item.occurred_at.instant else acc) items

-- `latest <= cutoff`, where the cutoff is five minutes before `moment`.
abbrev pub has_settled : Datetime → ℕ → Bool
has_settled moment t = leb (t + minutes 5) moment.instant

-- A sum of fees, a measured zero, or unknown.
abbrev pub measured : List Decimal → Bool → Option Decimal
measured [] true = some (of_int (pos 0))
measured [] false = none
measured (fee ∷ fees) settled = some (sum (fee ∷ fees))

abbrev pub from_trades : List Decimal → Datetime → List OperationRecord → Option Decimal
from_trades fees moment [] = none
from_trades fees moment (trade ∷ trades) =
    measured fees (has_settled moment (latest trade.occurred_at.instant trades))

-- What the operations feed says of an order with these executions.
abbrev pub from_feed : List String → List OperationRecord → Datetime → Option Decimal
from_feed executions operations moment =
    from_trades (fees_of executions operations) moment (keep (is_trade executions) operations)

-- The order state's own number wins.
abbrev pub from_state : List OperationRecord → Datetime → Option OrderRecord → Option Decimal
from_state operations moment none = none
from_state operations moment (some state) =
    if is_none state.commission
    then from_feed state.trade_ids operations moment
    else state.commission

-- `moment - fill_at > _STALE and order.commission_alerted_at is None`
abbrev pub is_overdue : Datetime → OrderRecord → Bool
is_overdue moment order =
    ltb ((get_or order.settled_at order.created_at).instant + minutes 1_440) moment.instant
    && is_none order.commission_alerted_at

abbrev pub names_position : List String → Position → Bool
names_position keys p = is_in keys p.open_order_key || is_child keys p.close_order_key

-- `now()`
abbrev pub read_clock : Call Datetime
read_clock s = (ok (clock_now s), s)

module _ {W : Type 0} (env : Env W) where
  -- By the broker's own identifier where the row has one.
  abbrev pub state_of : Option String → String → Action W OrderRecord
  state_of none key = on_broker (env.broker.get_order_state key)
  state_of (some broker_id) key = on_broker (env.broker.get_order_state_by_broker_id broker_id)

  -- `_resolve`
  unfoldable pub resolve : OrderRecord → List OperationRecord → Datetime → Action W (Option Decimal)
  resolve order operations moment = do
    state ←
        catch is_unanswered
          (do o ← state_of (nonempty order.broker_order_id) order.key; pure (some o))
          (λ e. pure none)
    pure (from_state operations moment state)

  -- `_feed`
  unfoldable pub feed : Datetime → Datetime → Action W (List OperationRecord)
  feed since until =
      catch is_unreachable (on_broker (env.broker.get_operations since until)) (λ e. pure [])

  -- Recorded, or told once when it is more than a day late.
  abbrev pub book_commission : OrderRecord → Datetime → Option Decimal → Action W (List String)
  book_commission order moment (some commission) = do
    on_db (Orders.record_commission order.key commission)
    pure (order.key ∷ [])
  book_commission order moment none =
      if is_overdue moment order
      then (do
        on_db (Store.alert (Alert.commission_unknown order.key))
        on_db (Orders.mark_commission_alerted order.key moment)
        pure [])
      else pure []

  -- The keys of the orders whose commission was recorded.
  unfoldable pub backfill_orders :
      List OperationRecord → Datetime → List OrderRecord → Action W (List String)
  backfill_orders operations moment [] = pure []
  backfill_orders operations moment (order ∷ orders) = do
    commission ← resolve order operations moment
    updated ← book_commission order moment commission
    rest ← backfill_orders operations moment orders
    pure (updated ++ rest)

  unfoldable pub recompute_all : List Position → Action W (Unit {0})
  recompute_all [] = pure tt
  recompute_all (p ∷ ps) = do on_db (Positions.recompute_realised p.id); recompute_all ps

  -- The closed positions of the orders that were updated.
  abbrev pub recompute_affected : List String → Action W (Unit {0})
  recompute_affected [] = pure tt
  recompute_affected (key ∷ keys) = do
    closed ← on_db list_closed
    recompute_all (keep (names_position (key ∷ keys)) closed)

  abbrev pub backfill_missing : Datetime → Datetime → List OrderRecord → Action W ℕ
  backfill_missing since until [] = pure 0
  backfill_missing since until (order ∷ orders) = do
    operations ← feed since until
    moment ← on_db read_clock
    updated ← backfill_orders operations moment (order ∷ orders)
    recompute_affected updated
    pure (length updated)

  unfoldable pub backfill : Datetime → Datetime → Action W ℕ
  backfill since until = do
    raise_if (not since.aware) value_error
    raise_if (not until.aware) value_error
    missing ← on_db (list_missing_commission since until)
    backfill_missing since until missing
