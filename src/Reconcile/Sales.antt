-- ===== src/Reconcile/Sales.antt =====
-- Positions that the broker no longer holds: `_resolve_sale` and `_close_externally`.
use bazarabot.Base.{
  ℕ, ◌+◌, Bool, ◌&&◌, String, ◌==◌, List, [], ◌∷◌, Option, none, some, any, keep, is_some, ltb, leb,
  if◌then◌else◌,
}
use bazarabot.Base.Int.{ℤ, pos, pos_part, neg_part}
use bazarabot.Base.Decimal.{Decimal, mul, of_int, sum}
use bazarabot.Base.Decimal.Quotient.{quotient}
use bazarabot.Base.Exec.{pure, catch, ◌>>=◌, ◌>>◌}
use bazarabot.Models.{
  Adjustment, Datetime, ExitTrigger, OperationRecord, Position, StopOrderRecord, StopOrderStatus,
  is_exchange,
}
use bazarabot.Errors.{is_unreachable}
use bazarabot.Db.Store.{Alert, Call}
use bazarabot.Db.Store
use bazarabot.Db.Cooldowns
use bazarabot.Db.Positions
use bazarabot.Db.StopOrders
use bazarabot.Commissions.{ids, is_child, commissions}
use bazarabot.Execution.Desk.{Env, Action, on_db, on_broker}

-- `_SALE_TYPES`
abbrev pub sale_types : List String
sale_types =
    "OPERATION_TYPE_SELL" ∷ "OPERATION_TYPE_DELIVERY_SELL" ∷ "OPERATION_TYPE_SELL_MARGIN" ∷ []

-- `abs(item.quantity or 0)`
abbrev pub magnitude : Option ℤ → ℕ
magnitude none = 0
magnitude (some n) = pos_part n + neg_part n

abbrev pub is_sale_of : Position → OperationRecord → Bool
is_sale_of position item =
    item.figi == position.figi
    && any (λ t. t == item.operation_type) sale_types
    && is_some item.price
    && ltb 0 (magnitude item.quantity)

abbrev pub sales_of : Position → List OperationRecord → List OperationRecord
sales_of position operations = keep (is_sale_of position) operations

abbrev pub total_units : List OperationRecord → ℕ
total_units [] = 0
total_units (item ∷ items) = magnitude item.quantity + total_units items

-- `(item.price or Decimal("0")) * abs(item.quantity or 0)`
abbrev pub price_or_zero : Option Decimal → Decimal
price_or_zero none = of_int (pos 0)
price_or_zero (some price) = price

abbrev pub amounts : List OperationRecord → List Decimal
amounts [] = []
amounts (item ∷ items) =
    mul (price_or_zero item.price) (of_int (pos (magnitude item.quantity))) ∷ amounts items

-- `max(item.occurred_at for item in sales)`: the first of two equal times.
abbrev pub latest_time : Datetime → List OperationRecord → Datetime
latest_time acc [] = acc
latest_time acc (item ∷ items) =
    latest_time (if ltb acc.instant item.occurred_at.instant then item.occurred_at else acc) items

-- `_ResolvedSale`
pub record ResolvedSale : Type 0 where
  pub price : Decimal
  pub occurred_at : Datetime
  pub commission : Decimal

-- The fees of all operations that are children of a sale.
abbrev pub sale_commission : List OperationRecord → List OperationRecord → Decimal
sale_commission sales operations =
    sum (commissions (keep (λ item. is_child (ids sales) item.parent_operation_id) operations))

abbrev pub resolved : List OperationRecord → List OperationRecord → Option ResolvedSale
resolved [] operations = none
resolved (first_sale ∷ others) operations =
    let sales = first_sale ∷ others in
    if leb (total_units sales) 0
    then none
    else some (record {
      price = quotient (sum (amounts sales)) (of_int (pos (total_units sales)));
      occurred_at = latest_time first_sale.occurred_at others;
      commission = sale_commission sales operations;
    })

-- `_resolve_sale`
unfoldable pub resolve_sale : Position → List OperationRecord → Option ResolvedSale
resolve_sale position operations = resolved (sales_of position operations) operations

module _ {W : Type 0} (env : Env W) where
  -- `_report_unresolved_exit`
  abbrev pub report_unresolved_exit : Position → String → Action W Adjustment
  report_unresolved_exit position reason = do
    on_db (Store.alert (Alert.exit_unresolved position.ticker position.id reason))
    pure (Adjustment.exit_unresolved position.ticker position.id reason)

  -- The operations, where the feed can be read.
  abbrev pub operations_since : Datetime → Datetime → Action W (Option (List OperationRecord))
  operations_since since until =
      catch is_unreachable
        (do found ← on_broker (env.broker.get_operations since until); pure (some found))
        (λ e. pure none)

-- The stop that the exchange held has fired.
abbrev pub settle_standing : Datetime → Option StopOrderRecord → Call (Unit {0})
settle_standing at none = pure tt
settle_standing at (some standing) = do
  StopOrders.settle standing.key StopOrderStatus.executed at
  pure tt

abbrev pub settle_fired_stop : Position → Datetime → Call (Unit {0})
settle_fired_stop position at =
    if is_exchange position.stop_protection
    then (do standing ← StopOrders.active_for_position position.id; settle_standing at standing)
    else pure tt

-- The close at the figures of the sale.
unfoldable pub book_sale : Position → ResolvedSale → Call Adjustment
book_sale position sale = do
  Positions.close position.id ExitTrigger.external sale.price sale.occurred_at none
      (some sale.commission)
  Cooldowns.start position.ticker sale.occurred_at
  Store.alert (Alert.closed_externally position.ticker position.id sale.price sale.occurred_at)
  settle_fired_stop position sale.occurred_at
  pure (
      Adjustment.closed_externally position.ticker position.id sale.price sale.occurred_at
        sale.commission)

module _ {W : Type 0} (env : Env W) where
  abbrev pub book_or_report : Position → Option ResolvedSale → Action W Adjustment
  book_or_report position none =
      report_unresolved_exit env position "no executed sale for this instrument in the window"
  book_or_report position (some sale) = on_db (book_sale position sale)

  abbrev pub close_by_feed : Position → Option (List OperationRecord) → Action W Adjustment
  close_by_feed position none = report_unresolved_exit env position "operations feed"
  close_by_feed position (some operations) =
      book_or_report position (resolve_sale position operations)

  -- `_close_externally`
  unfoldable pub close_externally : Position → Datetime → Action W Adjustment
  close_externally position moment = do
    operations ← operations_since env position.entry_at moment
    close_by_feed position operations
