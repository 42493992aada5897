-- ===== src/Db/Orders.antt =====
-- zarabot/db/orders.py: the sole owner of order rows and of their status.
pub mod Queries
pub mod Writes
pub mod Finality
pub mod Outcome
use bazarabot.Base.{
  Bool, true, false, not, String, ◌==◌, List, [], ◌∷◌, ◌++◌, Option, none, some, first, is_some,
  update_where, if◌then◌else◌,
}
use bazarabot.Base.Int.{ℤ}
use bazarabot.Base.Decimal.{Decimal}
use bazarabot.Base.Exec.{Result, ok, err, gets, or_raise, raise, raise_if, modify, ◌>>=◌, ◌>>◌}
use bazarabot.Models.{
  Datetime, ExitTrigger, Intent, OrderRecord, OrderStatus, Side, is_external, order_ok,
}
use bazarabot.Errors.{Error, value_error, duplicate_order_error, order_state_error}
use bazarabot.Db.Store.{clock_now, Store, Call, transaction}

-- `_TERMINAL`
abbrev pub is_terminal : OrderStatus → Bool
is_terminal OrderStatus.filled = true
is_terminal OrderStatus.rejected = true
is_terminal OrderStatus.cancelled = true
is_terminal _ = false

abbrev pub has_key : String → OrderRecord → Bool
has_key key o = o.key == key

-- `_row_to_order`: the constructor checks the row.
abbrev pub row_to_order : Option OrderRecord → Result Error (Option OrderRecord)
row_to_order none = ok none
row_to_order (some o) = if order_ok o then ok (some o) else err value_error

-- `_load`
unfoldable pub load : String → Call (Option OrderRecord)
load key s = (row_to_order (first (has_key key) s.db.orders), s)

-- A load that raises `OrderStateError` when the row is absent.
unfoldable pub load_present : String → Call OrderRecord
unfolding load
load_present key = do found ← load key; or_raise found order_state_error

-- An EXIT needs a trigger that the bot itself can pull, an ENTRY has none.
abbrev pub check_trigger : Intent → Option ExitTrigger → Call (Unit {0})
check_trigger Intent.exit none = raise value_error
check_trigger Intent.exit (some trigger) = raise_if (is_external trigger) value_error
check_trigger Intent.entry trigger = raise_if (is_some trigger) value_error

abbrev pub submitting_row :
    String → String → Side → ℤ → Intent → Option ExitTrigger → Datetime → OrderRecord
submitting_row key ticker side lots intent trigger at = record {
  key = key;
  ticker = ticker;
  figi = "";
  side = side;
  intent = intent;
  lots = lots;
  status = OrderStatus.submitting;
  filled_lots = none;
  filled_price = none;
  commission = none;
  broker_reason = none;
  created_at = at;
  settled_at = none;
  exit_trigger = trigger;
  broker_order_id = none;
  commission_alerted_at = none;
  trade_ids = [];
}

abbrev pub set_orders : (List OrderRecord → List OrderRecord) → Store → Store
set_orders f s = record s { db = record s.db { orders = f s.db.orders } }

-- `INSERT INTO orders`: the key is the primary key.
abbrev pub insert : OrderRecord → Call (Unit {0})
insert o s =
    if is_some (first (has_key o.key) s.db.orders)
    then (err duplicate_order_error, s)
    else (ok tt, set_orders (λ rows. rows ++ o ∷ []) s)

unfoldable pub record_submitting :
    String → String → Side → ℤ → Intent → Option ExitTrigger → Call OrderRecord
unfolding load_present
record_submitting key ticker side lots intent trigger = do
  check_trigger intent trigger
  transaction do
    at ← gets (λ s. (clock_now s))
    insert (submitting_row key ticker side lots intent trigger at)
    load_present key

-- `COALESCE(a, b)`
abbrev pub coalesce : {A : Type 0} → Option A → Option A → Option A
coalesce none b = b
coalesce (some a) b = some a

-- What `settle` writes onto a row.
abbrev pub settled :
    OrderStatus
    → ℤ
    → Option Decimal
    → Option Decimal
    → Option String
    → Option String
    → Datetime
    → OrderRecord
    → OrderRecord
settled status lots price commission reason broker_id at o = record o {
  status = status;
  filled_lots = some lots;
  filled_price = price;
  commission = commission;
  broker_reason = reason;
  settled_at = some at;
  broker_order_id = coalesce broker_id o.broker_order_id;
}

unfoldable pub settle :
    String
    → OrderStatus
    → ℤ
    → Option Decimal
    → Option Decimal
    → Option String
    → Option String
    → Call OrderRecord
unfolding load_present
settle key status filled_lots filled_price commission broker_reason broker_order_id = do
  raise_if (not (is_terminal status)) order_state_error
  transaction do
    current ← load_present key
    raise_if (is_terminal current.status) order_state_error
    at ← gets (λ s. (clock_now s))
    modify (
        set_orders (
          update_where (has_key key)
            (settled status filled_lots filled_price commission broker_reason broker_order_id at)))
    load_present key

-- `get`
unfoldable pub get : String → Call (Option OrderRecord)
unfolding load
get key = load key

unfoldable pub record_commission : String → Decimal → Call OrderRecord
unfolding load_present
record_commission key commission = transaction do
  current ← load_present key
  raise_if (not (is_terminal current.status)) order_state_error
  modify (set_orders (update_where (has_key key) (λ o. record o { commission = some commission })))
  load_present key

unfoldable pub mark_commission_alerted : String → Datetime → Call OrderRecord
unfolding load_present
mark_commission_alerted key at = do
  raise_if (not at.aware) value_error
  transaction do
    load_present key
    modify (
        set_orders (
          update_where (has_key key)
            (λ o. record o { commission_alerted_at = coalesce o.commission_alerted_at (some at) })))
    load_present key
