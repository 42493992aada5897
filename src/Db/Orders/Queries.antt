-- ===== src/Db/Orders/Queries.antt =====
-- The lists of orders in zarabot/db/orders.py. Timestamps are compared as instants, where SQLite
-- compares their UTC texts.
use bazarabot.Base.{
  ℕ, Bool, true, false, not, ◌&&◌, List, [], ◌∷◌, Option, none, some, keep, sort_by, is_none, leb,
  eqb, length, if◌then◌else◌,
}
use bazarabot.Base.Exec.{Result, ok, err, raise_if, gets, ◌>>◌}
use bazarabot.Models.{Datetime, Date, OrderRecord, OrderStatus, is_filled, order_ok}
use bazarabot.Errors.{Error, value_error}
use bazarabot.Db.Store.{Call}

-- `[_row_to_order(row) for row in rows]`: one row that the dataclass refuses raises.
abbrev pub rows_to_orders : List OrderRecord → Result Error (List OrderRecord)
rows_to_orders [] = ok []
rows_to_orders (o ∷ rows) =
    let rest = rows_to_orders rows in
    if order_ok o then (elim rest [ ok os ↦ ok (o ∷ os) | err e ↦ err e ]) else err value_error

-- NULL comes first in SQLite's ascending order, and no comparison with it is true.
abbrev pub not_after : Option Datetime → Option Datetime → Bool
not_after none b = true
not_after (some a) none = false
not_after (some a) (some b) = leb a.instant b.instant

abbrev pub is_between : Datetime → Datetime → Option Datetime → Bool
is_between since until none = false
is_between since until (some t) = leb since.instant t.instant && leb t.instant until.instant

abbrev pub lacks_commission : Datetime → Datetime → OrderRecord → Bool
lacks_commission since until o =
    is_filled o.status && is_none o.commission && is_between since until o.settled_at

unfoldable pub list_missing_commission : Datetime → Datetime → Call (List OrderRecord)
list_missing_commission since until = do
  raise_if (not since.aware) value_error
  raise_if (not until.aware) value_error
  λ s. (
    rows_to_orders (
        sort_by (λ a b. not_after a.settled_at b.settled_at)
          (keep (lacks_commission since until) s.db.orders)),
    s,
  )

-- `count_for_day`, with `clock.moscow_date` as a parameter.
unfoldable pub count_for_day : (Datetime → Date) → Date → Call ℕ
count_for_day moscow_date day =
    gets (λ s. length (keep (λ o. eqb (moscow_date o.created_at) day) s.db.orders))

abbrev pub is_unresolved : OrderStatus → Bool
is_unresolved OrderStatus.submitting = true
is_unresolved OrderStatus.submitted = true
is_unresolved _ = false

unfoldable pub list_unresolved : Call (List OrderRecord)
list_unresolved s = (
  rows_to_orders (
      sort_by (λ a b. leb a.created_at.instant b.created_at.instant)
        (keep (λ o. is_unresolved o.status) s.db.orders)),
  s,
)
