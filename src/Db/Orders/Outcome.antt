-- ===== src/Db/Orders/Outcome.antt =====
-- `settle` of zarabot/db/orders.py, branch by branch.
use bazarabot.Base.{
  ◌⊎◌, inl, inr, ap, ◌∙◌, Bool-cases, eq_iff, ◌==◌, none, first-update_where_other, true, false,
  String, ◌≡◌, refl, Option, some, first, update_where, arith,
}
use bazarabot.Base.Int.{ℤ}
use bazarabot.Base.Decimal.{Decimal}
use bazarabot.Base.Exec.{ok, err}
use bazarabot.Models.{Datetime, OrderRecord, OrderStatus, order_ok}
use bazarabot.Errors.{order_state_error}
use bazarabot.Db.Store.{clock_now, Store, next_fails, rest_of, transaction}
use bazarabot.Db.Orders.{is_terminal, has_key, settled, settle, set_orders, load_present}
use bazarabot.Db.Orders.Writes.{updated_found}

pub load_present_found :
    (key : String) (s : Store) {o : OrderRecord}
    → first (has_key key) s.db.orders ≡ some o
    → order_ok o ≡ true
    → load_present key s ≡ (ok o, s)
unfolding load_present
load_present_found key s found valid = rw (found, valid)

-- What a settlement makes of a row, field by field: a broker's id that is there already stays unless
-- another is given.
module _ (status : OrderStatus) (lots : ℤ) (price commission : Option Decimal)
    (reason broker_id : Option String) (at : Datetime) (o : OrderRecord) where
  abbrev pub settled_now : OrderRecord
  settled_now = record {
    key = o.key;
    ticker = o.ticker;
    figi = o.figi;
    side = o.side;
    intent = o.intent;
    lots = o.lots;
    status = status;
    filled_lots = some lots;
    filled_price = price;
    commission = commission;
    broker_reason = reason;
    created_at = o.created_at;
    settled_at = some at;
    exit_trigger = o.exit_trigger;
    broker_order_id = (elim broker_id [ none ↦ o.broker_order_id | some id ↦ some id ]);
    commission_alerted_at = o.commission_alerted_at;
    trade_ids = o.trade_ids;
  }

module _ (key : String) (status : OrderStatus) (lots : ℤ) (price commission : Option Decimal)
    (reason broker_id : Option String) (s : Store) (o : OrderRecord)
    (works : next_fails s.disk ≡ false) (final : is_terminal status ≡ true)
    (found : first (has_key key) s.db.orders ≡ some o) (valid : order_ok o ≡ true) where
  abbrev begun : Store
  begun = record s { disk = rest_of s.disk }

  abbrev now : OrderRecord
  now = settled_now status lots price commission reason broker_id (clock_now s) o

  abbrev put_row : OrderRecord → OrderRecord
  put_row = settled status lots price commission reason broker_id (clock_now s)

  abbrev written : Store
  written = set_orders (update_where (has_key key) put_row) begun

  same_row :
      (id : Option String)
      → settled status lots price commission reason id (clock_now s) o
        ≡ settled_now status lots price commission reason id (clock_now s) o
  same_row none = refl
  same_row (some id) = refl

  written_found : first (has_key key) written.db.orders ≡ some now
  written_found =
      updated_found key put_row o s.db.orders found (λ x. refl)
      ∙ ap (λ x. some x) (same_row broker_id)

  settles :
      is_terminal o.status ≡ false
      → order_ok now ≡ true
      → settle key status lots price commission reason broker_id s ≡ (ok now, written)
  unfolding settle transaction
  settles unsettled fine = ground (
    arith,
    load_present_found key begun found valid,
    load_present_found key written written_found fine,
  )

  others_stay :
      (other : String)
      → (other == key) ≡ false
      → first (has_key other) written.db.orders ≡ first (has_key other) s.db.orders
  others_stay other apart =
      first-update_where_other (has_key key) (has_key other) put_row s.db.orders (λ x. refl)
        λ x h. ground (arith, apart, h, eq_iff x.key key, eq_iff x.key other, eq_iff other key)

  refuses :
      is_terminal o.status ≡ true
      → settle key status lots price commission reason broker_id s ≡ (err order_state_error, begun)
  unfolding settle transaction
  refuses ended = ground (arith, load_present_found key begun found valid)

  -- Where the database works and the figures are valid, a valid row that is not terminal is settled:
  -- the row that is returned is the one that is stored, with the status, lots, price, commission,
  -- reason and time on it and the rest kept, and no other row changes; a row that is terminal is
  -- refused, and no table changes.
  pub settle_settles :
      (other : String)
      → (other == key) ≡ false
      → order_ok now ≡ true
      → let after = settle key status lots price commission reason broker_id s in
        ((is_terminal o.status ≡ false)
          × (after.0 ≡ ok now)
          × (first (has_key key) after.1.db.orders ≡ some now)
          × (first (has_key other) after.1.db.orders ≡ first (has_key other) s.db.orders))
        ⊎ ((is_terminal o.status ≡ true) × (after.0 ≡ err order_state_error) × (after.1.db ≡ s.db))
  settle_settles other apart fine = elim (Bool-cases (is_terminal o.status)) [
    | inl ended ↦ inr (ended, ap (λ r. r.0) (refuses ended), ap (λ r. r.1.db) (refuses ended))
    | inr unsettled ↦
        let done = settles unsettled fine in
        inl (
          unsettled,
          ap (λ r. r.0) done,
          ap (λ r. first (has_key key) r.1.db.orders) done ∙ written_found,
          ap (λ r. first (has_key other) r.1.db.orders) done ∙ others_stay other apart,
        )
  ]
