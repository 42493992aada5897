-- ===== src/Db/Positions/Outcome.antt =====
-- `close` of zarabot/db/positions.py, branch by branch.
use bazarabot.Base.{
  ◌⊎◌, inl, inr, ap, ◌∙◌, Bool-cases, eqb, get_or, first-update_where_other, ℕ, true, false, String,
  ◌==◌, ◌≡◌, refl, none, some, first, update_where, arith, is_some,
}
use bazarabot.Base.Int.{pos, ◌*ℤ◌}
use bazarabot.Base.Decimal.{Decimal, mul, of_int, sub}
use bazarabot.Base.Exec.{ok, err}
use bazarabot.Models.{
  PositionStatus, StopProtection, Datetime, ExitTrigger, OrderRecord, is_external, order_ok,
  position_ok,
}
use bazarabot.Errors.{position_state_error}
use bazarabot.Db.Orders
use bazarabot.Db.Store.{Store, PositionRow, PositionChange, next_fails, rest_of, transaction}
use bazarabot.Db.Positions.Rows.{
  has_id, is_open, load_present, realised, order_commission, set_positions, insert_event,
  commission_of,
}
use bazarabot.Db.Positions.{close, closed_row}
use bazarabot.Db.Positions.Writes.{updated_found}

pub load_present_found :
    (id : ℕ) (s : Store) {row : PositionRow}
    → first (has_id id) s.db.positions ≡ some row
    → position_ok row.position ≡ true
    → load_present id s ≡ (ok row.position, s)
unfolding load_present
load_present_found id s found valid = rw (found, valid)

pub order_commission_found :
    (key : String) (s : Store) {o : OrderRecord}
    → (key == "") ≡ false
    → first (Orders.has_key key) s.db.orders ≡ some o
    → order_ok o ≡ true
    → order_commission (some key) s ≡ (ok (commission_of (some o)), s)
unfolding order_commission Orders.get
order_commission_found key s named found valid = rw (named, found, valid)

-- What a close makes of a row, field by field: the net result is the price difference times the
-- units, less the commissions of the entry and of the exit, where one that is not known is zero.
module _ (trigger : ExitTrigger) (price : Decimal) (at : Datetime)
    (exit_order entry_order : OrderRecord) (row : PositionRow) where
  abbrev pub net_result : Decimal
  net_result =
      sub
        (sub
          (mul (sub price row.position.entry_price)
            (of_int (row.position.lots *ℤ row.position.lot_size)))
          (get_or entry_order.commission (of_int (pos 0))))
        (get_or exit_order.commission (of_int (pos 0)))

  abbrev pub closed_now : PositionRow
  closed_now = record {
    position = record row.position {
      status = PositionStatus.closed;
      exit_trigger = some trigger;
      exit_price = some price;
      exit_at = some at;
      realised_pnl = some net_result;
      close_order_key = some exit_order.key;
      stop_protection = StopProtection.local;
      stop_order_key = none;
    };
    exit_commission = none;
  }

module _ (id : ℕ) (trigger : ExitTrigger) (price : Decimal) (at : Datetime)
    (exit_order entry_order : OrderRecord) (s : Store) (row : PositionRow) (aware : at.aware ≡ true)
    (works : next_fails s.disk ≡ false) (own : is_external trigger ≡ false)
    (found : first (has_id id) s.db.positions ≡ some row)
    (valid : position_ok row.position ≡ true) where
  abbrev begun : Store
  begun = record s { disk = rest_of s.disk }

  abbrev now : PositionRow
  now = closed_now trigger price at exit_order entry_order row

  abbrev put_row : PositionRow → PositionRow
  put_row =
      closed_row trigger price at
        (realised row.position.entry_price price row.position.lots row.position.lot_size
          (commission_of (some entry_order)) (commission_of (some exit_order)))
        (some exit_order.key) none

  -- The store after the UPDATE and its event.
  abbrev written : Store
  written =
      (insert_event id
        (PositionChange.closed trigger price
          (realised row.position.entry_price price row.position.lots row.position.lot_size
            (commission_of (some entry_order)) (commission_of (some exit_order)))
          (some exit_order.key) none row.position.stop_protection)
        (set_positions (update_where (has_id id) put_row) begun)).1

  written_found : first (has_id id) written.db.positions ≡ some now
  unfolding realised
  written_found = updated_found id put_row row s.db.positions found (λ x. (refl, refl))

  pub books :
      is_open row ≡ true
      → (row.position.open_order_key == "") ≡ false
      → first (Orders.has_key row.position.open_order_key) s.db.orders ≡ some entry_order
      → order_ok entry_order ≡ true
      → is_some (first (Orders.has_key exit_order.key) s.db.orders) ≡ true
      → position_ok now.position ≡ true
      → close id trigger price at (some exit_order) none s ≡ (ok now.position, written)
  unfolding close transaction
  books running named entry fine known good = ground (
    arith,
    load_present_found id begun found valid,
    order_commission_found row.position.open_order_key begun named entry fine,
    load_present_found id written written_found good,
  )

  others_stay :
      (other : ℕ)
      → eqb other id ≡ false
      → first (has_id other) written.db.positions ≡ first (has_id other) s.db.positions
  others_stay other apart =
      first-update_where_other (has_id id) (has_id other) put_row s.db.positions (λ x. refl)
        λ x h. ground (arith, apart, h)

  -- A position that is already closed is refused, and nothing is written.
  refuses :
      is_open row ≡ false
      → close id trigger price at (some exit_order) none s ≡ (err position_state_error, begun)
  unfolding close transaction
  refuses ended = ground (arith, load_present_found id begun found valid)

  -- An exit with its order, where the database works and both orders are known: an open position is
  -- closed at the price, with the net result of both commissions, the row that is returned is the
  -- one that is stored, and no other row changes; a closed position is refused, and no table changes.
  pub close_books :
      (other : ℕ)
      → eqb other id ≡ false
      → (row.position.open_order_key == "") ≡ false
      → first (Orders.has_key row.position.open_order_key) s.db.orders ≡ some entry_order
      → order_ok entry_order ≡ true
      → is_some (first (Orders.has_key exit_order.key) s.db.orders) ≡ true
      → position_ok now.position ≡ true
      → let after = close id trigger price at (some exit_order) none s in
        ((is_open row ≡ true)
          × (after.0 ≡ ok now.position)
          × (first (has_id id) after.1.db.positions ≡ some now)
          × (first (has_id other) after.1.db.positions ≡ first (has_id other) s.db.positions))
        ⊎ ((is_open row ≡ false) × (after.0 ≡ err position_state_error) × (after.1.db ≡ s.db))
  close_books other apart named entry fine known good = elim (Bool-cases (is_open row)) [
    | inl running ↦
        let done = books running named entry fine known good in
        inl (
          running,
          ap (λ r. r.0) done,
          ap (λ r. first (has_id id) r.1.db.positions) done ∙ written_found,
          ap (λ r. first (has_id other) r.1.db.positions) done ∙ others_stay other apart,
        )
    | inr ended ↦ inr (ended, ap (λ r. r.0) (refuses ended), ap (λ r. r.1.db) (refuses ended))
  ]
