-- ===== src/Db/Positions/Booking.antt =====
-- `close` and `recompute_realised` of zarabot/db/positions.py as writes.
use bazarabot.Base.{
  not, String, ◌==◌, ◌≡◌, refl, inl, inr, Option, none, some, first, arith, Bool-cases, is_some,
  is_none, ◌||◌, ℕ,
}
use bazarabot.Base.Decimal.{Decimal}
use bazarabot.Base.Exec.{continue, pure, or_raise, raise_if, ◌>>◌}
use bazarabot.Base.Exec.Rules.{OnOk-bind, OnOk-raise_if, OnOk-read}
use bazarabot.Models.{Datetime, ExitTrigger, OrderRecord, Position, is_external}
use bazarabot.Errors.{Error, integrity_error, position_state_error, value_error}
use bazarabot.Db.Orders
use bazarabot.Db.Store.{Store, Call}
use bazarabot.Db.Store.Atomicity.{transaction_keeps, raise_if_keeps}
use bazarabot.Db.Positions.Rows.{
  is_open, load_present, order_commission, optional_order_exists, commission_of,
}
use bazarabot.Db.Positions.{
  close, check_close, closed_row, order_key, recompute_realised, rebooked,
  current_closing_commission, externally,
}
use bazarabot.Db.Positions.Writes.{Write, OnOk-load_present, updated_row}

order_row_read :
    (x : Option OrderRecord) (s : Store)
    → (continue (Orders.row_to_order x) (λ order. pure (commission_of order)) s).1 ≡ s
order_row_read none s = refl
order_row_read (some o) s = ground arith

pub order_commission_read : (key : Option String) (s : Store) → (order_commission key s).1 ≡ s
unfolding order_commission Orders.get
order_commission_read none s = refl
order_commission_read (some key) s = elim (Bool-cases (key == "")) [
  | inl blank ↦ rw blank
  | inr named ↦ rw named (order_row_read (first (Orders.has_key key) s.db.orders) s)
]

closing_read : (id : ℕ) (p : Position) (s : Store) → (current_closing_commission id p s).1 ≡ s
closing_read id p s = elim (Bool-cases (externally p.exit_trigger)) [
  | inl from_row ↦ rw from_row
  | inr from_order ↦ rw from_order (order_commission_read p.close_order_key s)
]

or_raise_read : {A : Type 0} (x : Option A) (e : Error) (s : Store) → (or_raise x e s).1 ≡ s
or_raise_read none e s = refl
or_raise_read (some a) e s = refl

pub recompute_realised-Write : (id : ℕ) (s : Store) → Write s.db (recompute_realised id s).1.db
unfolding recompute_realised
recompute_realised-Write id s = transaction_keeps (Write s.db) _ s Write.nothing (
    OnOk-bind (load_present id) _ _ (
      OnOk-load_present id _ λ row found valid.
        OnOk-bind (raise_if (is_open row) position_state_error) _ _ (
          OnOk-raise_if (is_open row) position_state_error _ λ ended.
            OnOk-bind (or_raise row.position.exit_price position_state_error) _ _ (
              OnOk-read (or_raise row.position.exit_price position_state_error) _
                (or_raise_read row.position.exit_price position_state_error _)
                λ price known. OnOk-bind (current_closing_commission id row.position) _ _ (
                  OnOk-read (current_closing_commission id row.position) _
                    (closing_read id row.position _)
                    λ closing c.
                      OnOk-bind (order_commission (some row.position.open_order_key)) _ _ (
                        OnOk-read (order_commission (some row.position.open_order_key)) _
                          (order_commission_read (some row.position.open_order_key) _)
                          λ entry e.
                            updated_row id (rebooked _) row _ _ found (λ x. (refl, refl)) (λ x h. h)
                              (λ closed. (refl, refl, refl, refl))))))))

module _ (id : ℕ) (trigger : ExitTrigger) (price : Decimal) (at : Datetime)
    (order : Option OrderRecord) (fee : Option Decimal) (s : Store) where
  check_close_keeps :
      {A : Type 0} (m : Call A)
      → Write s.db (m s).1.db
      → Write s.db ((check_close trigger order fee >> m) s).1.db
  check_close_keeps m h = elim (Bool-cases (is_external trigger)) [
    | inl ext ↦
        rw ext (raise_if_keeps (Write s.db) (is_some order) value_error m s Write.nothing (λ _. h))
    | inr own ↦ rw own (
        raise_if_keeps (Write s.db) (is_none order || is_some fee) value_error m s Write.nothing
          (λ _. h))
  ]

  pub close-Write : Write s.db (close id trigger price at order fee s).1.db
  unfolding close
  close-Write = raise_if_keeps (Write s.db) (not at.aware) value_error _ s Write.nothing λ aware.
      check_close_keeps _ (
        transaction_keeps (Write s.db) _ s Write.nothing (
          OnOk-bind (load_present id) _ _ (
            OnOk-load_present id _ λ row found valid.
              OnOk-bind (raise_if (not (is_open row)) position_state_error) _ _ (
                OnOk-raise_if (not (is_open row)) position_state_error _ λ still_open.
                  OnOk-bind (order_commission (some row.position.open_order_key)) _ _ (
                    OnOk-read (order_commission (some row.position.open_order_key)) _
                      (order_commission_read (some row.position.open_order_key) _)
                      λ entry e.
                        OnOk-bind
                          (raise_if (not (optional_order_exists (order_key order) _))
                            integrity_error)
                          _ _
                          (OnOk-raise_if _ integrity_error _ λ known.
                            updated_row id (closed_row trigger price at _ (order_key order) fee) row
                              _ _ found (λ x. (refl, refl)) (λ x h. absurd (cc h))
                              (λ closed. cc)))))))
