-- ===== src/Db/Positions/Closing.antt =====
-- `close` of zarabot/db/positions.py where it returns, and where it raises.
use bazarabot.Base.{
  ℕ, Bool, true, false, not, ◌||◌, ◌≡◌, refl, inl, inr, some, Option, Bool-cases, is_some, is_none,
}
use bazarabot.Base.Decimal.{Decimal}
use bazarabot.Base.Exec.{Result, ok, err, raise_if, ◌>>◌}
use bazarabot.Base.Exec.Rules.{OnOk, OnOk-bind, OnOk-raise_if, OnOk-read}
use bazarabot.Models.{Datetime, ExitTrigger, OrderRecord, Position, PositionStatus, is_external}
use bazarabot.Errors.{Error, integrity_error, position_state_error, value_error}
use bazarabot.Db.Store.{Call, Store, commit_or_rollback, next_fails, rest_of, transaction}
use bazarabot.Db.Store.Atomicity.{transaction_atomic}
use bazarabot.Db.Positions.Booking.{order_commission_read}
use bazarabot.Db.Positions.Rows.{is_open, load_present, optional_order_exists, order_commission}
use bazarabot.Db.Positions.{check_close, close, closed_row, order_key}
use bazarabot.Db.Positions.Soundness.{ClosedAs}
use bazarabot.Db.Positions.Writes.{OnOk-load_present, updated_found}

-- The position with the terms of an exit on it.
abbrev pub exited : ExitTrigger → Decimal → Datetime → Position → Position
exited trigger price at p = record p {
  status = PositionStatus.closed;
  exit_trigger = some trigger;
  exit_price = some price;
  exit_at = some at;
}

-- Where a method raises, the tables are as they were.
abbrev FailsClean : {A : Type 0} → Call A → Store → Type 0
FailsClean m s = (e : Error) → (m s).0 ≡ err e → (m s).1.db ≡ s.db

guard_clean :
    {A : Type 0} (b : Bool) (x : Error) (m : Call A) (s : Store)
    → FailsClean m s
    → FailsClean (raise_if b x >> m) s
guard_clean true x m s k e h = refl
guard_clean false x m s k e h = k e h

module _ {A : Type 0} {P : A → Store → Type 0} where
  committed :
      (s : Store) (r : Result Error A × Store) → OnOk P r → OnOk P (commit_or_rollback s.db r)
  committed s (ok a, t) h = h
  committed s (err e, t) h = record { at = λ a x. cc }

  OnOk-transaction :
      (body : Call A) (s : Store)
      → OnOk P (body (record s { disk = rest_of s.disk }))
      → OnOk P (transaction body s)
  unfolding transaction
  OnOk-transaction body s h = elim (Bool-cases (next_fails s.disk)) [
    | inl fails ↦ rw fails (record { at = λ a x. cc })
    | inr works ↦ rw works (committed s (body (record s { disk = rest_of s.disk })) h)
  ]

  OnOk-guard :
      (b : Bool) (x : Error) (m : Call A) (s : Store)
      → OnOk P (m s)
      → OnOk P ((raise_if b x >> m) s)
  OnOk-guard true x m s h = record { at = λ a y. cc }
  OnOk-guard false x m s h = h

module _ (id : ℕ) (trigger : ExitTrigger) (price : Decimal) (at : Datetime)
    (order : Option OrderRecord) (fee : Option Decimal) (s : Store) where
  check_clean :
      {A : Type 0} (m : Call A) → FailsClean m s → FailsClean (check_close trigger order fee >> m) s
  check_clean m k = elim (Bool-cases (is_external trigger)) [
    | inl ext ↦ rw ext (guard_clean (is_some order) value_error m s k)
    | inr own ↦ rw own (guard_clean (is_none order || is_some fee) value_error m s k)
  ]

  OnOk-check :
      {A : Type 0} {P : A → Store → Type 0} (m : Call A)
      → OnOk P (m s)
      → OnOk P ((check_close trigger order fee >> m) s)
  OnOk-check m k = elim (Bool-cases (is_external trigger)) [
    | inl ext ↦ rw ext (OnOk-guard (is_some order) value_error m s k)
    | inr own ↦ rw own (OnOk-guard (is_none order || is_some fee) value_error m s k)
  ]

  pub close_clean :
      (e : Error)
      → (close id trigger price at order fee s).0 ≡ err e
      → (close id trigger price at order fee s).1.db ≡ s.db
  unfolding close
  close_clean =
      guard_clean (not at.aware) value_error _ s (check_clean _ (λ e h. transaction_atomic _ s e h))

  -- Where the close returns, the row is closed on its terms.
  pub close-ClosedAs :
      (p : Position)
      → OnOk
          (λ _ t. ClosedAs id (exited trigger price at p) t.db)
          (close id trigger price at order fee s)
  unfolding close
  close-ClosedAs p = OnOk-guard (not at.aware) value_error _ s (
      OnOk-check _ (
        OnOk-transaction _ s (
          OnOk-bind (load_present id) _ _ (
            OnOk-load_present id _ λ row found valid.
              OnOk-bind (raise_if (not (is_open row)) position_state_error) _ _ (
                OnOk-raise_if (not (is_open row)) position_state_error _ λ still_open.
                  OnOk-bind (order_commission (some row.position.open_order_key)) _ _ (
                    OnOk-read (order_commission (some row.position.open_order_key)) _
                      (order_commission_read (some row.position.open_order_key) _)
                      λ entry e.
                        OnOk-bind
                          (raise_if (not (optional_order_exists (order_key order) _))
                            integrity_error)
                          _ _
                          (OnOk-raise_if _ integrity_error _ λ known.
                            OnOk-load_present id _ λ row' e valid. (
                              closed_row trigger price at _ (order_key order) fee row,
                              updated_found id (closed_row trigger price at _ (order_key order) fee)
                                  row _ found (λ x. (refl, refl)),
                              refl,
                              (refl, refl, refl, refl),
                            ))))))))
