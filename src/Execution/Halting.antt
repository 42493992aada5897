-- ===== src/Execution/Halting.antt =====
-- Failed writes in zarabot/execution/orders.py: `_halt_on_db_failure` and `_write`.
use bazarabot.Base.{Bool-cases, inl, inr, ◌≡◌, refl, ap, true, false, String, some, arith}
use bazarabot.Base.Exec.{Result, ok, err, raise, catch, handle, continue, ◌>>◌}
use bazarabot.Models.{HaltState}
use bazarabot.Errors.{Error, is_database}
use bazarabot.Db.Store.{Call, Store, transaction, next_fails}
use bazarabot.Halt.{halt, is_halted_row}
use bazarabot.Execution.Desk.{halt_on_db_failure, write}

-- The message of `_write`.
abbrev write_failed : String
write_failed = "database write failed on a trading-critical path"

module _ (detail : String) (s : Store) where
  pub halt_on_db_failure_halts :
      (row : HaltState)
      → next_fails s.disk ≡ false
      → s.db.halt_state ≡ some row
      → ((halt_on_db_failure detail s).0 ≡ ok tt)
        × (is_halted_row (halt_on_db_failure detail s).1.db.halt_state ≡ true)
  unfolding halt_on_db_failure catch halt transaction
  halt_on_db_failure_halts row works there = ground arith

  -- It never raises, whatever the database does.
  pub halt_on_db_failure_returns : (halt_on_db_failure detail s).0 ≡ ok tt
  unfolding halt_on_db_failure catch halt transaction
  halt_on_db_failure_returns = ground arith

module _ {A : Type 0} (m : Call A) where
  answered :
      (r : Result Error A) (t : Store) (e : Error) (row : HaltState)
      → r ≡ err e
      → is_database e ≡ true
      → next_fails t.disk ≡ false
      → t.db.halt_state ≡ some row
      → let after =
          handle is_database (λ e. halt_on_db_failure write_failed >> raise {A = A} e) r t in
        (after.0 ≡ err e) × (is_halted_row after.1.db.halt_state ≡ true)
  answered (ok a) t e row h d works there = cc
  answered (err x) t e row h d works there =
      ground (arith, h, d, halt_on_db_failure_halts write_failed t row works there)

  -- A write on the order path that ends in a database error raises that error again and leaves
  -- trading halted, if the halt row is there and the halt's own transaction works.
  pub write_failure_halts :
      (s : Store) (e : Error) (row : HaltState)
      → (m s).0 ≡ err e
      → is_database e ≡ true
      → next_fails (m s).1.disk ≡ false
      → (m s).1.db.halt_state ≡ some row
      → ((write m s).0 ≡ err e) × (is_halted_row (write m s).1.db.halt_state ≡ true)
  unfolding write catch
  write_failure_halts s e row h d works there = answered (m s).0 (m s).1 e row h d works there

-- A write that succeeds returns its value.
pub write_returns :
    {A : Type 0} (m : Call A) (s : Store) (a : A) → (m s).0 ≡ ok a → (write m s).0 ≡ ok a
unfolding write catch
write_returns m s a h =
    ap (λ r. (handle is_database (λ e. halt_on_db_failure write_failed >> raise e) r (m s).1).0) h

-- A write that returns has returned from its method, with nothing done after it.
pub write_returned :
    {A : Type 0} (m : Call A) (s : Store) (a : A)
    → (write m s).0 ≡ ok a
    → ((m s).0 ≡ ok a) × ((write m s).1 ≡ (m s).1)
unfolding write catch
write_returned {A} m s a h = by_result (m s).0 (m s).1 h
  where
    raised :
        (e : Error) (t : Store) → ((halt_on_db_failure write_failed >> raise {A = A} e) t).0 ≡ err e
    raised e t =
        ap (λ r. (continue r (λ _. raise {A = A} e) (halt_on_db_failure write_failed t).1).0)
          (halt_on_db_failure_returns write_failed t)

    by_result :
        (r : Result Error A) (t : Store)
        → (handle is_database (λ e. halt_on_db_failure write_failed >> raise e) r t).0 ≡ ok a
        → (r ≡ ok a)
          × ((handle is_database (λ e. halt_on_db_failure write_failed >> raise e) r t).1 ≡ t)
    by_result (ok b) t g = (g, refl)
    by_result (err e) t g = elim (Bool-cases (is_database e)) [
      | inl d ↦ absurd (cc (rw d at g, raised e t))
      | inr d ↦ absurd (cc (rw d at g))
    ]
