-- ===== src/Execution/Kept.antt =====
-- What the order path keeps of the database and of the broker's world.
pub mod Stops
pub mod Entries
pub mod Exits
pub mod Recovery
use bazarabot.Base.{ℕ, String, Bool, true, false, Option}
use bazarabot.Base.Int.{ℤ}
use bazarabot.Base.Decimal.{Decimal}
use bazarabot.Base.Exec.{Exec, pure, raise, catch, ◌>>=◌, ◌>>◌}
use bazarabot.Base.Exec.Keeps.{Leads, Keeps, Keeps-pure, Keeps-raise, Keeps-bind, Leads-catch}
use bazarabot.Models.{Datetime, ExitTrigger, HaltReason, Intent, OrderStatus, Side}
use bazarabot.Errors.{Error, is_database}
use bazarabot.Db.Store.{clock_now, Alert, Call, Database, Store}
use bazarabot.Db.Store
use bazarabot.Db.Preserved.{
  IsPreserved, InDb, Keeps-alert, Keeps-halt, Keeps-record_submitting, Keeps-settle,
}
use bazarabot.Db.Orders
use bazarabot.Halt
use bazarabot.Execution.Desk.{
  Broker, Env, Desk, Action, on_db, on_broker, new_key, write, suppress, halt_on_db_failure,
  halt_now,
}

-- Kept by every call of the broker but the market order.
pub record IsQuiet {W : Type 0} (broker : Broker W) (Q : W → Type 0) : Type 0 where
  pub get_instrument : (ticker : String) → Keeps Q (broker.get_instrument ticker)
  pub get_max_lots : (figi : String) → Keeps Q (broker.get_max_lots figi)
  pub get_order_state : (key : String) → Keeps Q (broker.get_order_state key)
  pub cancel_order : (key : String) → Keeps Q (broker.cancel_order key)
  pub post_stop_loss :
      (key figi : String) (lots : ℤ) (price : Decimal)
      → Keeps Q (broker.post_stop_loss key figi lots price)
  pub cancel_stop_order : (id : String) → Keeps Q (broker.cancel_stop_order id)
  pub get_order_state_by_broker_id :
      (id : String) → Keeps Q (broker.get_order_state_by_broker_id id)
  pub get_operations : (since until : Datetime) → Keeps Q (broker.get_operations since until)
  pub get_portfolio : Keeps Q broker.get_portfolio
  pub list_stop_orders : Keeps Q broker.list_stop_orders
  pub get_last_price : (figi : String) → Keeps Q (broker.get_last_price figi)
  pub get_executed_stop_fills :
      (since until : Datetime) → Keeps Q (broker.get_executed_stop_fills since until)

-- Led to by a market order.
abbrev pub Submits : {W : Type 0} → Broker W → (W → Type 0) → (W → Type 0) → Type 0
Submits broker Q Q' =
    (key figi : String) (side : Side) (lots : ℤ)
    → Leads Q Q' (broker.post_market_order key figi side lots)

abbrev pub InDesk : {W : Type 0} → (Database → Type 0) → (W → Type 0) → Desk W → Type 0
InDesk R Q d = R d.store.db × Q d.world

module _ {W : Type 0} (R : Database → Type 0) (Q Q' : W → Type 0) where
  pub Leads-on_broker :
      {A : Type 0} (m : Exec W Error A)
      → Leads Q Q' m
      → Leads (InDesk R Q) (InDesk R Q') (on_broker m)
  Leads-on_broker m k = record { at = λ d h. (h.0, k.at d.world h.1) }

module _ {W : Type 0} (R : Database → Type 0) (Q : W → Type 0) where
  pub Keeps-on_db :
      {A : Type 0} (m : Call A) → Keeps (InDb R) m → Keeps (InDesk R Q) (on_db {W = W} m)
  Keeps-on_db m k = record { at = λ d h. (k.at d.store h.0, h.1) }

  pub Keeps-new_key : (env : Env W) → Keeps (InDesk R Q) (new_key env)
  unfolding new_key
  Keeps-new_key env = record { at = λ d h. h }

module _ (R : Database → Type 0) (kept : IsPreserved R) where
  pub Keeps-halt_on_db_failure : (detail : String) → Keeps (InDb R) (halt_on_db_failure detail)
  unfolding halt_on_db_failure
  Keeps-halt_on_db_failure detail =
      Keeps-bind _ _ (Keeps-alert R (Alert.trading_halted detail)) λ _.
        Leads-catch is_database (halt_now detail) _
          (record { at = λ s h. (Keeps-halt R kept HaltReason.manual detail (clock_now s)).at s h })
          λ e. Keeps-pure tt

  pub Keeps-write : {A : Type 0} (m : Call A) → Keeps (InDb R) m → Keeps (InDb R) (write m)
  unfolding write
  Keeps-write m k =
      Leads-catch is_database m _ k
        λ e. Keeps-bind _ _ (Keeps-halt_on_db_failure _) λ _. Keeps-raise e

  pub Keeps-suppress :
      {A : Type 0} (caught : Error → Bool) (m : Call A)
      → Keeps (InDb R) m
      → Keeps (InDb R) (suppress caught m)
  unfolding suppress
  Keeps-suppress caught m k =
      Leads-catch caught _ _ (Keeps-bind m _ k λ _. Keeps-pure tt) λ e. Keeps-pure tt

-- The two writes that every order of the bot's own goes through.
module _ {W : Type 0} (R : Database → Type 0) (kept : IsPreserved R) (Q : W → Type 0) where
  pub submitting_kept :
      (key ticker : String) (side : Side) (lots : ℤ) (intent : Intent)
      (trigger : Option ExitTrigger)
      → Keeps
          (InDesk R Q)
          (on_db {W = W} (write (Orders.record_submitting key ticker side lots intent trigger)))
  submitting_kept key ticker side lots intent trigger =
      search (Keeps-on_db R Q, Keeps-write R kept, Keeps-record_submitting R kept)

  pub settled_kept :
      (key : String) (status : OrderStatus) (lots : ℤ) (price fee : Option Decimal)
      (reason broker_id : Option String)
      → Keeps
          (InDesk R Q)
          (on_db {W = W} (write (Orders.settle key status lots price fee reason broker_id)))
  settled_kept key status lots price fee reason broker_id =
      search (Keeps-on_db R Q, Keeps-write R kept, Keeps-settle R kept)

  pub told_kept : (a : Alert) → Keeps (InDesk R Q) (on_db {W = W} (Store.alert a))
  told_kept a = Keeps-on_db R Q _ (Keeps-alert R a)
