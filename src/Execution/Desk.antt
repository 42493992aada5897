-- ===== src/Execution/Desk.antt =====
-- What zarabot/execution/orders.py works with: the database, the broker, fresh keys and settings.
-- The locks put the operations one after another, so each runs here as one step.
use bazarabot.Base.{ℕ, suc, String, Bool, List}
use bazarabot.Base.Int.{ℤ}
use bazarabot.Base.Decimal.{Decimal}
use bazarabot.Base.Exec.{Exec, ok, raise, catch, pure, within, ◌>>◌}
use bazarabot.Models.{
  Datetime, Date, HaltReason, Instrument, OperationRecord, OrderRecord, PortfolioState, Side,
  StopOrderRecord,
}
use bazarabot.Config.{Config}
use bazarabot.Errors.{Error, is_database}
use bazarabot.Db.Store.{clock_now, Alert, Store, Call}
use bazarabot.Db.Store
use bazarabot.Halt

-- The calls of zarabot/broker/client.py that the modelled parts make, over a world `W`.
pub record Broker (W : Type 0) : Type 0 where
  pub get_instrument : String → Exec W Error Instrument
  pub get_max_lots : String → Exec W Error ℤ
  pub post_market_order : String → String → Side → ℤ → Exec W Error OrderRecord
  pub get_order_state : String → Exec W Error OrderRecord
  pub cancel_order : String → Exec W Error (Unit {0})
  pub post_stop_loss : String → String → ℤ → Decimal → Exec W Error StopOrderRecord
  pub cancel_stop_order : String → Exec W Error (Unit {0})
  pub get_order_state_by_broker_id : String → Exec W Error OrderRecord
  pub get_operations : Datetime → Datetime → Exec W Error (List OperationRecord)
  pub get_portfolio : Exec W Error PortfolioState
  pub list_stop_orders : Exec W Error (List StopOrderRecord)
  pub get_last_price : String → Exec W Error Decimal
  pub get_executed_stop_fills : Datetime → Datetime → Exec W Error (List (String × OrderRecord))

-- What the module imports: the broker, `uuid4` as a supply of texts, the settings, the time zone.
pub record Env (W : Type 0) : Type 0 where
  pub broker : Broker W
  pub uuid : ℕ → String
  pub config : Config
  pub moscow_date : Datetime → Date

pub record Desk (W : Type 0) : Type 0 where
  pub store : Store
  pub world : W
  pub keys_used : ℕ

abbrev pub Action : Type 0 → Type 0 → Type 0
Action W = Exec (Desk W) Error

module _ {W : Type 0} where
  abbrev pub put_store : Store → Desk W → Desk W
  put_store s d = record d { store = s }

  abbrev pub put_world : W → Desk W → Desk W
  put_world w d = record d { world = w }

  abbrev pub on_db : {A : Type 0} → Call A → Action W A
  on_db = within (λ d. d.store) put_store

  abbrev pub on_broker : {A : Type 0} → Exec W Error A → Action W A
  on_broker = within (λ d. d.world) put_world

  -- `str(uuid4())`
  unfoldable pub new_key : Env W → Action W String
  new_key env d = (ok (env.uuid d.keys_used), record d { keys_used = suc d.keys_used })

-- `halt(HaltReason.MANUAL, detail, clock_now())`
abbrev pub halt_now : String → Call (Unit {0})
halt_now detail s = Halt.halt HaltReason.manual detail (clock_now s) s

-- `_halt_on_db_failure`
unfoldable pub halt_on_db_failure : String → Call (Unit {0})
halt_on_db_failure detail = do
  Store.alert (Alert.trading_halted detail)
  catch is_database (halt_now detail) (λ e. pure tt)

-- `_write`: a database error halts trading and is raised again.
unfoldable pub write : {A : Type 0} → Call A → Call A
unfolding halt_on_db_failure
write m =
    catch is_database m
      λ e. halt_on_db_failure "database write failed on a trading-critical path" >> raise e

-- `with suppress(OrderStateError)` and the like.
unfoldable pub suppress : {A : Type 0} → (Error → Bool) → Call A → Call (Unit {0})
suppress caught m = catch caught (m >> pure tt) (λ e. pure tt)
