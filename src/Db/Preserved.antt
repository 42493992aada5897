-- ===== src/Db/Preserved.antt =====
-- Predicates on the database that every write of the order path keeps, and the calls that keep them.
use bazarabot.Base.{ℕ, String, not, Option, none, some, List, leb}
use bazarabot.Base.Int.{ℤ}
use bazarabot.Base.Decimal.{Decimal}
use bazarabot.Base.Exec.{modify, gets, raise_if}
use bazarabot.Base.Exec.Keeps.{Keeps, Keeps-pure, Keeps-raise_if, Keeps-gets, Keeps-bind, Keeps-if}
use bazarabot.Models.{
  Adjustment, Datetime, Date, ExitTrigger, HaltReason, HaltState, Instrument, Intent, OrderRecord,
  OrderStatus, Side, Signal, StopOrderStatus, StopProtection,
}
use bazarabot.Config.{Config}
use bazarabot.Errors.{Error, value_error}
use bazarabot.Db.Store.{Database, Store, Call, Alert, transaction}
use bazarabot.Db.Store
use bazarabot.Db.Store.Atomicity.{transaction_keeps}
use bazarabot.Db.Orders
use bazarabot.Db.Orders.Writes
use bazarabot.Db.Orders.Queries
use bazarabot.Db.Positions
use bazarabot.Db.Positions.Rows
use bazarabot.Db.Positions.Writes as PositionWrites
use bazarabot.Db.Positions.Booking
use bazarabot.Db.Positions.Opening
use bazarabot.Db.Positions.Queries as PositionQueries
use bazarabot.Db.StopOrders
use bazarabot.Db.StopOrders.Writes as StopWrites
use bazarabot.Db.Cooldowns
use bazarabot.Db.Signals
use bazarabot.Halt

-- Kept by each write on the tables of orders, positions and stop orders, and by any change of the
-- cooldowns, of the halt flag and of the reports.
pub record IsPreserved (R : Database → Type 0) : Type 0 where
  pub orders : (d d' : Database) → Writes.Write d d' → R d → R d'
  pub positions : (d d' : Database) → PositionWrites.Write d d' → R d → R d'
  pub stop_orders : (d d' : Database) → StopWrites.Write d d' → R d → R d'
  pub cooldowns :
      (d : Database) (rows : List (String × Datetime)) → R d → R (record d { cooldowns = rows })
  pub halt_state : (d : Database) (row : Option HaltState) → R d → R (record d { halt_state = row })
  pub reconciliations :
      (d : Database) (rows : List (Datetime × List Adjustment))
      → R d
      → R (record d { reconciliations = rows })

abbrev pub InDb : (Database → Type 0) → Store → Type 0
InDb R s = R s.db

module _ (R : Database → Type 0) where
  -- A transaction of one update.
  pub Keeps-transaction :
      {A : Type 0} (m : Call A) → Keeps (InDb R) m → Keeps (InDb R) (transaction m)
  Keeps-transaction m k = record {
    at = λ s h. transaction_keeps R m s h (record { at = λ a e. k.at _ h });
  }

  pub Keeps-modify :
      (f : Store → Store)
      → ((s : Store) → R s.db → R (f s).db)
      → Keeps (InDb R) (modify {E = Error} f)
  Keeps-modify f h = record { at = h }

  pub Keeps-alert : (a : Alert) → Keeps (InDb R) (Store.alert a)
  Keeps-alert a = record { at = λ s h. h }

-- The calls that only read.
module _ (R : Database → Type 0) where
  pub Keeps-active_for_position : (id : ℕ) → Keeps (InDb R) (StopOrders.active_for_position id)
  unfolding StopOrders.active_for_position
  Keeps-active_for_position id = record { at = λ s h. h }

  pub Keeps-get : (id : ℕ) → Keeps (InDb R) (PositionQueries.get id)
  unfolding PositionQueries.get Rows.load
  Keeps-get id = record { at = λ s h. h }

  pub Keeps-list_open : Keeps (InDb R) PositionQueries.list_open
  unfolding PositionQueries.list_open
  Keeps-list_open = record { at = λ s h. h }

  pub Keeps-list_closed : Keeps (InDb R) PositionQueries.list_closed
  unfolding PositionQueries.list_closed
  Keeps-list_closed = record { at = λ s h. h }

  pub Keeps-list_missing_commission :
      (since until : Datetime) → Keeps (InDb R) (Queries.list_missing_commission since until)
  unfolding Queries.list_missing_commission
  Keeps-list_missing_commission since until =
      Keeps-bind _ _ (Keeps-raise_if (not since.aware) value_error) λ _.
        Keeps-bind _ _ (Keeps-raise_if (not until.aware) value_error) λ _. record { at = λ s h. h }

  pub Keeps-list_unresolved : Keeps (InDb R) Queries.list_unresolved
  unfolding Queries.list_unresolved
  Keeps-list_unresolved = record { at = λ s h. h }

  pub Keeps-list_for_period :
      (moscow_date : Datetime → Date) (a b : Date)
      → Keeps (InDb R) (Signals.list_for_period moscow_date a b)
  unfolding Signals.list_for_period
  Keeps-list_for_period moscow_date a b = record { at = λ s h. h }

module _ (R : Database → Type 0) (kept : IsPreserved R) where
  pub Keeps-record_submitting :
      (key ticker : String) (side : Side) (lots : ℤ) (intent : Intent)
      (trigger : Option ExitTrigger)
      → Keeps (InDb R) (Orders.record_submitting key ticker side lots intent trigger)
  Keeps-record_submitting key ticker side lots intent trigger = record {
    at = λ s h.
        kept.orders _ _ (Writes.record_submitting-Write key ticker side lots intent trigger s) h;
  }

  pub Keeps-settle :
      (key : String) (status : OrderStatus) (lots : ℤ) (price fee : Option Decimal)
      (reason broker_id : Option String)
      → Keeps (InDb R) (Orders.settle key status lots price fee reason broker_id)
  Keeps-settle key status lots price fee reason broker_id = record {
    at =
        λ s h. kept.orders _ _ (Writes.settle-Write key status lots price fee reason broker_id s) h;
  }

  pub Keeps-record_commission :
      (key : String) (commission : Decimal)
      → Keeps (InDb R) (Orders.record_commission key commission)
  Keeps-record_commission key commission = record {
    at = λ s h. kept.orders _ _ (Writes.record_commission-Write key commission s) h;
  }

  pub Keeps-mark_commission_alerted :
      (key : String) (at : Datetime) → Keeps (InDb R) (Orders.mark_commission_alerted key at)
  Keeps-mark_commission_alerted key at = record {
    at = λ s h. kept.orders _ _ (Writes.mark_commission_alerted-Write key at s) h;
  }

  pub Keeps-recompute_realised : (id : ℕ) → Keeps (InDb R) (Positions.recompute_realised id)
  Keeps-recompute_realised id = record {
    at = λ s h. kept.positions _ _ (Booking.recompute_realised-Write id s) h;
  }

  pub Keeps-adopt :
      (cfg : Config) (instrument : Instrument) (lots : ℤ) (price : Decimal) (at : Datetime)
      (key : String)
      → Keeps (InDb R) (Positions.adopt cfg instrument lots price at key)
  Keeps-adopt cfg instrument lots price at key = record {
    at = λ s h. kept.positions _ _ (Opening.adopt-Write cfg instrument lots price at key s) h;
  }

  pub Keeps-record_placing :
      (key : String) (id : ℕ) (ticker : String) (lots : ℤ) (price : Decimal)
      → Keeps (InDb R) (StopOrders.record_placing key id ticker lots price)
  Keeps-record_placing key id ticker lots price = record {
    at = λ s h. kept.stop_orders _ _ (StopWrites.record_placing-Write key id ticker lots price s) h;
  }

  pub Keeps-activate : (key stop_id : String) → Keeps (InDb R) (StopOrders.activate key stop_id)
  Keeps-activate key stop_id = record {
    at = λ s h. kept.stop_orders _ _ (StopWrites.activate-Write key stop_id s) h;
  }

  pub Keeps-settle_stop :
      (key : String) (status : StopOrderStatus) (at : Datetime)
      → Keeps (InDb R) (StopOrders.settle key status at)
  Keeps-settle_stop key status at = record {
    at = λ s h. kept.stop_orders _ _ (StopWrites.settle-Write key status at s) h;
  }

  pub Keeps-set_stop_protection :
      (id : ℕ) (protection : StopProtection) (key : Option String)
      → Keeps (InDb R) (Positions.set_stop_protection id protection key)
  Keeps-set_stop_protection id protection key = record {
    at = λ s h. kept.positions _ _ (PositionWrites.set_stop_protection-Write id protection key s) h;
  }

  pub Keeps-update_lots : (id : ℕ) (lots : ℤ) → Keeps (InDb R) (Positions.update_lots id lots)
  Keeps-update_lots id lots = record {
    at = λ s h. kept.positions _ _ (PositionWrites.update_lots-Write id lots s) h;
  }

  pub Keeps-open_position :
      (signal : Signal) (order : OrderRecord) (instrument : Instrument) (stop target : Decimal)
      (at : Datetime)
      → Keeps (InDb R) (Positions.open_position signal order instrument stop target at)
  Keeps-open_position signal order instrument stop target at = record {
    at = λ s h.
        kept.positions _ _ (Opening.open_position-Write signal order instrument stop target at s) h;
  }

  pub Keeps-close :
      (id : ℕ) (trigger : ExitTrigger) (price : Decimal) (at : Datetime)
      (order : Option OrderRecord) (fee : Option Decimal)
      → Keeps (InDb R) (Positions.close id trigger price at order fee)
  Keeps-close id trigger price at order fee = record {
    at = λ s h. kept.positions _ _ (Booking.close-Write id trigger price at order fee s) h;
  }

  advance_kept :
      (ticker : String) (at : Datetime) (found : Option Datetime)
      → Keeps (InDb R) (Cooldowns.advance ticker at found)
  advance_kept ticker at none = record { at = λ s h. kept.cooldowns _ _ h }
  advance_kept ticker at (some existing) =
      Keeps-if (leb at.instant existing.instant) _ _ (Keeps-pure tt)
        (record { at = λ s h. kept.cooldowns _ _ h })

  pub Keeps-start : (ticker : String) (at : Datetime) → Keeps (InDb R) (Cooldowns.start ticker at)
  unfolding Cooldowns.start
  Keeps-start ticker at =
      Keeps-bind (raise_if (not at.aware) value_error) _ (Keeps-raise_if (not at.aware) value_error)
        λ _. Keeps-transaction R _ (
          Keeps-bind (gets (Cooldowns.lookup ticker)) _ (Keeps-gets (Cooldowns.lookup ticker))
            (advance_kept ticker at))

  halt_written :
      (f : HaltState → HaltState) → Keeps (InDb R) (transaction (modify (Halt.set_halt f)))
  halt_written f = Keeps-transaction R _ (record { at = λ s h. kept.halt_state _ _ h })

  halt_row_kept :
      (reason : HaltReason) (detail : String) (at : Datetime) (row : Option HaltState)
      → Keeps (InDb R) (Halt.halt_row reason detail at row)
  halt_row_kept reason detail at row =
      Keeps-if (Halt.is_halted_row row) _ _
        (Keeps-if (Halt.no_stronger reason (Halt.standing row)) _ _ (Keeps-pure tt) (
          Keeps-bind _ _ (halt_written (Halt.replaced reason detail))
            λ _. Keeps-alert R (Alert.halt_escalated (Halt.standing row) reason detail)))
        (halt_written (Halt.begun reason detail at))

  pub Keeps-halt :
      (reason : HaltReason) (detail : String) (at : Datetime)
      → Keeps (InDb R) (Halt.halt reason detail at)
  unfolding Halt.halt
  Keeps-halt reason detail at =
      Keeps-bind (raise_if (not at.aware) value_error) _ (Keeps-raise_if (not at.aware) value_error)
        λ _.
          Keeps-bind (gets (λ s. s.db.halt_state)) _ (Keeps-gets (λ s. s.db.halt_state))
            (halt_row_kept reason detail at)
