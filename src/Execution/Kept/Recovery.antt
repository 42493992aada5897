-- ===== src/Execution/Kept/Recovery.antt =====
-- What the recovery of unresolved orders keeps: it sends no market order.
use bazarabot.Base.{List, [], ◌∷◌, Option, none, some, not}
use bazarabot.Base.Decimal.{Decimal}
use bazarabot.Base.Exec.{Result, ok, err}
use bazarabot.Base.Exec.Keeps.{Keeps, Keeps-pure, Keeps-bind, Keeps-raise_if, keeps_rules}
use bazarabot.Models.{Datetime, ExitTrigger, OrderRecord, Position, Signal}
use bazarabot.Errors.{Error, value_error, order_rejected, order_not_found}
use bazarabot.Db.Store.{Database}
use bazarabot.Db.Preserved.{
  IsPreserved, InDb, Keeps-alert, Keeps-list_for_period, Keeps-list_unresolved, Keeps-open_position,
  Keeps-update_lots,
}
use bazarabot.Execution.Desk.{Env}
use bazarabot.Execution.Recovery
use bazarabot.Execution.Kept.{
  IsQuiet, InDesk, Leads-on_broker, Keeps-on_db, Keeps-write, settled_kept, told_kept,
}
use bazarabot.Execution.Kept.Stops.{Keeps-cancel_stop_to_local, Keeps-place_stop}
use bazarabot.Execution.Kept.Entries.{Keeps-already_open, Keeps-resolve_partial_entry}
use bazarabot.Execution.Kept.Exits.{Keeps-finish_close}

module _ {W : Type 0} (env : Env W) (R : Database → Type 0) (kept : IsPreserved R) (Q : W → Type 0)
    (quiet : IsQuiet env.broker Q) where
  signal_or_unattributed_kept :
      (order : OrderRecord) (moment : Datetime) (found : Option Signal)
      → Keeps (InDb R) (Recovery.signal_or_unattributed order moment found)
  signal_or_unattributed_kept order moment (some signal) = Keeps-pure signal
  signal_or_unattributed_kept order moment none = search keeps_rules

  Keeps-signal_for_recovered_entry :
      (order : OrderRecord) (moment : Datetime)
      → Keeps (InDb R) (Recovery.signal_for_recovered_entry env order moment)
  unfolding Recovery.signal_for_recovered_entry
  Keeps-signal_for_recovered_entry order moment =
      search (keeps_rules, Keeps-list_for_period R, signal_or_unattributed_kept)

  Keeps-shrink :
      (order : OrderRecord) (price : Decimal) (position : Position)
      → Keeps (InDb R) (Recovery.shrink env order price position)
  unfolding Recovery.shrink
  Keeps-shrink order price position =
      search (keeps_rules, Keeps-write R kept, Keeps-update_lots R kept, Keeps-alert R)

  finish_sale_kept :
      (order : OrderRecord) (now : Datetime) (position : Position) (trigger : Option ExitTrigger)
      → Keeps (InDesk R Q) (Recovery.finish_sale env order now position trigger)
  finish_sale_kept order now position none = told_kept R kept Q _
  finish_sale_kept order now position (some trigger) =
      search
        (
          keeps_rules,
          Keeps-cancel_stop_to_local env R kept Q quiet,
          Keeps-on_db R Q,
          Keeps-finish_close R kept,
        )
        depth 9

  end_sale_kept :
      (order : OrderRecord) (now : Datetime) (price : Decimal) (position : Option Position)
      → Keeps (InDesk R Q) (Recovery.end_sale env order now price position)
  end_sale_kept order now price none = Keeps-pure tt
  end_sale_kept order now price (some position) =
      search (keeps_rules, finish_sale_kept, Keeps-on_db R Q, Keeps-shrink)

  end_sale_at_kept :
      (order : OrderRecord) (now : Datetime) (price : Option Decimal)
      → Keeps (InDesk R Q) (Recovery.end_sale_at env order now price)
  end_sale_at_kept order now none = Keeps-pure tt
  end_sale_at_kept order now (some price) =
      search (keeps_rules, Keeps-on_db R Q, Keeps-already_open R kept, end_sale_kept)

  Keeps-apply_terminal_exit :
      (order : OrderRecord) (now : Datetime)
      → Keeps (InDesk R Q) (Recovery.apply_terminal_exit env order now)
  unfolding Recovery.apply_terminal_exit
  Keeps-apply_terminal_exit order now = search (keeps_rules, end_sale_at_kept)

  recover_entry_kept :
      (order : OrderRecord) (now : Datetime) (price : Decimal) (position : Option Position)
      → Keeps (InDesk R Q) (Recovery.recover_entry env order now price position)
  recover_entry_kept order now price (some position) = Keeps-pure tt
  recover_entry_kept order now price none =
      search
        (
          keeps_rules,
          Leads-on_broker R Q Q,
          quiet.get_instrument,
          Keeps-on_db R Q,
          Keeps-signal_for_recovered_entry,
          Keeps-write R kept,
          Keeps-open_position R kept,
          Keeps-place_stop env R kept Q quiet,
        )
        depth 12

  recover_sale_kept :
      (order : OrderRecord) (now : Datetime) (position : Option Position)
      → Keeps (InDesk R Q) (Recovery.recover_sale env order now position)
  recover_sale_kept order now none = Keeps-pure tt
  recover_sale_kept order now (some position) =
      finish_sale_kept order now position order.exit_trigger

  apply_fill_kept :
      (order : OrderRecord) (now : Datetime) (price : Option Decimal)
      → Keeps (InDesk R Q) (Recovery.apply_fill env order now price)
  apply_fill_kept order now none = Keeps-pure tt
  apply_fill_kept order now (some price) =
      search
        (
          keeps_rules,
          Keeps-on_db R Q,
          Keeps-already_open R kept,
          recover_entry_kept,
          recover_sale_kept,
        )
        depth 9

  Keeps-apply_discovered_fill :
      (order : OrderRecord) (now : Datetime)
      → Keeps (InDesk R Q) (Recovery.apply_discovered_fill env order now)
  unfolding Recovery.apply_discovered_fill
  Keeps-apply_discovered_fill order now = search (keeps_rules, apply_fill_kept)

  resolve_rest_kept :
      (now : Datetime) (resolved : Option OrderRecord)
      → Keeps (InDesk R Q) (Recovery.resolve_rest env now resolved)
  resolve_rest_kept now none = Keeps-pure none
  resolve_rest_kept now (some resolved) = search (keeps_rules, Keeps-apply_discovered_fill)

  Keeps-apply_state :
      (order : OrderRecord) (now : Datetime) (state : OrderRecord)
      → Keeps (InDesk R Q) (Recovery.apply_state env order now state)
  unfolding Recovery.apply_state
  Keeps-apply_state order now state =
      search
        (
          keeps_rules,
          settled_kept R kept Q,
          Keeps-apply_discovered_fill,
          Keeps-apply_terminal_exit,
          Keeps-resolve_partial_entry env R kept Q quiet,
          resolve_rest_kept,
        )
        depth 12

  resolve_answer_kept :
      (order : OrderRecord) (now : Datetime) (answer : Result Error OrderRecord)
      → Keeps (InDesk R Q) (Recovery.resolve_answer env order now answer)
  resolve_answer_kept order now (ok state) = Keeps-apply_state order now state
  resolve_answer_kept order now (err order_not_found) = search (keeps_rules, settled_kept R kept Q)
  resolve_answer_kept order now (err (order_rejected why)) = search keeps_rules
  resolve_answer_kept order now (err _) = search keeps_rules

  pub Keeps-resolve_one :
      (order : OrderRecord) (now : Datetime)
      → Keeps (InDesk R Q) (Recovery.resolve_one env order now)
  unfolding Recovery.resolve_one
  Keeps-resolve_one order now = record {
    at = λ d h.
        (resolve_answer_kept order now _).at _
          ((Leads-on_broker R Q Q _ (quiet.get_order_state order.key)).at d h);
  }

  Keeps-resolve_all :
      (now : Datetime) (orders : List OrderRecord)
      → Keeps (InDesk R Q) (Recovery.resolve_all env now orders)
  unfolding Recovery.resolve_all
  Keeps-resolve_all now [] = Keeps-pure []
  Keeps-resolve_all now (order ∷ orders) =
      Keeps-bind _ _ (Keeps-resolve_one order now)
        λ settled. Keeps-bind _ _ (Keeps-resolve_all now orders) λ rest. Keeps-pure _

  pub Keeps-resolve_unfinished :
      (now : Datetime) → Keeps (InDesk R Q) (Recovery.resolve_unfinished env now)
  unfolding Recovery.resolve_unfinished
  Keeps-resolve_unfinished now =
      Keeps-bind _ _ (Keeps-raise_if (not now.aware) value_error)
        λ _. Keeps-bind _ _ (Keeps-on_db R Q _ (Keeps-list_unresolved R)) (Keeps-resolve_all now)
