-- ===== src/Execution/Kept/Exits.antt =====
-- What an exit keeps, and what its one market order leads to.
use bazarabot.Base.{String, Option, none, some}
use bazarabot.Base.Decimal.{Decimal}
use bazarabot.Base.Exec.Keeps.{
  Leads, Keeps, Keeps-pure, Keeps-bind, Keeps-raise_if, Keeps-or_raise, Keeps-if, Leads-bind,
  Leads-then, Leads-catch, keeps_rules,
}
use bazarabot.Models.{
  Datetime, ExitTrigger, Intent, OrderRecord, OrderStatus, Position, Side, StopOrderStatus,
  is_exchange,
}
use bazarabot.Errors.{Error, position_state_error, value_error}
use bazarabot.Db.Store.{clock_now, Database}
use bazarabot.Db.Preserved.{
  IsPreserved, InDb, Keeps-close, Keeps-get, Keeps-set_stop_protection, Keeps-start,
}
use bazarabot.Execution.Desk.{Env, new_key}
use bazarabot.Execution.Exits
use bazarabot.Execution.Kept.{
  IsQuiet, Submits, InDesk, Leads-on_broker, Keeps-on_db, Keeps-new_key, Keeps-write,
  Keeps-suppress, Keeps-halt_on_db_failure, submitting_kept, settled_kept, told_kept,
}
use bazarabot.Execution.Kept.Stops.{Keeps-cancel_stop_to_local, Keeps-settle_stop_now}

module _ (R : Database → Type 0) (kept : IsPreserved R) where
  pub Keeps-finish_close :
      (position : Position) (order : OrderRecord) (trigger : ExitTrigger) (moment : Datetime)
      → Keeps (InDb R) (Exits.finish_close position order trigger moment)
  unfolding Exits.finish_close
  Keeps-finish_close position order trigger moment =
      search
        (
          keeps_rules,
          Keeps-write R kept,
          Keeps-close R kept,
          Keeps-start R kept,
          Keeps-halt_on_db_failure R kept,
        )
        depth 9

  Keeps-finish_close_now :
      (position : Position) (order : OrderRecord) (trigger : ExitTrigger)
      → Keeps (InDb R) (Exits.finish_close_now position order trigger)
  Keeps-finish_close_now position order trigger = record {
    at = λ s h. (Keeps-finish_close position order trigger (clock_now s)).at s h;
  }

  settle_executed_kept : (key : Option String) → Keeps (InDb R) (Exits.settle_executed key)
  settle_executed_kept none = Keeps-pure tt
  settle_executed_kept (some key) =
      Keeps-suppress R kept _ _ (Keeps-settle_stop_now R kept key StopOrderStatus.executed)

module _ {W : Type 0} (env : Env W) (R : Database → Type 0) (kept : IsPreserved R) (Q : W → Type 0)
    (quiet : IsQuiet env.broker Q) where
  fail_exit_kept :
      (key : String) (position : Position) (e : Error)
      → Keeps (InDesk R Q) (Exits.fail_exit env key position e)
  fail_exit_kept key position e =
      search (keeps_rules, settled_kept R kept Q, told_kept R kept Q) depth 9

  Keeps-book_exit :
      (key : String) (position : Position) (trigger : ExitTrigger) (posted : OrderRecord)
      → Keeps (InDesk R Q) (Exits.book_exit env key position trigger posted)
  unfolding Exits.book_exit
  Keeps-book_exit key position trigger posted =
      search
        (
          keeps_rules,
          settled_kept R kept Q,
          told_kept R kept Q,
          Keeps-on_db R Q,
          Keeps-finish_close_now R kept,
        )
        depth 9

  release_stop_kept : (current : Position) → Keeps (InDesk R Q) (Exits.release_stop env current)
  release_stop_kept current =
      Keeps-if (is_exchange current.stop_protection) _ _
        (Keeps-cancel_stop_to_local env R kept Q quiet current) (Keeps-pure current)

  record_execution_kept :
      (current : Position) (fill : OrderRecord) (price : Decimal)
      → Keeps (InDesk R Q) (Exits.record_execution env current fill price)
  unfolding Exits.record_execution
  record_execution_kept current fill price =
      Keeps-bind (new_key env) _ (Keeps-new_key R Q env) λ key.
        Keeps-bind _ _
          (submitting_kept R kept Q key current.ticker Side.sell current.lots Intent.exit
            (some ExitTrigger.stop_loss))
          λ _. settled_kept R kept Q key OrderStatus.filled _ (some price) fill.commission _ _

  unprotect_kept : (current : Position) → Keeps (InDesk R Q) (Exits.unprotect env current)
  unprotect_kept current =
      search (keeps_rules, Keeps-on_db R Q, Keeps-write R kept, Keeps-set_stop_protection R kept)

  pub Keeps-close_executed_stop :
      (position : Position) (fill : OrderRecord)
      → Keeps (InDesk R Q) (Exits.close_executed_stop env position fill)
  unfolding Exits.close_executed_stop
  Keeps-close_executed_stop position fill =
      search
        (
          keeps_rules,
          Keeps-on_db R Q,
          Keeps-get R,
          settle_executed_kept R kept,
          unprotect_kept,
          record_execution_kept,
          told_kept R kept Q,
          Keeps-finish_close_now R kept,
        )
        depth 12

module _ {W : Type 0} (env : Env W) (R : Database → Type 0) (kept : IsPreserved R)
    (Q Q' : W → Type 0) (quiet : IsQuiet env.broker Q) (after : IsQuiet env.broker Q')
    (submits : Submits env.broker Q Q') (weaken : (w : W) → Q w → Q' w) where
  Leads-post_exit :
      (key : String) (position : Position)
      → Leads (InDesk R Q) (InDesk R Q') (Exits.post_exit env key position)
  unfolding Exits.post_exit
  Leads-post_exit key position =
      Leads-catch Exits.is_refused_or_lost _ _
        (Leads-on_broker R Q Q' _ (submits key position.figi Side.sell position.lots))
        (fail_exit_kept env R kept Q' after key position)

  Leads-submit_exit :
      (position : Position) (trigger : ExitTrigger)
      → Leads (InDesk R Q) (InDesk R Q') (Exits.submit_exit env position trigger)
  unfolding Exits.submit_exit
  Leads-submit_exit position trigger =
      Leads-bind (new_key env) _ (λ d h. (h.0, weaken d.world h.1)) (Keeps-new_key R Q env)
        λ key.
          Leads-bind _ _ (λ d h. (h.0, weaken d.world h.1))
            (submitting_kept R kept Q key position.ticker Side.sell position.lots Intent.exit
              (some trigger))
            λ _.
              Leads-then _ _ (Leads-post_exit key position)
                (Keeps-book_exit env R kept Q' after key position trigger)

  pub Leads-close_position :
      (position : Position) (trigger : ExitTrigger)
      → Leads (InDesk R Q) (InDesk R Q') (Exits.close_position env position trigger)
  unfolding Exits.close_position
  Leads-close_position position trigger =
      Leads-bind _ _ (λ d h. (h.0, weaken d.world h.1))
        (Keeps-on_db R Q _ (Keeps-get R position.id))
        λ found.
          Leads-bind _ _ (λ d h. (h.0, weaken d.world h.1))
            (Keeps-or_raise found position_state_error)
            λ current.
              Leads-bind _ _ (λ d h. (h.0, weaken d.world h.1)) (Keeps-raise_if _ value_error)
                λ _.
                  Leads-bind _ _ (λ d h. (h.0, weaken d.world h.1))
                    (release_stop_kept env R kept Q quiet current)
                    λ released. Leads-submit_exit released trigger
