-- ===== src/Execution/Kept/Stops.antt =====
-- What the operations on standing stops keep.
use bazarabot.Base.{ℕ, zero, suc, String, Option, none, some}
use bazarabot.Base.Exec.Keeps.{Keeps, Keeps-pure, Keeps-bind, Leads-catch, keeps_rules}
use bazarabot.Models.{Instrument, Position, StopOrderRecord, StopOrderStatus}
use bazarabot.Db.Store.{clock_now, Database}
use bazarabot.Db.StopOrders
use bazarabot.Db.Preserved.{
  IsPreserved, InDb, Keeps-alert, Keeps-get, Keeps-activate, Keeps-active_for_position,
  Keeps-record_placing, Keeps-set_stop_protection, Keeps-settle_stop,
}
use bazarabot.Execution.Desk.{Env, on_db, new_key, write, suppress}
use bazarabot.Execution.Stops
use bazarabot.Execution.Stops.{is_unplaceable, is_unsettled, settle_stop_now}
use bazarabot.Execution.Kept.{
  IsQuiet, InDesk, Leads-on_broker, Keeps-on_db, Keeps-new_key, Keeps-write, Keeps-suppress,
}

module _ (R : Database → Type 0) (kept : IsPreserved R) where
  pub Keeps-settle_stop_now :
      (key : String) (status : StopOrderStatus) → Keeps (InDb R) (settle_stop_now key status)
  Keeps-settle_stop_now key status = record {
    at = λ s h. (Keeps-settle_stop R kept key status (clock_now s)).at s h;
  }

  Keeps-bind_stop :
      (key : String) (id : ℕ) (stop_id : String) → Keeps (InDb R) (Stops.bind_stop key id stop_id)
  unfolding Stops.bind_stop
  Keeps-bind_stop key id stop_id =
      search
        (keeps_rules, Keeps-write R kept, Keeps-activate R kept, Keeps-set_stop_protection R kept)

module _ {W : Type 0} (env : Env W) (R : Database → Type 0) (kept : IsPreserved R) (Q : W → Type 0)
    (quiet : IsQuiet env.broker Q) where
  Keeps-post_stop :
      (key : String) (position : Position) (instrument : Instrument)
      → Keeps (InDesk R Q) (Stops.post_stop env key position instrument)
  unfolding Stops.post_stop
  Keeps-post_stop key position instrument = search (
    keeps_rules,
    Leads-on_broker R Q Q,
    quiet.post_stop_loss,
    Keeps-on_db R Q,
    Keeps-bind_stop R kept,
  )

  Keeps-give_up : (position : Position) → Keeps (InDesk R Q) (Stops.give_up env position)
  unfolding Stops.give_up
  Keeps-give_up position = search (keeps_rules, Keeps-on_db R Q, Keeps-alert R, Keeps-get R)

  placing_kept :
      (key : String) (position : Position)
      → Keeps (InDesk R Q) (
          on_db {W = W} (
            write (
              StopOrders.record_placing key position.id position.ticker position.lots
                position.stop_price)))
  placing_kept key position =
      search (Keeps-on_db R Q, Keeps-write R kept, Keeps-record_placing R kept)

  failed_kept :
      (key : String)
      → Keeps
          (InDesk R Q)
          (on_db {W = W} (suppress is_unsettled (settle_stop_now key StopOrderStatus.failed)))
  failed_kept key = search (Keeps-on_db R Q, Keeps-suppress R kept, Keeps-settle_stop_now R kept)

  Keeps-attempts :
      (left : ℕ) (position : Position) (instrument : Instrument)
      → Keeps (InDesk R Q) (Stops.attempts env left position instrument)
  unfolding Stops.attempts
  Keeps-attempts zero position instrument = Keeps-give_up position
  Keeps-attempts (suc left) position instrument =
      Keeps-bind (new_key env) _ (Keeps-new_key R Q env) λ key.
        Keeps-bind _ _ (placing_kept key position) λ _.
          Leads-catch is_unplaceable _ _ (Keeps-post_stop key position instrument)
            λ e. Keeps-bind _ _ (failed_kept key) λ _. Keeps-attempts left position instrument

  pub Keeps-place_stop :
      (position : Position) (instrument : Instrument)
      → Keeps (InDesk R Q) (Stops.place_stop env position instrument)
  unfolding Stops.place_stop
  Keeps-place_stop position instrument =
      search (keeps_rules, Keeps-on_db R Q, Keeps-active_for_position R, Keeps-attempts)

  place_loaded_kept :
      (position : Position) (instrument : Instrument) (loaded : Option Position)
      → Keeps (InDesk R Q) (Stops.place_loaded env position instrument loaded)
  place_loaded_kept position instrument none = Keeps-pure position
  place_loaded_kept position instrument (some loaded) = Keeps-place_stop loaded instrument

  pub Keeps-place_protective_stop :
      (position : Position) (instrument : Instrument)
      → Keeps (InDesk R Q) (Stops.place_protective_stop env position instrument)
  unfolding Stops.place_protective_stop
  Keeps-place_protective_stop position instrument =
      search (keeps_rules, Keeps-on_db R Q, Keeps-get R, place_loaded_kept)

  pub Keeps-adopt_existing_stop :
      (position : Position) (stop : StopOrderRecord)
      → Keeps (InDesk R Q) (Stops.adopt_existing_stop env position stop)
  unfolding Stops.adopt_existing_stop
  Keeps-adopt_existing_stop position stop = search (
    keeps_rules,
    Keeps-on_db R Q,
    Keeps-write R kept,
    Keeps-record_placing R kept,
    Keeps-bind_stop R kept,
  )

  cancel_if_known_kept : (id : Option String) → Keeps (InDesk R Q) (Stops.cancel_if_known env id)
  cancel_if_known_kept none = Keeps-pure tt
  cancel_if_known_kept (some id) = Leads-on_broker R Q Q _ (quiet.cancel_stop_order id)

  release_owner_kept :
      (key : String) (owner : Option Position)
      → Keeps (InDesk R Q) (Stops.release_owner env key owner)
  release_owner_kept key none = Keeps-pure tt
  release_owner_kept key (some owner) =
      search (keeps_rules, Keeps-on_db R Q, Keeps-write R kept, Keeps-set_stop_protection R kept)

  pub Keeps-cancel_orphaned_stop :
      (stop : StopOrderRecord) → Keeps (InDesk R Q) (Stops.cancel_orphaned_stop env stop)
  unfolding Stops.cancel_orphaned_stop
  Keeps-cancel_orphaned_stop stop = search (
    keeps_rules,
    cancel_if_known_kept,
    Keeps-on_db R Q,
    Keeps-suppress R kept,
    Keeps-settle_stop_now R kept,
    Keeps-get R,
    release_owner_kept,
  )

  cancel_standing_kept :
      (standing : Option StopOrderRecord) → Keeps (InDesk R Q) (Stops.cancel_standing env standing)
  cancel_standing_kept none = Keeps-pure tt
  cancel_standing_kept (some standing) = search (
    keeps_rules,
    cancel_if_known_kept,
    Keeps-on_db R Q,
    Keeps-suppress R kept,
    Keeps-settle_stop_now R kept,
  )

  pub Keeps-cancel_stop_to_local :
      (position : Position) → Keeps (InDesk R Q) (Stops.cancel_stop_to_local env position)
  unfolding Stops.cancel_stop_to_local
  Keeps-cancel_stop_to_local position =
      search
        (
          keeps_rules,
          Keeps-on_db R Q,
          Keeps-active_for_position R,
          cancel_standing_kept,
          Keeps-get R,
          Keeps-write R kept,
          Keeps-set_stop_protection R kept,
        )
        depth 9

  pub Keeps-replace_stop :
      (position : Position) (instrument : Instrument)
      → Keeps (InDesk R Q) (Stops.replace_stop env position instrument)
  unfolding Stops.replace_stop
  Keeps-replace_stop position instrument =
      search
        (keeps_rules, Keeps-cancel_stop_to_local, Keeps-on_db R Q, Keeps-get R, place_loaded_kept)
