-- ===== src/Commissions/Kept.antt =====
-- What `backfill` of zarabot/ops/commissions.py keeps of the database and of the broker's world.
use bazarabot.Base.{not, String, List, [], ◌∷◌, Option, none, some, keep, length}
use bazarabot.Base.Decimal.{Decimal}
use bazarabot.Base.Exec.Keeps.{Keeps, Keeps-pure, Keeps-raise_if, Keeps-bind, keeps_rules}
use bazarabot.Models.{Datetime, OperationRecord, OrderRecord, Position}
use bazarabot.Errors.{value_error}
use bazarabot.Db.Store.{Database}
use bazarabot.Db.Preserved.{
  IsPreserved, Keeps-alert, Keeps-record_commission, Keeps-mark_commission_alerted,
  Keeps-recompute_realised, Keeps-list_closed, Keeps-list_missing_commission,
}
use bazarabot.Execution.Desk.{Env}
use bazarabot.Execution.Kept.{IsQuiet, InDesk, Leads-on_broker, Keeps-on_db}
use bazarabot.Commissions
use bazarabot.Commissions.{names_position, read_clock}

module _ {W : Type 0} (env : Env W) (R : Database → Type 0) (kept : IsPreserved R) (Q : W → Type 0)
    (quiet : IsQuiet env.broker Q) where
  state_of_kept :
      (broker_id : Option String) (key : String)
      → Keeps (InDesk R Q) (Commissions.state_of env broker_id key)
  state_of_kept none key = Leads-on_broker R Q Q _ (quiet.get_order_state key)
  state_of_kept (some id) key = Leads-on_broker R Q Q _ (quiet.get_order_state_by_broker_id id)

  Keeps-resolve :
      (order : OrderRecord) (operations : List OperationRecord) (moment : Datetime)
      → Keeps (InDesk R Q) (Commissions.resolve env order operations moment)
  unfolding Commissions.resolve
  Keeps-resolve order operations moment = search (keeps_rules, state_of_kept) depth 9

  Keeps-feed : (since until : Datetime) → Keeps (InDesk R Q) (Commissions.feed env since until)
  unfolding Commissions.feed
  Keeps-feed since until = search (keeps_rules, Leads-on_broker R Q Q, quiet.get_operations) depth 9

  book_commission_kept :
      (order : OrderRecord) (moment : Datetime) (commission : Option Decimal)
      → Keeps (InDesk R Q) (Commissions.book_commission env order moment commission)
  book_commission_kept order moment (some c) =
      search (keeps_rules, Keeps-on_db R Q, Keeps-record_commission R kept) depth 9
  book_commission_kept order moment none =
      search (keeps_rules, Keeps-on_db R Q, Keeps-alert R, Keeps-mark_commission_alerted R kept)
        depth 9

  Keeps-backfill_orders :
      (operations : List OperationRecord) (moment : Datetime) (orders : List OrderRecord)
      → Keeps (InDesk R Q) (Commissions.backfill_orders env operations moment orders)
  unfolding Commissions.backfill_orders
  Keeps-backfill_orders operations moment [] = Keeps-pure []
  Keeps-backfill_orders operations moment (order ∷ orders) =
      Keeps-bind _ _ (Keeps-resolve order operations moment) λ commission.
        Keeps-bind _ _ (book_commission_kept order moment commission) λ updated.
          Keeps-bind _ _ (Keeps-backfill_orders operations moment orders) λ rest. Keeps-pure _

  Keeps-recompute_all : (ps : List Position) → Keeps (InDesk R Q) (Commissions.recompute_all env ps)
  unfolding Commissions.recompute_all
  Keeps-recompute_all [] = Keeps-pure tt
  Keeps-recompute_all (p ∷ ps) =
      Keeps-bind _ _ (Keeps-on_db R Q _ (Keeps-recompute_realised R kept p.id))
        λ _. Keeps-recompute_all ps

  recompute_affected_kept :
      (keys : List String) → Keeps (InDesk R Q) (Commissions.recompute_affected env keys)
  recompute_affected_kept [] = Keeps-pure tt
  recompute_affected_kept (key ∷ keys) =
      Keeps-bind _ _ (Keeps-on_db R Q _ (Keeps-list_closed R))
        λ closed. Keeps-recompute_all (keep (names_position (key ∷ keys)) closed)

  backfill_missing_kept :
      (since until : Datetime) (orders : List OrderRecord)
      → Keeps (InDesk R Q) (Commissions.backfill_missing env since until orders)
  backfill_missing_kept since until [] = Keeps-pure 0
  backfill_missing_kept since until (order ∷ orders) =
      Keeps-bind _ _ (Keeps-feed since until) λ operations.
        Keeps-bind _ _ (Keeps-on_db R Q read_clock (record { at = λ s h. h })) λ moment.
          Keeps-bind _ _ (Keeps-backfill_orders operations moment (order ∷ orders)) λ updated.
            Keeps-bind _ _ (recompute_affected_kept updated) λ _. Keeps-pure (length updated)

  pub Keeps-backfill :
      (since until : Datetime) → Keeps (InDesk R Q) (Commissions.backfill env since until)
  unfolding Commissions.backfill
  Keeps-backfill since until = Keeps-bind _ _ (Keeps-raise_if (not since.aware) value_error) λ _.
      Keeps-bind _ _ (Keeps-raise_if (not until.aware) value_error) λ _.
        Keeps-bind _ _ (Keeps-on_db R Q _ (Keeps-list_missing_commission R since until))
          (backfill_missing_kept since until)
