-- ===== src/Reconcile/Kept.antt =====
-- What `reconcile` keeps of the database and of the broker's world.
use bazarabot.Base.{not, String, List, [], ◌∷◌, ◌++◌, Option, none, some}
use bazarabot.Base.Int.{ℤ}
use bazarabot.Base.Dict.{Dict, get}
use bazarabot.Base.Exec.{Result, ok, err}
use bazarabot.Base.Exec.Keeps.{Keeps, Keeps-pure, Keeps-raise_if, Keeps-bind, keeps_rules}
use bazarabot.Models.{Adjustment, Datetime, Instrument, OperationRecord, Position, StopOrderRecord}
use bazarabot.Errors.{Error, value_error, instrument_not_found}
use bazarabot.Db.Store.{Database}
use bazarabot.Db.Preserved.{
  IsPreserved, InDb, Keeps-transaction, Keeps-modify, Keeps-alert, Keeps-adopt, Keeps-close,
  Keeps-start, Keeps-update_lots, Keeps-list_open, Keeps-list_unresolved, Keeps-settle_stop,
  Keeps-active_for_position,
}
use bazarabot.Execution.Desk.{Env}
use bazarabot.Execution.Kept.{IsQuiet, InDesk, Leads-on_broker, Keeps-on_db, told_kept}
use bazarabot.Reconcile.Sales
use bazarabot.Reconcile.Sales.{ResolvedSale}
use bazarabot.Reconcile.Holdings
use bazarabot.Reconcile.Stops
use bazarabot.Reconcile.Run

module _ (R : Database → Type 0) (kept : IsPreserved R) where
  pub settle_standing_kept :
      (at : Datetime) (standing : Option StopOrderRecord)
      → Keeps (InDb R) (Sales.settle_standing at standing)
  settle_standing_kept at none = Keeps-pure tt
  settle_standing_kept at (some standing) = search (keeps_rules, Keeps-settle_stop R kept)

  Keeps-book_sale :
      (position : Position) (sale : ResolvedSale) → Keeps (InDb R) (Sales.book_sale position sale)
  unfolding Sales.book_sale
  Keeps-book_sale position sale =
      search
        (
          keeps_rules,
          Keeps-close R kept,
          Keeps-start R kept,
          Keeps-alert R,
          Keeps-active_for_position R,
          settle_standing_kept,
        )
        depth 12

  Keeps-persist :
      (moment : Datetime) (adjustments : List Adjustment)
      → Keeps (InDb R) (Run.persist moment adjustments)
  unfolding Run.persist
  Keeps-persist moment adjustments =
      Keeps-transaction R _ (Keeps-modify R _ (λ s h. kept.reconciliations _ _ h))

module _ {W : Type 0} (env : Env W) (R : Database → Type 0) (kept : IsPreserved R) (Q : W → Type 0)
    (quiet : IsQuiet env.broker Q) where
  book_or_report_kept :
      (position : Position) (sale : Option ResolvedSale)
      → Keeps (InDesk R Q) (Sales.book_or_report env position sale)
  book_or_report_kept position none = search (keeps_rules, told_kept R kept Q) depth 9
  book_or_report_kept position (some sale) =
      Keeps-on_db R Q _ (Keeps-book_sale R kept position sale)

  close_by_feed_kept :
      (position : Position) (operations : Option (List OperationRecord))
      → Keeps (InDesk R Q) (Sales.close_by_feed env position operations)
  close_by_feed_kept position none = search (keeps_rules, told_kept R kept Q) depth 9
  close_by_feed_kept position (some operations) = book_or_report_kept position _

  Keeps-close_externally :
      (position : Position) (moment : Datetime)
      → Keeps (InDesk R Q) (Sales.close_externally env position moment)
  unfolding Sales.close_externally
  Keeps-close_externally position moment =
      search (keeps_rules, Leads-on_broker R Q Q, quiet.get_operations, close_by_feed_kept) depth 9

  Keeps-adjust_lots :
      (position : Position) (lots : ℤ) → Keeps (InDesk R Q) (Holdings.adjust_lots env position lots)
  unfolding Holdings.adjust_lots
  Keeps-adjust_lots position lots =
      search (keeps_rules, Keeps-on_db R Q, Keeps-update_lots R kept, Keeps-alert R) depth 9

  Keeps-adopt_holding :
      (holding : Position) (moment : Datetime) (key : String)
      → Keeps (InDesk R Q) (Holdings.adopt_holding env holding moment key)
  unfolding Holdings.adopt_holding
  Keeps-adopt_holding holding moment key =
      search
        (
          keeps_rules,
          Leads-on_broker R Q Q,
          quiet.get_instrument,
          Keeps-on_db R Q,
          Keeps-adopt R kept,
          Keeps-alert R,
        )
        depth 9

  Keeps-report_foreign :
      (holding : Position) → Keeps (InDesk R Q) (Holdings.report_foreign env holding)
  unfolding Holdings.report_foreign
  Keeps-report_foreign holding = search (keeps_rules, Keeps-on_db R Q, Keeps-alert R) depth 9

  match_holding_kept :
      (now : Datetime) (position : Position) (holding : Option Position)
      → Keeps (InDesk R Q) (Holdings.match_holding env now position holding)
  match_holding_kept now position none = search (keeps_rules, Keeps-close_externally) depth 9
  match_holding_kept now position (some holding) = search (keeps_rules, Keeps-adjust_lots) depth 9

  Keeps-match_all :
      (now : Datetime) (at_broker here : Dict Position)
      → Keeps (InDesk R Q) (Holdings.match_all env now at_broker here)
  unfolding Holdings.match_all
  Keeps-match_all now at_broker [] = Keeps-pure []
  Keeps-match_all now at_broker ((ticker, position) ∷ here) =
      Keeps-bind _ _ (match_holding_kept now position (get ticker at_broker))
        λ made. Keeps-bind _ _ (Keeps-match_all now at_broker here) λ others. Keeps-pure _

  Keeps-recognising_orders :
      (unknown : List Position) → Keeps (InDesk R Q) (Holdings.recognising_orders env unknown)
  unfolding Holdings.recognising_orders
  Keeps-recognising_orders [] = Keeps-pure []
  Keeps-recognising_orders (holding ∷ holdings) =
      Keeps-bind _ _ (Keeps-on_db R Q _ (Keeps-list_unresolved R)) λ orders. Keeps-pure _

  recognise_kept :
      (now : Datetime) (holding : Position) (key : Option String)
      → Keeps (InDesk R Q) (Holdings.recognise env now holding key)
  recognise_kept now holding none = Keeps-report_foreign holding
  recognise_kept now holding (some key) = Keeps-adopt_holding holding now key

  Keeps-recognise_all :
      (now : Datetime) (recognised : Dict String) (unknown : List Position)
      → Keeps (InDesk R Q) (Holdings.recognise_all env now recognised unknown)
  unfolding Holdings.recognise_all
  Keeps-recognise_all now recognised [] = Keeps-pure []
  Keeps-recognise_all now recognised (holding ∷ holdings) =
      Keeps-bind _ _ (recognise_kept now holding (get holding.ticker recognised))
        λ made. Keeps-bind _ _ (Keeps-recognise_all now recognised holdings) λ others. Keeps-pure _

  increment_of_kept :
      (ticker : String) (answer : Result Error Instrument)
      → Keeps (InDesk R Q) (Stops.increment_of env ticker answer)
  increment_of_kept ticker (ok instrument) = search keeps_rules
  increment_of_kept ticker (err instrument_not_found) =
      search (keeps_rules, Keeps-on_db R Q, Keeps-alert R) depth 9
  increment_of_kept ticker (err _) = search keeps_rules

  Keeps-read_increment : (ticker : String) → Keeps (InDesk R Q) (Stops.read_increment env ticker)
  unfolding Stops.read_increment
  Keeps-read_increment ticker = record {
    at = λ d h.
        (increment_of_kept ticker _).at _
          ((Leads-on_broker R Q Q _ (quiet.get_instrument ticker)).at d h);
  }

  Keeps-price_increments :
      (tickers : List String) → Keeps (InDesk R Q) (Stops.price_increments env tickers)
  unfolding Stops.price_increments
  Keeps-price_increments [] = Keeps-pure []
  Keeps-price_increments (ticker ∷ tickers) =
      Keeps-bind _ _ (Keeps-read_increment ticker)
        λ found. Keeps-bind _ _ (Keeps-price_increments tickers) λ others. Keeps-pure _

  Keeps-judge_stops : Keeps (InDesk R Q) (Run.judge_stops env)
  unfolding Run.judge_stops
  Keeps-judge_stops = Keeps-bind _ _ (Keeps-on_db R Q _ (Keeps-list_open R)) λ opened.
      Keeps-bind _ _ (Leads-on_broker R Q Q _ quiet.list_stop_orders)
        λ stops. Keeps-bind _ _ (Keeps-price_increments _) λ increments. Keeps-pure _

  Keeps-match_holdings : (now : Datetime) → Keeps (InDesk R Q) (Run.match_holdings env now)
  unfolding Run.match_holdings
  Keeps-match_holdings now =
      Keeps-bind _ _ (Leads-on_broker R Q Q _ quiet.get_portfolio) λ portfolio.
        Keeps-bind _ _ (Keeps-on_db R Q _ (Keeps-list_open R)) λ opened.
          Keeps-bind _ _ (Keeps-match_all now _ _) λ matched.
            Keeps-bind _ _ (Keeps-recognising_orders _) λ recognised.
              Keeps-bind _ _ (Keeps-recognise_all now recognised _) λ adopted. Keeps-pure _

  pub Keeps-reconcile : (now : Datetime) → Keeps (InDesk R Q) (Run.reconcile env now)
  unfolding Run.reconcile
  Keeps-reconcile now = Keeps-bind _ _ (Keeps-raise_if (not now.aware) value_error) λ _.
      Keeps-bind _ _ (Keeps-match_holdings now) λ corrected.
        Keeps-bind _ _ Keeps-judge_stops λ found.
          Keeps-bind _ _ (Keeps-on_db R Q _ (Keeps-persist R kept now (corrected ++ found)))
            λ _. Keeps-pure _
