-- ===== src/Reconcile/Examples.antt =====
-- The reconciliation on a sale in the feed and on one stop at the exchange.
use bazarabot.Base.{◌≡◌, refl, true, [], ◌∷◌, none, some, All}
use bazarabot.Base.Int.{pos}
use bazarabot.Base.Decimal.{Decimal, leb_dec, ltb_dec, sub}
use bazarabot.Base.Dict.{Dict, get}
use bazarabot.Base.Exec.{ok}
use bazarabot.Models.{
  OperationRecord, Position, StopOrderRecord, StopOrderStatus, StopProtection, is_exchange,
}
use bazarabot.Execution.Desk.{Env, Desk}
use bazarabot.Reconcile.Stops.{
  claimed, is_mispriced, is_owned, judge_kept, keep_stop, stop_adjustments,
}
use bazarabot.Reconcile.Findings.{IsProtected, no_findings-IsProtected}
use bazarabot.Execution.Answers.{env}
use bazarabot.Samples.{at, money, holding, store, database, row_of}

abbrev protected : Position
protected = record holding { stop_protection = StopProtection.exchange; stop_order_key = some "S1" }

abbrev standing : StopOrderRecord
standing = record {
  key = "S1";
  stop_order_id = some "X1";
  position_id = 1;
  ticker = "SBER";
  lots = pos 5;
  stop_price = money 95;
  status = StopOrderStatus.active;
  created_at = at 0;
  settled_at = none;
}

abbrev increments : Dict Decimal
increments = ("SBER", money 1) ∷ []

nothing_found : stop_adjustments (protected ∷ []) (standing ∷ []) increments ≡ []
unfolding stop_adjustments keep_stop judge_kept is_mispriced sub leb_dec ltb_dec
nothing_found = refl

no_findings-IsProtected_example :
    All
      (λ p.
        is_exchange p.stop_protection ≡ true
        → IsProtected (standing ∷ []) (get p.ticker increments) p)
      (protected ∷ [])
    × All
        (λ s. is_owned (protected ∷ []) (claimed (protected ∷ []) (standing ∷ [])) s ≡ true)
        (standing ∷ [])
no_findings-IsProtected_example =
    no_findings-IsProtected (protected ∷ []) (standing ∷ []) increments nothing_found

-- Five lots of ten shares, sold at 90.
abbrev sale : OperationRecord
sale = record {
  id = "T1";
  figi = "F1";
  ticker = "SBER";
  occurred_at = at 5;
  commission = money 0;
  payment = money 4_500;
  price = some (money 90);
  quantity = some (pos 50);
  operation_type = "OPERATION_TYPE_SELL";
  state = "OPERATION_STATE_EXECUTED";
  parent_operation_id = none;
  trade_ids = [];
}

abbrev selling : Env (Unit {0})
selling = record env {
  broker = record env.broker { get_operations = λ since until w. (ok (sale ∷ []), w) };
}

abbrev desk : Desk (Unit {0})
desk = record { store = store (database [] (row_of holding ∷ [])); world = tt; keys_used = 0 }
