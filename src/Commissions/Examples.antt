-- ===== src/Commissions/Examples.antt =====
-- An order with one execution, an hour old, and a feed without fees.
use bazarabot.Base.{All, ◌≡◌, refl, true, ◌≤◌, ◌+◌, String, List, [], ◌∷◌, some, none}
use bazarabot.Base.Int.{pos}
use bazarabot.Base.Decimal.{of_int}
use bazarabot.Models.{OperationRecord, minutes}
use bazarabot.Commissions.{is_trade, from_feed}
use bazarabot.Commissions.Measured.{written_off_settled}
use bazarabot.Samples.{at, money}

abbrev trade : String → OperationRecord
trade id = record {
  id = "O1";
  figi = "F1";
  ticker = "SBER";
  occurred_at = at 60_000_000;
  commission = money 0;
  payment = money 500;
  price = some (money 100);
  quantity = some (pos 5);
  operation_type = "SELL";
  state = "EXECUTED";
  parent_operation_id = none;
  trade_ids = id ∷ [];
}

abbrev operations : List OperationRecord
operations = trade "T2" ∷ trade "T1" ∷ []

abbrev executions : List String
executions = "T1" ∷ []

an_hour_later : from_feed executions operations (at (minutes 61)) ≡ some (money 0)
an_hour_later = refl

written_off_settled_example :
    (money 0 ≡ of_int (pos 0))
    × All
        (λ i.
          is_trade executions i ≡ true
          → i.occurred_at.instant + minutes 5 ≤ (at (minutes 61)).instant)
        operations
written_off_settled_example =
    written_off_settled executions operations (at (minutes 61)) (money 0) refl an_hour_later
