-- ===== src/App/Examples.antt =====
-- A stop that is gone from the broker's list, without an execution that the broker reports.
use bazarabot.Base.{◌≡◌, refl, false, [], ◌∷◌, some}
use bazarabot.Models.{Position, StopProtection}
use bazarabot.Execution.Answers.{env}
use bazarabot.Execution.Desk.{Desk}
use bazarabot.App.Executions.{close_executed}
use bazarabot.App.Confirmed.{close_executed_needs_fill}
use bazarabot.Samples.{database, holding, row_of, store}

abbrev on_stop : Position
on_stop = record holding { stop_protection = StopProtection.exchange; stop_order_key = some "S1" }

abbrev held : Desk (Unit {0})
held = record { store = store (database [] (row_of on_stop ∷ [])); world = tt; keys_used = 0 }

close_executed_needs_fill_example :
    (close_executed env (λ t. t) 120 false (on_stop ∷ []) held).1.store.db ≡ held.store.db
close_executed_needs_fill_example =
    close_executed_needs_fill env (λ t. t) 120 false (on_stop ∷ []) held (λ since until w. refl)
