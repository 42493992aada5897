-- ===== src/Halt/Examples.antt =====
-- A manual halt, a repeated one, and a resume.
use bazarabot.Base.{true, ◌≡◌, refl, some, none, []}
use bazarabot.Models.{HaltReason, HaltState}
use bazarabot.Db.Store.{Store}
use bazarabot.Halt.{halt}
use bazarabot.Halt.Severity.{in_force, worst, halt-in_force}
use bazarabot.Samples.{at, database, store}

abbrev stopped : HaltState
stopped = record {
  halted = true;
  reason = some HaltReason.manual;
  detail = some "by hand";
  halted_at = some (at 1);
  resumed_at = none;
  resumed_by = none;
}

abbrev stopped_store : Store
stopped_store = store (record (database [] []) { halt_state = some stopped })

halt-in_force_example :
    (in_force (halt HaltReason.daily_loss_limit "5%" (at 2) stopped_store).1.db.halt_state
      ≡ some (worst HaltReason.daily_loss_limit (some HaltReason.manual)))
    × (stopped.halted ≡ true
        → (after : HaltState) × ((halt HaltReason.daily_loss_limit "5%"
              (at 2)
              stopped_store).1.db.halt_state
            ≡ some after)
          × (after.halted ≡ true)
          × (after.halted_at ≡ stopped.halted_at))
halt-in_force_example =
    halt-in_force HaltReason.daily_loss_limit "5%" (at 2) stopped_store stopped refl refl refl
