-- ===== src/Lifecycle/Examples.antt =====
-- Exit evaluation of one holding.
use bazarabot.Base.{true, false, ◌≡◌, ◌↔◌, refl, some, none, ◌<◌}
use bazarabot.Base.Decimal.{leb_dec}
use bazarabot.Base.Exec.{ok}
use bazarabot.Models.{ExitTrigger, in_closing_window}
use bazarabot.Lifecycle.{evaluate}
use bazarabot.Lifecycle.Precedence.{
  fires, precedence, evaluate_first_trigger, evaluate-none_iff, AgedOut, evaluate_max_age_iff,
}
use bazarabot.Samples.{at, money, holding, session, settings}

at_target :
    evaluate holding (money 110) (at 5) session (some 1) settings
    ≡ ok (some ExitTrigger.take_profit)
unfolding evaluate leb_dec
at_target = refl

evaluate_first_trigger_example :
    (fires holding (money 110) (at 5) session (some 1) settings ExitTrigger.take_profit ≡ true)
    × (precedence ExitTrigger.stop_loss < precedence ExitTrigger.take_profit
        → fires holding (money 110) (at 5) session (some 1) settings ExitTrigger.stop_loss ≡ false)
evaluate_first_trigger_example =
    evaluate_first_trigger holding (money 110) (at 5) session (some 1) settings
      ExitTrigger.take_profit ExitTrigger.stop_loss at_target

evaluate-none_iff_example :
    (evaluate holding (money 100) (at 5) session (some 1) settings ≡ ok none) ↔ (
      ((at 5).aware ≡ true)
      × ((t : ExitTrigger) → fires holding (money 100) (at 5) session (some 1) settings t ≡ false))
evaluate-none_iff_example = evaluate-none_iff holding (money 100) (at 5) session (some 1) settings

old_enough :
    evaluate holding (money 100) (at 999_999_999) session (some 3) settings
    ≡ ok (some ExitTrigger.max_age)
unfolding evaluate leb_dec in_closing_window
old_enough = refl

evaluate_max_age_iff_example :
    (evaluate holding (money 100) (at 999_999_999) session (some 3) settings
      ≡ ok (some ExitTrigger.max_age))
    ↔ AgedOut holding (money 100) (at 999_999_999) session (some 3) settings
evaluate_max_age_iff_example =
    evaluate_max_age_iff holding (money 100) (at 999_999_999) session (some 3) settings refl
