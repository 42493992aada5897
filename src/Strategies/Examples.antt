-- ===== src/Strategies/Examples.antt =====
-- Twenty bars at 100 and one at 103; fourteen at 100 and one at 90.
use bazarabot.Base.{All, ◌≡◌, refl, ℕ, zero, suc, ◌≤◌, List, [], ◌∷◌, ◌++◌, some, arith}
use bazarabot.Base.Int.{pos, ◌*ℤ◌}
use bazarabot.Base.Decimal.{Lt, ltb_dec, leb_dec, add, sub, mul}
use bazarabot.Base.Exec.{ok}
use bazarabot.Models.{Candle, Side, Signal, signal_ok}
use bazarabot.Strategies.{but_last, last, last_n, lookback, evaluate_momentum, evaluate_volume}
use bazarabot.Base.{length, any, true}
use bazarabot.Base.Decimal.Quotient.{quotient, fitting_places, round_div}
use bazarabot.Strategies.Averages.{
  changes, closes_of, evaluate_rsi, evaluate_rsi_fell, is_loss, relative_strength,
}
use bazarabot.Strategies.Breakout.{
  evaluate_window, momentum_above_highs, volume_breakout_is_momentum,
}
use bazarabot.Samples.{at, money, buy_signal}

abbrev bar : ℕ → ℕ → Candle
bar price volume = record {
  timestamp = at 0;
  opening = money price;
  high = money (suc price);
  low = money price;
  close = money price;
  volume = pos volume;
}

abbrev bars : ℕ → List Candle
bars zero = bar 103 9 ∷ []
bars (suc n) = bar 100 2 ∷ bars n

abbrev signal : Signal
signal = record buy_signal { reference_price = money 103 }

abbrev confirmed : Signal
confirmed = record signal { strategy = "volume_breakout" }

momentum_bought : evaluate_momentum "SBER" (bars 20) (at 0) ≡ ok (some signal)
unfolding evaluate_momentum signal_ok ltb_dec leb_dec
momentum_bought = refl

volume_bought : evaluate_volume "SBER" (bars 20) (at 0) ≡ ok (some confirmed)
unfolding evaluate_volume signal_ok ltb_dec leb_dec add mul ◌*ℤ◌
volume_bought = refl

momentum_above_highs_example :
    (lookback ≤ length (bars 20))
    × All (λ c. Lt c.high signal.reference_price) (but_last (last_n lookback (bars 20)))
    × ((c : Candle) × (last (last_n lookback (bars 20)) ≡ some c)
        × (signal.reference_price ≡ c.close)
        × (signal.side ≡ Side.buy))
momentum_above_highs_example = momentum_above_highs "SBER" (bars 20) (at 0) signal momentum_bought

volume_breakout_is_momentum_example :
    evaluate_momentum "SBER" (bars 20) (at 0)
    ≡ ok (some (record confirmed { strategy = "momentum" }))
volume_breakout_is_momentum_example =
    volume_breakout_is_momentum "SBER" (bars 20) (at 0) confirmed volume_bought

evaluate_window_example :
    (evaluate_momentum "SBER" ((bar 200 1 ∷ []) ++ bars 20) (at 0)
      ≡ evaluate_momentum "SBER" (bars 20) (at 0))
    × (evaluate_volume "SBER" ((bar 200 1 ∷ []) ++ bars 20) (at 0)
        ≡ evaluate_volume "SBER" (bars 20) (at 0))
evaluate_window_example = evaluate_window "SBER" (bar 200 1 ∷ []) (bars 20) (at 0) (omega arith)

abbrev fallen : ℕ → List Candle
fallen zero = bar 90 1 ∷ []
fallen (suc n) = bar 100 1 ∷ fallen n

abbrev oversold : Signal
oversold = record buy_signal { strategy = "rsi_reversion"; reference_price = money 90 }

rsi_bought : evaluate_rsi "SBER" (fallen 14) (at 0) ≡ ok (some oversold)
unfolding evaluate_rsi relative_strength quotient fitting_places round_div signal_ok ltb_dec leb_dec
    add sub mul ◌*ℤ◌
rsi_bought = refl

evaluate_rsi_fell_example :
    (15 ≤ length (fallen 14)) × (any is_loss (last_n 14 (changes (closes_of (fallen 14)))) ≡ true)
evaluate_rsi_fell_example = evaluate_rsi_fell "SBER" (fallen 14) (at 0) oversold rsi_bought
