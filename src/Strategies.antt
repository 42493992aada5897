-- ===== src/Strategies.antt =====
-- zarabot/strategies: the two breakout strategies, momentum.py and volume_breakout.py.
pub mod Breakout
pub mod Averages
mod Examples
use bazarabot.Base.{
  ℕ, zero, suc, ◌-◌, Bool, true, false, not, ◌&&◌, String, List, [], ◌∷◌, Option, none, some,
  length, ltb, if◌then◌else◌,
}
use bazarabot.Base.Int.{pos}
use bazarabot.Base.Decimal.{Decimal, of_int, literal, mul, div_hundred, sum, ltb_dec, leb_dec}
use bazarabot.Base.Exec.{Result, ok, err}
use bazarabot.Models.{Candle, Datetime, Side, Signal, signal_ok}
use bazarabot.Errors.{Error, value_error}

module _ {ℓ} {A : Type ℓ} where
  abbrev pub drop : ℕ → List A → List A
  drop zero xs = xs
  drop (suc n) [] = []
  drop (suc n) (x ∷ xs) = drop n xs

  -- `xs[-n:]`
  abbrev pub last_n : ℕ → List A → List A
  last_n n xs = drop (length xs - n) xs

  -- `xs[:-1]`
  abbrev pub but_last : List A → List A
  but_last [] = []
  but_last (x ∷ []) = []
  but_last (x ∷ y ∷ ys) = x ∷ but_last (y ∷ ys)

  -- `xs[-1]`
  abbrev pub last : List A → Option A
  last [] = none
  last (x ∷ []) = some x
  last (x ∷ y ∷ ys) = last (y ∷ ys)

abbrev pub all_close_at : Decimal → List Candle → Bool
all_close_at price [] = true
all_close_at price (c ∷ cs) =
    leb_dec c.close price && leb_dec price c.close && all_close_at price cs

-- `len({c.close for c in recent}) == 1`: decimals of one value are one member.
abbrev pub is_flat : List Candle → Bool
is_flat [] = false
is_flat (c ∷ cs) = all_close_at c.close cs

abbrev pub highest_from : Decimal → List Candle → Decimal
highest_from acc [] = acc
highest_from acc (c ∷ cs) = highest_from (if ltb_dec acc c.high then c.high else acc) cs

-- `max(c.high for c in prior)`
abbrev pub highest : List Candle → Option Decimal
highest [] = none
highest (c ∷ cs) = some (highest_from c.high cs)

-- `last.close > prior_high`. The windows are never empty: the length is tested before.
abbrev pub is_breakout : Option Decimal → Option Candle → Bool
is_breakout none last = false
is_breakout (some high) none = false
is_breakout (some high) (some c) = ltb_dec high c.close

-- The signal on the last candle, which its own checks may refuse.
abbrev pub buy : String → String → Datetime → Option Candle → Result Error (Option Signal)
buy strategy ticker now none = ok none
buy strategy ticker now (some c) =
    let signal : Signal = record {
      ticker = ticker;
      strategy = strategy;
      side = Side.buy;
      generated_at = now;
      reference_price = c.close;
    } in
    if signal_ok signal then ok (some signal) else err value_error

-- `MomentumBreakout.lookback` and `VolumeBreakout.lookback`
abbrev pub lookback : ℕ
lookback = 21

-- The price condition on the last 21 bars, spelled the same in both modules.
abbrev pub breaks_out : List Candle → Bool
breaks_out recent = is_breakout (highest (but_last recent)) (last recent)

-- `MomentumBreakout.evaluate`
unfoldable pub evaluate_momentum : String → List Candle → Datetime → Result Error (Option Signal)
evaluate_momentum ticker candles now =
    let recent = last_n lookback candles in
    if ltb (length candles) lookback
    then ok none
    else if is_flat recent
    then ok none
    else if breaks_out recent
    then buy "momentum" ticker now (last recent)
    else ok none

abbrev pub volumes : List Candle → List Decimal
volumes [] = []
volumes (c ∷ cs) = of_int c.volume ∷ volumes cs

-- The mean of twenty volumes: division by twenty is five hundredths of the sum.
abbrev pub average_volume : List Candle → Decimal
average_volume window = div_hundred (mul (sum (volumes window)) (of_int (pos 5)))

abbrev pub is_zero : Decimal → Bool
is_zero a = leb_dec a (of_int (pos 0)) && leb_dec (of_int (pos 0)) a

-- `Decimal(last.volume) < _VOLUME_MULTIPLE * average_volume`
abbrev pub is_thin : Decimal → Option Candle → Bool
is_thin average none = true
is_thin average (some c) = ltb_dec (of_int c.volume) (mul (literal 15 1) average)

-- `VolumeBreakout.evaluate`
unfoldable pub evaluate_volume : String → List Candle → Datetime → Result Error (Option Signal)
evaluate_volume ticker candles now =
    let recent = last_n lookback candles in
    let average = average_volume (but_last (last_n lookback recent)) in
    if ltb (length candles) lookback
    then ok none
    else if is_flat recent
    then ok none
    else if not (is_breakout (highest (but_last (last_n lookback recent))) (last recent))
    then ok none
    else if is_zero average
    then ok none
    else if is_thin average (last recent)
    then ok none
    else buy "volume_breakout" ticker now (last recent)
