-- ===== src/Strategies/Averages.antt =====
-- zarabot/strategies/rsi_reversion.py and ma_crossover.py: the strategies on averages of closes.
use bazarabot.Base.{
  ◌≡◌, ◌⊎◌, refl, ◌≤◌, ℕ, suc, Bool, true, false, ◌&&◌, Bool-cases, inl, inr, String, List, [], ◌∷◌,
  Option, none, some, any, keep, length, ltb, ltb→le, arith, if◌then◌else◌,
}
use bazarabot.Base.Int.{pos}
use bazarabot.Base.Decimal.{Decimal, add, sub, of_int, sum, leb_dec, ltb_dec}
use bazarabot.Base.Decimal.Quotient.{quotient, fitting_places, round_div}
use bazarabot.Base.Exec.{Result, ok}
use bazarabot.Models.{Candle, Datetime, Signal}
use bazarabot.Errors.{Error}
use bazarabot.Strategies.{last_n, but_last, last, is_flat, is_zero, buy}

abbrev pub closes_of : List Candle → List Decimal
closes_of [] = []
closes_of (c ∷ cs) = c.close ∷ closes_of cs

-- `[closes[i] - closes[i - 1] for i in range(1, len(closes))]`
abbrev pub changes : List Decimal → List Decimal
changes [] = []
changes (a ∷ []) = []
changes (a ∷ b ∷ rest) = sub b a ∷ changes (b ∷ rest)

abbrev pub nothing : Decimal
nothing = of_int (pos 0)

abbrev pub is_gain : Decimal → Bool
is_gain c = ltb_dec nothing c

abbrev pub is_loss : Decimal → Bool
is_loss c = ltb_dec c nothing

-- `-c for c in window if c < 0`
abbrev pub losses : List Decimal → List Decimal
losses [] = []
losses (c ∷ cs) = if is_loss c then sub nothing c ∷ losses cs else losses cs

-- `sum(xs, Decimal(0)) / Decimal(n)`
abbrev pub mean_of : ℕ → List Decimal → Decimal
mean_of n xs = quotient (sum xs) (of_int (pos n))

-- From the average gain and the average loss.
abbrev pub strength : Decimal → Decimal → Option Decimal
strength gain loss =
    if is_zero gain && is_zero loss
    then none
    else if is_zero loss
    then some (of_int (pos 100))
    else some (
        sub (of_int (pos 100))
          (quotient (of_int (pos 100)) (add (of_int (pos 1)) (quotient gain loss))))

-- `_rsi`
unfoldable pub relative_strength : List Decimal → ℕ → Option Decimal
relative_strength closes period =
    let window = last_n period (changes closes) in
    if ltb (length closes) (suc period)
    then none
    else strength (mean_of period (keep is_gain window)) (mean_of period (losses window))

abbrev pub buy_oversold :
    String → Datetime → Option Candle → Option Decimal → Result Error (Option Signal)
buy_oversold ticker now bar none = ok none
buy_oversold ticker now bar (some rsi) =
    if leb_dec (of_int (pos 30)) rsi then ok none else buy "rsi_reversion" ticker now bar

-- `RSIReversion.evaluate`
unfoldable pub evaluate_rsi : String → List Candle → Datetime → Result Error (Option Signal)
evaluate_rsi ticker candles now =
    if ltb (length candles) 15
    then ok none
    else if is_flat candles
    then ok none
    else buy_oversold ticker now (last candles) (relative_strength (closes_of candles) 14)

-- `_sma`
abbrev pub moving_average : List Decimal → ℕ → Decimal
moving_average closes period = mean_of period (last_n period closes)

-- `fast_prev <= slow_prev and fast_now > slow_now`
unfoldable pub crosses : List Decimal → Bool
crosses closes =
    let prev = but_last closes in
    leb_dec (moving_average prev 40) (moving_average prev 80)
    && ltb_dec (moving_average closes 80) (moving_average closes 40)

-- `MovingAverageCrossover.evaluate`
unfoldable pub evaluate_crossover : String → List Candle → Datetime → Result Error (Option Signal)
evaluate_crossover ticker candles now =
    if ltb (length candles) 81
    then ok none
    else if is_flat candles
    then ok none
    else if crosses (closes_of candles)
    then buy "ma_crossover" ticker now (last candles)
    else ok none

no_losses : (window : List Decimal) → any is_loss window ≡ false → losses window ≡ []
no_losses [] h = refl
no_losses (c ∷ cs) h = ground (arith, no_losses cs)

-- Without a loss the strength is a hundred, or there is none.
strength_without_loss :
    (ticker : String) (now : Datetime) (bar : Option Candle) (gain : Decimal)
    → buy_oversold ticker now bar (strength gain (mean_of 14 [])) ≡ ok none
unfolding quotient leb_dec ltb_dec fitting_places round_div
strength_without_loss ticker now bar gain = elim (Bool-cases (is_zero gain)) [
  | inl e ↦ rw e refl
  | inr e ↦ rw e refl
]

no_fall :
    (ticker : String) (now : Datetime) (bar : Option Candle) (closes : List Decimal)
    → any is_loss (last_n 14 (changes closes)) ≡ false
    → buy_oversold ticker now bar (relative_strength closes 14) ≡ ok none
unfolding relative_strength
no_fall ticker now bar closes h = elim (Bool-cases (ltb (length closes) 15)) [
  | inl e ↦ rw e refl
  | inr e ↦
      rw (e, no_losses (last_n 14 (changes closes)) h)
        (strength_without_loss ticker now bar
          (mean_of 14 (keep is_gain (last_n 14 (changes closes)))))
]

-- Where the RSI strategy gives a signal there are at least fifteen bars, and one of the last
-- fourteen changes of the close is a fall.
pub evaluate_rsi_fell :
    (ticker : String) (candles : List Candle) (now : Datetime) (signal : Signal)
    → evaluate_rsi ticker candles now ≡ ok (some signal)
    → (15 ≤ length candles) × (any is_loss (last_n 14 (changes (closes_of candles))) ≡ true)
unfolding evaluate_rsi
evaluate_rsi_fell ticker candles now signal h = elim (Bool-cases (ltb (length candles) 15)) [
  | inl e ↦ absurd (cc (rw e at h))
  | inr e ↦ (
    ltb→le (length candles) 15 e,
    fell e (Bool-cases (any is_loss (last_n 14 (changes (closes_of candles))))),
  )
]
  where
    fell :
        ltb (length candles) 15 ≡ false
        → (any is_loss (last_n 14 (changes (closes_of candles))) ≡ true)
          ⊎ (any is_loss (last_n 14 (changes (closes_of candles))) ≡ false)
        → any is_loss (last_n 14 (changes (closes_of candles))) ≡ true
    fell e (inl f) = f
    fell e (inr f) = absurd (
        silent e (Bool-cases (is_flat candles))
          (no_fall ticker now (last candles) (closes_of candles) f))
      where
        silent :
            ltb (length candles) 15 ≡ false
            → (is_flat candles ≡ true) ⊎ (is_flat candles ≡ false)
            → buy_oversold ticker now (last candles) (relative_strength (closes_of candles) 14)
              ≡ ok none
            → ⊥
        silent e (inl g) k = cc (rw (e, g) at h)
        silent e (inr g) k = cc (rw (e, g) at h, k)
