-- ===== src/Strategies/Breakout.antt =====
-- The two strategies of zarabot/strategies/momentum.py and volume_breakout.py, side by side.
use bazarabot.Base.{
  Bool-cases, inl, inr, All, ◌≡◌, refl, sym, ap, ◌∙◌, Bool, true, false, not, String, List, [], ◌∷◌,
  ◌++◌, Option, none, some, ℕ, suc, zero, ◌≤◌, ◌+◌, ◌-◌, ltb, length, length-append, arith,
  if◌then◌else◌,
}
use mathlib.Core.Option.{some-injective}
use mathlib.Core.Path.{subst}
use bazarabot.Base.Decimal.{Decimal, leb_dec, Lt, Le, ltb_dec}
use bazarabot.Base.Decimal.Order.{
  Le_refl, Le_trans, Le_of_Lt, ltb→Lt, ltb→Le, leb→Le, leb→Lt, Lt_of_Lt_Le,
}
use bazarabot.Base.Exec.{Result, ok}
use bazarabot.Models.{Candle, Datetime, Side, Signal, signal_ok}
use bazarabot.Errors.{Error}
use bazarabot.Strategies.{
  drop, last_n, but_last, last, is_flat, highest, highest_from, is_breakout, buy, lookback,
  breaks_out, evaluate_momentum, evaluate_volume,
}

module _ {ℓ} {A : Type ℓ} where
  drop-append : (xs ys : List A) (n : ℕ) → drop (length xs + n) (xs ++ ys) ≡ drop n ys
  drop-append [] ys n = ap (λ k. drop k ys) {y = n} (omega arith)
  drop-append (x ∷ xs) ys n =
      ap (λ k. drop k (x ∷ (xs ++ ys))) {y = suc (length xs + n)} (omega arith)
      ∙ drop-append xs ys n

  last_n-append : (n : ℕ) (xs ys : List A) → n ≤ length ys → last_n n (xs ++ ys) ≡ last_n n ys
  last_n-append n xs ys h =
      ap (λ k. drop k (xs ++ ys)) (omega (arith, h, length-append xs ys))
      ∙ drop-append xs ys (length ys - n)

  length-drop : (n : ℕ) (xs : List A) → length (drop n xs) ≡ length xs - n
  length-drop zero xs = omega arith
  length-drop (suc n) [] = omega arith
  length-drop (suc n) (x ∷ xs) = omega (arith, length-drop n xs)

  last_n_twice : (n : ℕ) (xs : List A) → last_n n (last_n n xs) ≡ last_n n xs
  last_n_twice n xs =
      ap (λ k. drop k (last_n n xs)) {y = 0} (omega (arith, length-drop (length xs - n) xs))

-- Both strategies read the last 21 bars and no others: older bars in front change nothing.
pub evaluate_window :
    (ticker : String) (older candles : List Candle) (now : Datetime)
    → lookback ≤ length candles
    → (evaluate_momentum ticker (older ++ candles) now ≡ evaluate_momentum ticker candles now)
      × (evaluate_volume ticker (older ++ candles) now ≡ evaluate_volume ticker candles now)
unfolding evaluate_momentum evaluate_volume
evaluate_window ticker older candles now h =
    let same = last_n-append lookback older candles h in
    let long : ltb (length candles) lookback ≡ false = ground (arith, h) in
    let longer : ltb (length (older ++ candles)) lookback ≡ false =
      ground (arith, h, length-append older candles) in
    (rw (same, long, longer) refl, rw (same, long, longer) refl)

module _ {B : Type 0} (a b c d e : Bool) (v w : Result Error (Option B)) (x : B) where
  fifth_test :
      (if a
          then ok none
          else if b
          then ok none
          else if not c
          then ok none
          else if d
          then ok none
          else if e
          then ok none
          else v)
        ≡ ok (some x)
      → (v ≡ ok (some x))
        × ((if a then ok none else if b then ok none else if c then w else ok none) ≡ w)
  fifth_test h = ground (arith, h)

module _ (strategy other ticker : String) (now : Datetime) where
  buy_renamed :
      (c : Option Candle) (g : Signal)
      → buy strategy ticker now c ≡ ok (some g)
      → buy other ticker now c ≡ ok (some (record g { strategy = other }))
  unfolding signal_ok
  buy_renamed none g h = cc
  buy_renamed (some c) g h = ground (arith, h)

-- A volume breakout is a momentum breakout with enough volume: where the first strategy buys, so
-- does the second, with a signal that differs in the name of the strategy alone.
pub volume_breakout_is_momentum :
    (ticker : String) (candles : List Candle) (now : Datetime) (g : Signal)
    → evaluate_volume ticker candles now ≡ ok (some g)
    → evaluate_momentum ticker candles now ≡ ok (some (record g { strategy = "momentum" }))
unfolding evaluate_momentum evaluate_volume
volume_breakout_is_momentum ticker candles now g h =
    let recent = last_n lookback candles in
    let again = rw (last_n_twice lookback candles) at h in
    let (bought, passed) =
      fifth_test (ltb (length candles) lookback) (is_flat recent) (breaks_out recent) _ _ _
        (buy "momentum" ticker now (last recent)) g again in
    passed ∙ buy_renamed "volume_breakout" "momentum" ticker now (last recent) g bought

-- Above each of the highs.
highest_from-Le :
    (acc : Decimal) (cs : List Candle)
    → Le acc (highest_from acc cs) × All (λ c. Le c.high (highest_from acc cs)) cs
highest_from-Le acc [] = (Le_refl acc, tt)
highest_from-Le acc (c ∷ cs) = elim (Bool-cases (ltb_dec acc c.high)) [
  | inl more ↦
      let (a, rest) = highest_from-Le c.high cs in
      let above = Le_trans acc c.high _ (Le_of_Lt acc c.high (ltb→Lt acc c.high more)) a in
      subst at (sym more) (above, (a, rest))
  | inr less ↦
      let (a, rest) = highest_from-Le acc cs in
      let above = Le_trans c.high acc _ (ltb→Le acc c.high less) a in
      subst at (sym less) (a, (above, rest))
]
  where
    at : Bool → Type 0
    at b =
        let top = highest_from (if b then c.high else acc) cs in
        Le acc top × (Le c.high top × All (λ x. Le x.high top) cs)

Lt_irrefl : (a : Decimal) → ¬ Lt a a
unfolding Lt
Lt_irrefl a h = omega (arith, h)

Lt_of_Le_Lt : (a b c : Decimal) → Le a b → Lt b c → Lt a c
Lt_of_Le_Lt a b c h k = elim (Bool-cases (leb_dec c a)) [
  | inl below ↦ absurd (Lt_irrefl b (Lt_of_Lt_Le b c b k (Le_trans c a b (leb→Le c a below) h)))
  | inr above ↦ leb→Lt c a above
]

highs_under :
    (high price : Decimal) (cs : List Candle)
    → Lt high price
    → All (λ c. Le c.high high) cs
    → All (λ c. Lt c.high price) cs
highs_under high price [] h k = tt
highs_under high price (c ∷ cs) h k =
    (Lt_of_Le_Lt c.high high price k.0 h, highs_under high price cs h k.1)

highest_below :
    (price : Decimal) (cs : List Candle) (high : Decimal)
    → highest cs ≡ some high
    → Lt high price
    → All (λ c. Lt c.high price) cs
highest_below price [] high e h = cc
highest_below price (c ∷ cs) high e h =
    let top = subst (λ d. Lt d price) (sym (some-injective (highest_from c.high cs) high e)) h in
    highs_under (highest_from c.high cs) price (c ∷ cs) top (highest_from-Le c.high cs)

broke_out :
    (top : Option Decimal) (l : Option Candle)
    → is_breakout top l ≡ true
    → (high : Decimal) × (c : Candle) × (top ≡ some high) × (l ≡ some c) × Lt high c.close
broke_out none l h = cc
broke_out (some high) none h = cc
broke_out (some high) (some c) h = (high, c, refl, refl, ltb→Lt high c.close h)

bought_at :
    (c : Candle) (strategy ticker : String) (now : Datetime) (g : Signal)
    → buy strategy ticker now (some c) ≡ ok (some g)
    → (g.reference_price ≡ c.close) × (g.side ≡ Side.buy)
unfolding signal_ok
bought_at c strategy ticker now g h = ground (arith, h)

momentum_passed :
    (a b c : Bool) (v : Result Error (Option Signal)) (g : Signal)
    → (if a then ok none else if b then ok none else if c then v else ok none) ≡ ok (some g)
    → (a ≡ false) × (c ≡ true) × (v ≡ ok (some g))
momentum_passed a b c v g h = ground (arith, h)

-- Where the momentum strategy gives a signal there are at least 21 bars, and the signal is a
-- purchase at the close of the last bar, above the high of each of the twenty bars before it.
pub momentum_above_highs :
    (ticker : String) (candles : List Candle) (now : Datetime) (g : Signal)
    → evaluate_momentum ticker candles now ≡ ok (some g)
    → (lookback ≤ length candles)
      × All (λ c. Lt c.high g.reference_price) (but_last (last_n lookback candles))
      × ((c : Candle) × (last (last_n lookback candles) ≡ some c)
          × (g.reference_price ≡ c.close)
          × (g.side ≡ Side.buy))
unfolding evaluate_momentum
momentum_above_highs ticker candles now g h =
    let recent = last_n lookback candles in
    let (long, broke, bought) =
      momentum_passed (ltb (length candles) lookback) (is_flat recent) (breaks_out recent) _ g h in
    let (high, c, top, end, above) = broke_out (highest (but_last recent)) (last recent) broke in
    let (price, side) =
      bought_at c "momentum" ticker now g
        (subst (λ l. buy "momentum" ticker now l ≡ ok (some g)) end bought) in
    (
      ground (arith, long),
      highest_below g.reference_price (but_last recent) high top
          (subst (Lt high) (sym price) above),
      (c, end, price, side),
    )
