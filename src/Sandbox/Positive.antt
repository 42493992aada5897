-- ===== src/Sandbox/Positive.antt =====
-- The holdings of the simulated exchange: every one is of a positive number of lots.
use bazarabot.Base.{◌≡◌, false, Bool-cases, inl, inr, String, Option, none, some, arith}
use bazarabot.Base.Int.{ℤ, pos, ◌<ℤ◌, ◌+ℤ◌, ◌-ℤ◌, leb_ℤ, +ℤ_parts}
use bazarabot.Base.Decimal.{Decimal}
use bazarabot.Base.Dict.{
  Dict, get, AllValues, set-AllValues, remove-AllValues, get-AllValues, IfPresent,
}
use bazarabot.Base.Exec.{◌>>=◌}
use bazarabot.Base.Exec.Keeps.{
  Keeps, Keeps-bind, Keeps-modify, Keeps-or_raise, Keeps-raise_if, keeps_rules,
}
use bazarabot.Errors.{instrument_not_found, not_advanced}
use bazarabot.Models.{order_ok, Candle, is_buy, Instrument, OrderRecord, Side}
use bazarabot.Sandbox.Exchange.{Exchange, Holding, listed}
use bazarabot.Sandbox.Fills.{
  Sim, new_order, moment, ticker_for, checked_order, put_and_return, bought, sold, reduced,
  lots_held, move_fill, apply_fill, fill_at, post_market_order,
}

abbrev pub IsPositive : Holding → Type 0
IsPositive held = pos 0 <ℤ held.lots

abbrev pub AllHeld : Exchange → Type 0
AllHeld x = AllValues IsPositive x.holdings

lots_add :
    (held : Option Holding) (n : ℤ)
    → IfPresent IsPositive held
    → leb_ℤ n (pos 0) ≡ false
    → pos 0 <ℤ lots_held held +ℤ n
lots_add none n h k = ground (arith, +ℤ_parts (pos 0) n)
lots_add (some held) n h k = ground (arith, +ℤ_parts held.lots n)

bought-AllValues :
    (figi : String) (lots : ℤ) (price : Decimal) (holdings : Dict Holding)
    → leb_ℤ lots (pos 0) ≡ false
    → AllValues IsPositive holdings
    → AllValues IsPositive (bought figi lots price holdings)
bought-AllValues figi lots price holdings p h =
    set-AllValues IsPositive figi _ holdings
      (lots_add (get figi holdings) lots (get-AllValues IsPositive figi holdings h) p) h

lots_left : (a b : ℤ) → leb_ℤ (a -ℤ b) (pos 0) ≡ false → pos 0 <ℤ a -ℤ b
lots_left a b h = ground arith

pub reduced-AllValues :
    (figi : String) (lots : ℤ) (held : Option Holding) (holdings : Dict Holding)
    → AllValues IsPositive holdings
    → AllValues IsPositive (reduced figi lots held holdings)
reduced-AllValues figi lots none holdings h = h
reduced-AllValues figi lots (some held) holdings h =
    elim (Bool-cases (leb_ℤ (held.lots -ℤ lots) (pos 0))) [
      | inl e ↦ rw e (remove-AllValues IsPositive figi holdings h)
      | inr e ↦ rw e (set-AllValues IsPositive figi _ holdings (lots_left held.lots lots e) h)
    ]

pub sold-AllValues :
    (figi : String) (lots : ℤ) (holdings : Dict Holding)
    → AllValues IsPositive holdings
    → AllValues IsPositive (sold figi lots holdings)
sold-AllValues figi lots holdings h = reduced-AllValues figi lots (get figi holdings) holdings h

move_fill-AllHeld :
    (order : OrderRecord) (price turnover fee : Decimal) (x : Exchange)
    → leb_ℤ order.lots (pos 0) ≡ false
    → AllHeld x
    → AllHeld (move_fill order price turnover fee x)
unfolding move_fill
move_fill-AllHeld order price turnover fee x p h = elim (Bool-cases (is_buy order.side)) [
  | inl e ↦ rw e (bought-AllValues order.figi order.lots price x.holdings p h)
  | inr e ↦ rw e (sold-AllValues order.figi order.lots x.holdings h)
]

pub Keeps-moment : {P : Exchange → Type 0} → Keeps P moment
Keeps-moment {P = P} = record { at = λ x h. (Keeps-or_raise {P = P} x.now not_advanced).at x h }

pub Keeps-ticker_for : {P : Exchange → Type 0} (figi : String) → Keeps P (ticker_for figi)
Keeps-ticker_for {P = P} figi = record {
  at = λ x h. (Keeps-or_raise {P = P} (listed figi x) instrument_not_found).at x h;
}

pub Keeps-checked_order : {P : Exchange → Type 0} (o : OrderRecord) → Keeps P (checked_order o)
Keeps-checked_order o = search keeps_rules

-- The record that was checked is the one that the rest is given.
pub Keeps-checked_then :
    {B : Type 0} {P : Exchange → Type 0} (o : OrderRecord) (f : OrderRecord → Sim B)
    → Keeps P (f o)
    → Keeps P (checked_order o >>= f)
Keeps-checked_then o f k = elim (Bool-cases (order_ok o)) [
  | inl e ↦ rw e (record { at = λ x h. k.at x h })
  | inr e ↦ rw e (record { at = λ x h. h })
]

Keeps-apply_fill :
    (order : OrderRecord) (price : Decimal) (instrument : Instrument)
    → leb_ℤ order.lots (pos 0) ≡ false
    → Keeps AllHeld (apply_fill order price instrument)
unfolding apply_fill
Keeps-apply_fill order price instrument p =
    search (keeps_rules, Keeps-modify, move_fill-AllHeld, Keeps-moment, Keeps-checked_order, p)

pub Keeps-put_and_return : (o : OrderRecord) → Keeps AllHeld (put_and_return o)
Keeps-put_and_return o = record { at = λ x h. h }

Keeps-fill_at :
    (order : OrderRecord) (instrument : Instrument) (bar : Option Candle)
    → leb_ℤ order.lots (pos 0) ≡ false
    → Keeps AllHeld (fill_at order instrument bar)
Keeps-fill_at order instrument none p = Keeps-put_and_return order
Keeps-fill_at order instrument (some bar) p =
    search (keeps_rules, Keeps-apply_fill, Keeps-put_and_return, p)

-- With `lots` above zero the guard at the top passes.
pub Keeps-post_market_order :
    (key figi : String) (side : Side) (lots : ℤ)
    → Keeps AllHeld (post_market_order key figi side lots)
unfolding post_market_order
Keeps-post_market_order key figi side lots = elim (Bool-cases (leb_ℤ lots (pos 0))) [
  | inl e ↦ rw e (record { at = λ x h. h })
  | inr e ↦ Keeps-bind _ _ (Keeps-raise_if _ _) λ _. Keeps-bind _ _ (Keeps-ticker_for figi) λ found.
      Keeps-bind _ _ Keeps-moment λ at.
        Keeps-checked_then (new_order key _ figi side lots at) _
          (search (keeps_rules, Keeps-fill_at, e) depth 9)
]
