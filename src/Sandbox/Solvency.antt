-- ===== src/Sandbox/Solvency.antt =====
-- A purchase on the simulated exchange is paid from the cash, or refused.
use bazarabot.Base.{◌≡◌, false, Bool-cases, inl, inr, String, Option, none, some}
use bazarabot.Base.Int.{ℤ, pos}
use bazarabot.Base.Decimal.{Decimal, Le, of_int}
use bazarabot.Base.Decimal.Order.{ltb→Le, Le-sub_zero}
use bazarabot.Base.Exec.{◌>>=◌}
use bazarabot.Base.Exec.Keeps.{Keeps, Keeps-bind, Keeps-raise_if, keeps_rules}
use bazarabot.Models.{Candle, Instrument, OrderRecord, Side}
use bazarabot.Sandbox.Exchange.{Exchange, slipped}
use bazarabot.Sandbox.Fills.{
  apply_fill, fill_at, is_unfunded, move_fill, new_order, moment, settled_fill, checked_order,
  post_market_order, put_and_return, turnover_of, fee_for,
}
use bazarabot.Sandbox.Positive.{
  Keeps-moment, Keeps-ticker_for, Keeps-checked_order, Keeps-checked_then,
}

abbrev pub IsSolvent : Exchange → Type 0
IsSolvent x = Le (of_int (pos 0)) x.cash

record_kept : (o : OrderRecord) → Keeps IsSolvent (put_and_return o)
record_kept o = record { at = λ x h. h }

settling_kept :
    (order : OrderRecord) (price fee : Decimal)
    → Keeps IsSolvent (
        (moment >>= λ at. checked_order (settled_fill order price fee at)) >>= λ o.
        put_and_return o)
settling_kept order price fee = search (keeps_rules, Keeps-moment, Keeps-checked_order, record_kept)

paid :
    (order : OrderRecord) (price : Decimal) (instrument : Instrument) (x : Exchange)
    → order.side ≡ Side.buy
    → is_unfunded order price instrument x ≡ false
    → IsSolvent (
        move_fill order price
          (turnover_of price order.lots instrument)
          (fee_for x (turnover_of price order.lots instrument))
          x)
unfolding move_fill
paid order price instrument x e h = rw e (Le-sub_zero x.cash _ (ltb→Le x.cash _ (rw e at h)))

bought-IsSolvent :
    (order : OrderRecord) (instrument : Instrument) (next : Option Candle)
    → order.side ≡ Side.buy
    → Keeps IsSolvent (fill_at order instrument next)
unfolding apply_fill
bought-IsSolvent order instrument none e = record_kept order
bought-IsSolvent order instrument (some bar) e = record {
  at = λ x h.
      elim (Bool-cases
        (is_unfunded order (slipped x.slippage bar.opening order.side) instrument x)) [
          | inl u ↦ rw u h
          | inr u ↦ rw u ((settling_kept order _ _).at _ (paid order _ instrument x e u))
        ];
}

purchase_kept :
    (key figi : String) (lots : ℤ) → Keeps IsSolvent (post_market_order key figi Side.buy lots)
unfolding post_market_order
purchase_kept key figi lots = Keeps-bind _ _ (Keeps-raise_if _ _) λ _.
    Keeps-bind _ _ (Keeps-ticker_for figi) λ found. Keeps-bind _ _ Keeps-moment λ at.
      Keeps-checked_then (new_order key _ figi Side.buy lots at) _
        (search (keeps_rules, bought-IsSolvent) depth 9)

-- However a purchase on the simulated exchange ends, its price and commission have not taken the
-- cash below zero.
pub post_market_order-IsSolvent :
    (key figi : String) (lots : ℤ) (x : Exchange)
    → IsSolvent x
    → IsSolvent (post_market_order key figi Side.buy lots x).1
post_market_order-IsSolvent key figi lots x h = (purchase_kept key figi lots).at x h
