-- ===== src/Models/Validation.antt =====
-- `__post_init__` of the dataclasses in zarabot/models.py: a constructor raises `ValueError` where
-- the test here is false. (That money is `Decimal` and dates are dates, the types say.)
use bazarabot.Base.{
  Bool, true, false, not, ◌&&◌, ℕ, ◌+◌, ◌*◌, String, ◌==◌, Option, none, some, ltb, leb, is_none,
  if◌then◌else◌,
}
use bazarabot.Base.Int.{ℤ, pos, ltb_ℤ, leb_ℤ}
use bazarabot.Base.Decimal.{Decimal, of_int, ltb_dec}
use bazarabot.Models.Enums.{StopProtection}
use bazarabot.Models.Records.{
  Signal, Datetime, Instrument, Position, OrderRecord, StopOrderRecord, SessionInfo, RiskDecision,
}

-- A check of a field that may be `None`, which is passed over.
abbrev pub if_present {ℓ} : {A : Type ℓ} → (A → Bool) → Option A → Bool
if_present p none = true
if_present p (some a) = p a

-- `_reject_naive`
abbrev pub not_naive : Datetime → Bool
not_naive d = d.aware

-- `_validate_money` on the names in `_PRICE_FIELDS`
abbrev pub not_negative : Decimal → Bool
not_negative d = not (ltb_dec d (of_int (pos 0)))

-- The names in `_LOT_COUNT_FIELDS` and in `_LOT_SIZE_FIELDS`.
abbrev pub lot_count_ok : ℤ → Bool
lot_count_ok n = not (ltb_ℤ n (pos 0))

abbrev pub lot_size_ok : ℤ → Bool
lot_size_ok n = not (leb_ℤ n (pos 0))

-- `not key` of a text that may be `None`: the empty text counts as absent.
abbrev pub is_blank : Option String → Bool
is_blank none = true
is_blank (some s) = s == ""

abbrev pub instrument_ok : Instrument → Bool
instrument_ok i =
    lot_size_ok i.lot && not_negative i.min_price_increment && not_naive i.refreshed_at

-- The protection and the key of the stop order agree.
abbrev pub protection_ok : StopProtection → Option String → Bool
protection_ok StopProtection.exchange key = not (is_blank key)
protection_ok StopProtection.local key = is_blank key

unfoldable pub signal_ok : Signal → Bool
signal_ok s = not_naive s.generated_at && not_negative s.reference_price

unfoldable pub position_ok : Position → Bool
position_ok p =
    lot_count_ok p.lots
    && lot_size_ok p.lot_size
    && not_negative p.entry_price
    && not_naive p.entry_at
    && not_negative p.stop_price
    && not_negative p.target_price
    && if_present not_negative p.exit_price
    && if_present not_naive p.exit_at
    && not (leb_ℤ p.lots (pos 0))
    && protection_ok p.stop_protection p.stop_order_key

unfoldable pub order_ok : OrderRecord → Bool
order_ok o =
    lot_count_ok o.lots
    && if_present lot_count_ok o.filled_lots
    && if_present not_negative o.filled_price
    && if_present not_negative o.commission
    && not_naive o.created_at
    && if_present not_naive o.settled_at

unfoldable pub stop_order_ok : StopOrderRecord → Bool
stop_order_ok s =
    lot_count_ok s.lots
    && not_negative s.stop_price
    && not_naive s.created_at
    && if_present not_naive s.settled_at
    && not (leb_ℤ s.lots (pos 0))

-- The lot count that an approved decision must carry.
abbrev pub approved_lots_ok : Option ℤ → Bool
approved_lots_ok none = false
approved_lots_ok (some n) = not (leb_ℤ n (pos 0))

-- `RiskDecision.__post_init__`
abbrev pub risk_decision_ok : RiskDecision → Bool
risk_decision_ok d =
    if d.approved
    then is_none d.reason && approved_lots_ok d.lots
    else not (is_none d.reason) && is_none d.lots

abbrev pub minutes : ℕ → ℕ
minutes n = n * 60_000_000

-- `end - minutes <= now < end`, the first test with the minutes on the other side.
abbrev pub ends_within : Option Datetime → Datetime → ℕ → Bool
ends_within none now mins = false
ends_within (some e) now mins =
    leb e.instant (now.instant + minutes mins) && ltb now.instant e.instant

-- `SessionInfo.in_closing_window(now, minutes)` for an aware `now`.
unfoldable pub in_closing_window : SessionInfo → Datetime → ℕ → Bool
in_closing_window s now mins = s.is_trading_day && ends_within s.end now mins
