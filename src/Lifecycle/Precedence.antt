-- ===== src/Lifecycle/Precedence.antt =====
-- `evaluate` of zarabot/lifecycle/exits.py against a description of the triggers one by one.
use bazarabot.Base.{
  inl, inr, refl, ◌⊎◌, ℕ, ◌≤◌, ◌<◌, ◌+◌, Bool, true, false, ◌&&◌, ◌≡◌, ◌↔◌, Option, none, some,
  arith,
}
use bazarabot.Base.Decimal.{Decimal, Lt, leb_dec}
use bazarabot.Base.Decimal.Order.{leb→Lt, Lt→leb}
use bazarabot.Base.Int.{pos, ◌≤ℤ◌}
use bazarabot.Base.Exec.{ok}
use bazarabot.Models.{
  Datetime, ExitTrigger, Position, SessionInfo, StopProtection, in_closing_window, minutes,
}
use bazarabot.Config.{Config}
use bazarabot.Lifecycle.{local_stop, held_long_enough, evaluate}

-- Stop before target before age.
abbrev pub precedence : ExitTrigger → ℕ
precedence ExitTrigger.stop_loss = 0
precedence ExitTrigger.take_profit = 1
precedence ExitTrigger.max_age = 2
precedence ExitTrigger.external = 3

module _ (position : Position) (price : Decimal) (now : Datetime) (session : SessionInfo)
    (trading_days_open : Option ℕ) (config : Config) where
  -- When each trigger would close the position, whatever the others say.
  abbrev pub fires : ExitTrigger → Bool
  fires ExitTrigger.stop_loss = local_stop position price
  fires ExitTrigger.take_profit = leb_dec position.target_price price
  fires ExitTrigger.max_age =
      held_long_enough trading_days_open config && in_closing_window session now 15
  fires ExitTrigger.external = false

  -- The trigger that is returned is one that fires, and none of an earlier precedence fires.
  pub evaluate_first_trigger :
      (t u : ExitTrigger)
      → evaluate position price now session trading_days_open config ≡ ok (some t)
      → (fires t ≡ true) × (precedence u < precedence t → fires u ≡ false)
  unfolding evaluate
  evaluate_first_trigger ExitTrigger.stop_loss u h = ground arith
  evaluate_first_trigger _ u h = ground arith

  -- At a time with a timezone no trigger is returned exactly when none fires; a naive time raises.
  pub evaluate-none_iff :
      (evaluate position price now session trading_days_open config ≡ ok none)
      ↔ ((now.aware ≡ true) × ((t : ExitTrigger) → fires t ≡ false))
  unfolding evaluate
  evaluate-none_iff = (
    λ h. (ground arith, elim [ ExitTrigger.stop_loss ↦ ground arith | _ ↦ ground arith ]),
    λ (a, h).
        ground (arith, h ExitTrigger.stop_loss, h ExitTrigger.take_profit, h ExitTrigger.max_age),
  )

  -- A position whose stop stands at the exchange is never closed as a stop loss by this function.
  evaluate_exchange :
      position.stop_protection ≡ StopProtection.exchange
      → ¬ (
          evaluate position price now session trading_days_open config
          ≡ ok (some ExitTrigger.stop_loss))
  unfolding evaluate
  evaluate_exchange e = λ h. ground arith

  -- The age is known and has reached the limit, the session of a trading day ends within a quarter
  -- of an hour, the target is above the price, and no stop of the bot's own is reached.
  abbrev pub AgedOut : Type 0
  AgedOut =
      (days : ℕ) × (end_at : Datetime) × (trading_days_open ≡ some days)
      × (session.end ≡ some end_at)
      × (config.max_holding_days ≤ℤ pos days)
      × (session.is_trading_day ≡ true)
      × (now.instant < end_at.instant)
      × (end_at.instant ≤ now.instant + minutes 15)
      × Lt price position.target_price
      × ((position.stop_protection ≡ StopProtection.exchange) ⊎ Lt position.stop_price price)

  aged_out :
      (days : Option ℕ) (end_at : Option Datetime) (p : StopProtection)
      → trading_days_open ≡ days
      → session.end ≡ end_at
      → position.stop_protection ≡ p
      → evaluate position price now session trading_days_open config ≡ ok (some ExitTrigger.max_age)
      → AgedOut
  unfolding evaluate in_closing_window
  aged_out none _ p d e x h = ground arith
  aged_out (some days) none p d e x h = ground arith
  aged_out (some days) (some end_at) StopProtection.exchange d e x h = (
    days,
    end_at,
    d,
    e,
    ground arith,
    ground arith,
    ground arith,
    ground arith,
    leb→Lt position.target_price price (ground arith),
    inl x,
  )
  aged_out (some days) (some end_at) StopProtection.local d e x h = (
    days,
    end_at,
    d,
    e,
    ground arith,
    ground arith,
    ground arith,
    ground arith,
    leb→Lt position.target_price price (ground arith),
    inr (leb→Lt price position.stop_price (ground arith)),
  )

  -- At a time with a timezone MAX_AGE is returned exactly when the position is aged out: on a
  -- trading day with a known end of the session, in its last quarter of an hour, with an age that is
  -- known and has reached the limit, below the target, and with no stop of the bot's own reached.
  pub evaluate_max_age_iff :
      now.aware ≡ true
      → (evaluate position price now session trading_days_open config
          ≡ ok (some ExitTrigger.max_age))
        ↔ AgedOut
  unfolding evaluate in_closing_window
  evaluate_max_age_iff aware = (
    aged_out trading_days_open session.end position.stop_protection refl refl refl,
    λ (days, end_at, d, e, old, day, before, near, target, stop).
        returned days end_at d e old day before near target stop,
  )
    where
      returned :
          (days : ℕ) (end_at : Datetime)
          → trading_days_open ≡ some days
          → session.end ≡ some end_at
          → config.max_holding_days ≤ℤ pos days
          → session.is_trading_day ≡ true
          → now.instant < end_at.instant
          → end_at.instant ≤ now.instant + minutes 15
          → Lt price position.target_price
          → (position.stop_protection ≡ StopProtection.exchange) ⊎ Lt position.stop_price price
          → evaluate position price now session trading_days_open config
            ≡ ok (some ExitTrigger.max_age)
      returned days end_at d e old day before near target (inl x) =
          ground (arith, Lt→leb price position.target_price target)
      returned days end_at d e old day before near target (inr x) =
          ground
            (arith, Lt→leb price position.target_price target, Lt→leb position.stop_price price x)
