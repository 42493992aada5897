-- ===== src/Risk/Gate/Decision.antt =====
-- `check` of zarabot/risk/gate.py against a description of the reasons one by one.
use bazarabot.Base.{
  Option-cases, inl, inr, is_some, ap, ltb, ◌&&◌, ℕ, ◌<◌, Bool, true, false, not, ◌||◌, ◌==◌, ◌≡◌,
  ◌↔◌, some, arith, length,
}
use bazarabot.Base.Int.{pos, leb_ℤ}
use bazarabot.Base.Decimal.{sub, ltb_dec}
use bazarabot.Models.{
  Instrument, PortfolioState, RejectionReason, RiskDecision, Signal, is_buy, risk_decision_ok,
}
use bazarabot.Config.{Config}
use bazarabot.Risk.Sizing.{lot_cost}
use bazarabot.Risk.Gate.{trading, open_cost, holds_ticker, entry_lots, check}

-- The place of a reason in the order of priority.
abbrev pub rank : RejectionReason → ℕ
rank RejectionReason.halted = 0
rank RejectionReason.session_closed = 1
rank RejectionReason.instrument_not_trading = 2
rank RejectionReason.duplicate_ticker = 3
rank RejectionReason.max_positions = 4
rank RejectionReason.cooldown_active = 5
rank RejectionReason.insufficient_cash = 6
rank RejectionReason.portfolio_exposure = 7
rank RejectionReason.zero_lots = 8
rank RejectionReason.broker_lot_limit = 9

module _ (signal : Signal) (state : PortfolioState) (instrument : Instrument)
    (cooldown_active session_open halted : Bool) (config : Config) where
  -- When each reason speaks against the entry, whatever the others say.
  abbrev pub applies : RejectionReason → Bool
  applies RejectionReason.halted = halted
  applies RejectionReason.session_closed = not session_open
  applies RejectionReason.instrument_not_trading = not (instrument.trading_status == trading)
  applies RejectionReason.duplicate_ticker = holds_ticker signal.ticker state.positions
  applies RejectionReason.max_positions =
      leb_ℤ config.max_open_positions (pos (length state.positions))
  applies RejectionReason.cooldown_active = cooldown_active
  applies RejectionReason.insufficient_cash =
      ltb_dec state.cash (lot_cost instrument signal.reference_price)
  applies RejectionReason.portfolio_exposure =
      ltb_dec (sub config.allocated_capital (open_cost state))
        (lot_cost instrument signal.reference_price)
  applies RejectionReason.zero_lots =
      not (is_buy signal.side) || leb_ℤ (entry_lots signal state instrument config) (pos 0)
  applies RejectionReason.broker_lot_limit = false

  abbrev decision : RiskDecision
  decision = check signal state instrument cooldown_active session_open halted config

  stated :
      (r q : RejectionReason)
      → decision.reason ≡ some r
      → (applies r ≡ true) × (rank q < rank r → applies q ≡ false)
  unfolding check
  stated RejectionReason.halted q h = ground arith
  stated _ q h = ground arith

  with_reason : decision.approved ≡ false → is_some decision.reason ≡ true
  unfolding check
  with_reason h = ground arith

  -- A rejection carries a reason, the reason applies, and no reason before it in the order does.
  pub check_first_reason :
      decision.approved ≡ false
      → (r : RejectionReason) × (decision.reason ≡ some r)
        × (applies r ≡ true)
        × ((q : RejectionReason) → (ltb (rank q) (rank r) && applies q) ≡ false)
  check_first_reason h = elim (Option-cases decision.reason) [
    | inl e ↦ absurd (cc (with_reason h, ap is_some e))
    | inr (r, e) ↦ (r, e, (stated r r e).0, λ q. ground (arith, (stated r q e).1))
  ]

  -- The gate approves exactly when no reason applies.
  pub check_approved_iff : (decision.approved ≡ true) ↔ ((r : RejectionReason) → applies r ≡ false)
  unfolding check
  check_approved_iff = (
    λ h. elim [ RejectionReason.halted ↦ ground arith | _ ↦ ground arith ],
    λ h. ground (
      arith,
      h RejectionReason.halted,
      h RejectionReason.session_closed,
      h RejectionReason.instrument_not_trading,
      h RejectionReason.duplicate_ticker,
      h RejectionReason.max_positions,
      h RejectionReason.cooldown_active,
      h RejectionReason.insufficient_cash,
      h RejectionReason.portfolio_exposure,
      h RejectionReason.zero_lots,
    ),
  )

  -- Every decision is one that `RiskDecision` accepts.
  check-risk_decision_ok : risk_decision_ok decision ≡ true
  unfolding check
  check-risk_decision_ok = ground arith
