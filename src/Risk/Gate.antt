-- ===== src/Risk/Gate.antt =====
-- zarabot/risk/gate.py: one deterministic rejection reason, or approved lots.
pub mod Decision
pub mod Exposure
use bazarabot.Base.{
  Bool, true, false, not, String, ◌==◌, List, map, Option, none, some, any, length, if◌then◌else◌,
}
use bazarabot.Base.Int.{ℤ, pos, leb_ℤ, ltb_ℤ}
use bazarabot.Base.Decimal.{Decimal, of_int, sub, mul, ltb_dec, sum}
use bazarabot.Models.{
  Instrument, PortfolioState, Position, RejectionReason, RiskDecision, Signal, is_buy,
}
use bazarabot.Config.{Config}
use bazarabot.Risk.Sizing.{lot_cost, size_position}

-- `_TRADING`
abbrev pub trading : String
trading = "NORMAL_TRADING"

-- `_reject`
abbrev pub reject : RejectionReason → RiskDecision
reject reason = record { approved = false; lots = none; reason = some reason }

-- `_approve`
abbrev pub approve : ℤ → RiskDecision
approve lots = record { approved = true; lots = some lots; reason = none }

abbrev pub position_cost : Position → Decimal
position_cost p = mul (mul (of_int p.lots) (of_int p.lot_size)) p.entry_price

-- `_open_cost`: the summed entry cost of the open portfolio.
abbrev pub open_cost : PortfolioState → Decimal
open_cost state = sum (map position_cost state.positions)

abbrev pub holds_ticker : String → List Position → Bool
holds_ticker ticker = any (λ p. p.ticker == ticker)

-- The lots that an entry may have, sized by the settings and the portfolio.
abbrev pub entry_lots : Signal → PortfolioState → Instrument → Config → ℤ
entry_lots signal state instrument config =
    size_position signal.reference_price instrument config.allocated_capital state.cash
      config.position_size_pct (open_cost state) config.cash_reserve_pct

abbrev pub approve_lots : ℤ → RiskDecision
approve_lots lots = if ltb_ℤ (pos 0) lots then approve lots else reject RejectionReason.zero_lots

-- The gate ignores the time of the call.
unfoldable pub check :
    Signal → PortfolioState → Instrument → Bool → Bool → Bool → Config → RiskDecision
check signal state instrument cooldown_active session_open halted config =
    if halted
    then reject RejectionReason.halted
    else if not session_open
    then reject RejectionReason.session_closed
    else if not (instrument.trading_status == trading)
    then reject RejectionReason.instrument_not_trading
    else if holds_ticker signal.ticker state.positions
    then reject RejectionReason.duplicate_ticker
    else if leb_ℤ config.max_open_positions (pos (length state.positions))
    then reject RejectionReason.max_positions
    else if cooldown_active
    then reject RejectionReason.cooldown_active
    else if ltb_dec state.cash (lot_cost instrument signal.reference_price)
    then reject RejectionReason.insufficient_cash
    else if ltb_dec (sub config.allocated_capital (open_cost state))
        (lot_cost instrument signal.reference_price)
    then reject RejectionReason.portfolio_exposure
    else if not (is_buy signal.side)
    then reject RejectionReason.zero_lots
    else approve_lots (entry_lots signal state instrument config)
