-- ===== src/Db/Signals.antt =====
-- zarabot/db/signals.py: every signal with its risk decision. Timestamps are compared as instants,
-- where SQLite compares their UTC texts.
pub mod RoundTrip
use bazarabot.Base.{
  ℕ, Bool, true, false, ◌&&◌, List, [], ◌∷◌, ◌++◌, Option, none, some, keep, sort_by, leb,
  if◌then◌else◌,
}
use bazarabot.Base.Exec.{Result, ok, err, pure, modify, catch}
use bazarabot.Models.{Datetime, Date, RiskDecision, Side, Signal, risk_decision_ok, signal_ok}
use bazarabot.Errors.{Error, value_error, is_database}
use bazarabot.Db.Store.{Store, Call, transaction}

-- The columns `decision`, `rejection_reason` and `lots` of a row.
abbrev pub stored_decision : RiskDecision → RiskDecision
stored_decision d =
    if d.approved
    then record { approved = true; lots = d.lots; reason = none }
    else record { approved = false; lots = none; reason = d.reason }

abbrev pub set_signals :
    (List (Signal × RiskDecision) → List (Signal × RiskDecision)) → Store → Store
set_signals f s = record s { db = record s.db { signals = f s.db.signals } }

-- `record`: a failed write is logged and goes no further.
unfoldable pub record_signal : Signal → RiskDecision → Call (Unit {0})
record_signal signal decision =
    catch is_database
      (transaction (modify (set_signals (λ rows. rows ++ (signal, stored_decision decision) ∷ []))))
      (λ e. pure tt)

-- `_row_to_pair`: the side is not stored, and every signal is read back as a purchase.
abbrev pub read_signal : Signal → Signal
read_signal signal = record signal { side = Side.buy }

abbrev pub row_to_pair : Signal × RiskDecision → Result Error (Signal × RiskDecision)
row_to_pair (signal, decision) =
    if signal_ok signal && risk_decision_ok decision
    then ok (read_signal signal, decision)
    else err value_error

-- A row's pair in front of the others', if every row can be read.
abbrev pub with_rest :
    Result Error (Signal × RiskDecision)
    → Result Error (List (Signal × RiskDecision))
    → Result Error (List (Signal × RiskDecision))
with_rest (err e) rest = err e
with_rest (ok pair) (err e) = err e
with_rest (ok pair) (ok pairs) = ok (pair ∷ pairs)

abbrev pub rows_to_pairs :
    List (Signal × RiskDecision) → Result Error (List (Signal × RiskDecision))
rows_to_pairs [] = ok []
rows_to_pairs (row ∷ rows) = with_rest (row_to_pair row) (rows_to_pairs rows)

-- `start <= day <= end`
abbrev pub in_period : (Datetime → Date) → Date → Date → Signal × RiskDecision → Bool
in_period moscow_date start end (signal, decision) =
    leb start (moscow_date signal.generated_at) && leb (moscow_date signal.generated_at) end

abbrev pub generated_first : Signal × RiskDecision → Signal × RiskDecision → Bool
generated_first (a, x) (b, y) = leb a.generated_at.instant b.generated_at.instant

unfoldable pub list_for_period :
    (Datetime → Date) → Date → Date → Call (List (Signal × RiskDecision))
list_for_period moscow_date start end s = (
  rows_to_pairs (keep (in_period moscow_date start end) (sort_by generated_first s.db.signals)),
  s,
)
