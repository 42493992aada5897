-- ===== src/Halt.antt =====
-- zarabot/state/halt.py: the sole owner of the persisted halt flag. Log records are not modelled.
pub mod Severity
mod Examples
use bazarabot.Base.{ℕ, Bool, true, false, not, String, Option, none, some, leb, if◌then◌else◌}
use bazarabot.Base.Exec.{Result, ok, pure, gets, modify, raise_if, ◌>>=◌, ◌>>◌}
use bazarabot.Models.{Datetime, HaltReason, HaltState}
use bazarabot.Errors.{value_error}
use bazarabot.Db.Store.{Alert, Store, Call, alert, transaction}

-- `_SEVERITY`
abbrev pub severity : HaltReason → ℕ
severity HaltReason.manual = 1
severity HaltReason.reconciliation_mismatch = 2
severity HaltReason.daily_loss_limit = 3

unfoldable pub current : Call (Option HaltState)
current s = (ok s.db.halt_state, s)

abbrev pub is_halted_row : Option HaltState → Bool
is_halted_row none = false
is_halted_row (some state) = state.halted

-- `state is not None and state.halted`
unfoldable pub is_halted : Call Bool
is_halted s = (ok (is_halted_row s.db.halt_state), s)

-- The reason of the row, where there is one.
abbrev pub standing : Option HaltState → Option HaltReason
standing none = none
standing (some state) = state.reason

-- `standing is not None and _SEVERITY[reason] <= _SEVERITY[standing]`
abbrev pub no_stronger : HaltReason → Option HaltReason → Bool
no_stronger reason none = false
no_stronger reason (some r) = leb (severity reason) (severity r)

-- An UPDATE of the row with `id = 1`, if it is there.
abbrev pub update_halt : (HaltState → HaltState) → Option HaltState → Option HaltState
update_halt f none = none
update_halt f (some state) = some (f state)

abbrev pub set_halt : (HaltState → HaltState) → Store → Store
set_halt f s = record s { db = record s.db { halt_state = update_halt f s.db.halt_state } }

abbrev pub replaced : HaltReason → String → HaltState → HaltState
replaced reason detail state = record state { reason = some reason; detail = some detail }

abbrev pub begun : HaltReason → String → Datetime → HaltState → HaltState
begun reason detail at state = record state {
  halted = true;
  reason = some reason;
  detail = some detail;
  halted_at = some at;
  resumed_at = none;
  resumed_by = none;
}

abbrev pub cleared : String → Datetime → HaltState → HaltState
cleared actor at state = record state {
  halted = false;
  resumed_at = some at;
  resumed_by = some actor;
}

-- A halt that stands is replaced for a strictly more severe reason, with an alert.
abbrev pub escalate : HaltReason → String → Option HaltState → Call (Unit {0})
escalate reason detail row = if no_stronger reason (standing row) then pure tt else do
  transaction (modify (set_halt (replaced reason detail)))
  alert (Alert.halt_escalated (standing row) reason detail)

-- What `halt` does on finding the row.
abbrev pub halt_row : HaltReason → String → Datetime → Option HaltState → Call (Unit {0})
halt_row reason detail at row =
    if is_halted_row row
    then escalate reason detail row
    else transaction (modify (set_halt (begun reason detail at)))

unfoldable pub halt : HaltReason → String → Datetime → Call (Unit {0})
halt reason detail at = do
  raise_if (not at.aware) value_error
  row ← gets (λ s. s.db.halt_state)
  halt_row reason detail at row

-- What `resume` does on finding the row.
abbrev pub resume_row : String → Datetime → Option HaltState → Call Bool
resume_row actor at row =
    if is_halted_row row
    then (do transaction (modify (set_halt (cleared actor at))); pure true)
    else pure false

unfoldable pub resume : String → Datetime → Call Bool
resume actor at = do
  raise_if (not at.aware) value_error
  row ← gets (λ s. s.db.halt_state)
  resume_row actor at row
