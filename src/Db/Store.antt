-- ===== src/Db/Store.antt =====
-- zarabot/db/connection.py and the tables of migrations/*.sql. A row is kept as the dataclass that
-- its owner reads it into; text encodings of decimals, dates and enumerations are not modelled.
-- SQLite itself is outside the program: `disk` says of each transaction to come whether SQLite
-- refuses it with `aiosqlite.Error`, and `clock` is the instant that `clock.now()` reads.
pub mod Atomicity
use bazarabot.Base.{ℕ, Bool, true, false, String, List, [], ◌∷◌, ◌++◌, Option, if◌then◌else◌}
use bazarabot.Base.Int.{ℤ}
use bazarabot.Base.Decimal.{Decimal}
use bazarabot.Base.Exec.{Exec, Result, ok, err}
use bazarabot.Models.{
  Adjustment, Datetime, Date, ExitTrigger, HaltReason, HaltState, OrderRecord, Position,
  RiskDecision, SessionInfo, Signal, StopOrderRecord, StopProtection,
}
use bazarabot.Errors.{Error, database_error}

-- A row of `positions`: the column `exit_commission` is not part of `Position`.
pub record PositionRow : Type 0 where
  pub position : Position
  pub exit_commission : Option Decimal

-- The `event` and the values in the `detail` of a row of `position_events`.
pub data PositionChange : Type 0 where
  opened adopted : String → ℤ → Decimal → String → Decimal → Decimal → PositionChange
  stop_protection_changed :
      StopProtection → StopProtection → Option String → Option String → PositionChange
  lots_adjusted : ℤ → ℤ → PositionChange
  closed :
      ExitTrigger
      → Decimal
      → Decimal
      → Option String
      → Option Decimal
      → StopProtection
      → PositionChange
  realised_recomputed : Option Decimal → Decimal → PositionChange

pub record PositionEvent : Type 0 where
  pub position_id : ℕ
  pub occurred_at : Datetime
  pub event : PositionChange

-- A row of `job_runs`.
pub record JobRun : Type 0 where
  pub job : String
  pub period : String
  pub ran_at : Datetime

pub record DailySnapshot : Type 0 where
  pub trade_date : Date
  pub opening_equity : Decimal
  pub closing_equity : Option Decimal
  pub cash : Decimal
  pub realised_pnl : Decimal
  pub unrealised_pnl : Decimal
  pub open_positions : ℕ
  pub orders_placed : ℕ
  pub benchmark_value : Option Decimal

pub record Database : Type 0 where
  pub orders : List OrderRecord
  pub positions : List PositionRow
  pub position_events : List PositionEvent
  pub stop_orders : List StopOrderRecord
  pub cooldowns : List (String × Datetime)
  pub halt_state : Option HaltState
  pub trading_days : List SessionInfo
  pub signals : List (Signal × RiskDecision)
  pub job_runs : List JobRun
  pub snapshots : List DailySnapshot
  pub reconciliations : List (Datetime × List Adjustment)

-- What is sent to Telegram, by the message's kind and the values in it.
pub data Alert : Type 0 where
  halt_escalated : Option HaltReason → HaltReason → String → Alert
  trading_halted : String → Alert
  schedule_unavailable : Alert
  stop_unplaceable : String → ℕ → Alert
  entry_rejected exit_rejected : String → String → Alert
  exit_unreachable exit_unknown stop_executed : String → Alert
  exit_without_trigger : String → String → Alert
  partial_entry : String → ℤ → ℤ → Alert
  partial_exit : String → ℤ → Decimal → ℤ → Alert
  fill_slippage : String → Decimal → Decimal → Alert
  reference_unusable : String → Decimal → Decimal → Alert
  commission_unknown : String → Alert
  closed_externally : String → ℕ → Decimal → Datetime → Alert
  exit_unresolved : String → ℕ → String → Alert
  adopted_holding foreign_holding : String → ℤ → Decimal → Alert
  lots_adjusted : String → ℕ → ℤ → ℤ → Alert
  increment_unavailable : String → Alert
  increment_unusable : String → Decimal → Alert
  shutting_down : ℕ → ℕ → ℕ → Alert
  stops_unexplained : List String → Alert

pub record Store : Type 0 where
  pub db : Database
  pub disk : List Bool
  pub clock : ℕ
  pub outbox : List Alert

-- `clock.now()`, which always has a timezone.
abbrev pub clock_now : Store → Datetime
clock_now s = record { instant = s.clock; aware = true }

abbrev pub Call : Type 0 → Type 0
Call = Exec Store Error

abbrev pub next_fails : List Bool → Bool
next_fails [] = false
next_fails (fails ∷ rest) = fails

abbrev pub rest_of : List Bool → List Bool
rest_of [] = []
rest_of (fails ∷ rest) = rest

-- `commit`, or `rollback` and raise again. A COMMIT that SQLite refuses is the matter of
-- Db/Connection: here it works.
abbrev pub commit_or_rollback :
    {A : Type 0} → Database → Result Error A × Store → Result Error A × Store
commit_or_rollback before (ok a, s) = (ok a, s)
commit_or_rollback before (err e, s) = (err e, record s { db = before })

-- `transaction()` as the owners of the tables see it: SQLite refuses it at its start or not at all.
-- A nested call joins the outermost one, so the outermost call's body stands for both.
unfoldable pub transaction : {A : Type 0} → Call A → Call A
transaction body s =
    let begun : Store = record s { disk = rest_of s.disk } in
    if next_fails s.disk then (err database_error, begun) else commit_or_rollback s.db (body begun)

-- `telegram.notifier.alert`
abbrev pub alert : Alert → Call (Unit {0})
alert message s = (ok tt, record s { outbox = s.outbox ++ message ∷ [] })
