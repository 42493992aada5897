-- ===== src/Halt/Severity.antt =====
-- The halt flag of zarabot/state/halt.py against one cell, the most severe reason in force.
use bazarabot.Base.{◌≤◌, true, false, String, ◌≡◌, Option, none, some, leb, arith, if◌then◌else◌}
use bazarabot.Base.Exec.{ok}
use bazarabot.Models.{Datetime, HaltReason, HaltState}
use bazarabot.Db.Store.{Store, next_fails, transaction}
use bazarabot.Halt.{severity, halt, resume, is_halted_row, no_stronger, replaced}

-- The abstract cell: the reason in force, if trading is halted.
abbrev pub in_force : Option HaltState → Option HaltReason
in_force none = none
in_force (some state) = if state.halted then state.reason else none

-- The more severe of a new reason and the one in force.
abbrev pub worst : HaltReason → Option HaltReason → HaltReason
worst reason none = reason
worst reason (some r) = if leb (severity reason) (severity r) then r else reason

-- With the row present and the database working, a halt leaves the more severe of the two reasons
-- in force, and a halt that was in force keeps its starting time.
pub halt-in_force :
    (reason : HaltReason) (detail : String) (at : Datetime) (s : Store) (row : HaltState)
    → at.aware ≡ true
    → next_fails s.disk ≡ false
    → s.db.halt_state ≡ some row
    → (in_force (halt reason detail at s).1.db.halt_state
        ≡ some (worst reason (in_force (some row))))
      × (row.halted ≡ true
          → (after : HaltState) × ((halt reason detail at s).1.db.halt_state ≡ some after)
            × (after.halted ≡ true)
            × (after.halted_at ≡ row.halted_at))
unfolding halt transaction
halt-in_force reason detail at s row aware works there = (
  ground arith,
  λ running. (
    if no_stronger reason row.reason then row else replaced reason detail row,
    ground arith,
    ground arith,
    ground arith,
  ),
)

-- A halt for the reason in force, or for a weaker one, changes nothing at all: no write, no alert.
halt_again_silent :
    (reason r : HaltReason) (detail : String) (at : Datetime) (s : Store)
    → at.aware ≡ true
    → in_force s.db.halt_state ≡ some r
    → severity reason ≤ severity r
    → halt reason detail at s ≡ (ok tt, s)
unfolding halt
halt_again_silent reason r detail at s aware running weaker = ground arith

-- A resume reports whether trading was halted, and with the database working nothing is in force
-- afterwards.
resume_clears :
    (actor : String) (at : Datetime) (s : Store)
    → at.aware ≡ true
    → next_fails s.disk ≡ false
    → ((resume actor at s).0 ≡ ok (is_halted_row s.db.halt_state))
      × (is_halted_row (resume actor at s).1.db.halt_state ≡ false)
unfolding resume transaction
resume_clears actor at s aware works = ground arith
