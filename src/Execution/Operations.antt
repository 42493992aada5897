-- ===== src/Execution/Operations.antt =====
-- The operations of zarabot/execution/orders.py that other modules call, the `backfill` of
-- zarabot/ops/commissions.py, `reconcile` of zarabot/broker/reconcile.py and `shutdown` of
-- zarabot/app/shutdown.py, in any order.
pub mod Kept
pub mod Soundness
pub mod Budget
use bazarabot.Base.{ℕ, List, [], ◌∷◌, ◌+◌}
use bazarabot.Base.Int.{ℤ}
use bazarabot.Models.{
  Datetime, ExitTrigger, Instrument, OrderRecord, Position, Signal, StopOrderRecord,
}
use bazarabot.Execution.Desk.{Env, Desk}
use bazarabot.Execution.Stops
use bazarabot.Execution.Entries
use bazarabot.Execution.Exits
use bazarabot.Execution.Recovery
use bazarabot.Commissions
use bazarabot.Reconcile.Run
use bazarabot.App.Shutdown

pub data Operation : Type 0 where
  open_position : Signal → ℤ → Instrument → Operation
  close_position : Position → ExitTrigger → Operation
  close_executed_stop : Position → OrderRecord → Operation
  resolve_unfinished : Datetime → Operation
  backfill : Datetime → Datetime → Operation
  reconcile : Datetime → Operation
  shutdown : ℕ → Operation
  place_protective_stop replace_stop : Position → Instrument → Operation
  adopt_existing_stop : Position → StopOrderRecord → Operation
  cancel_orphaned_stop : StopOrderRecord → Operation

module _ {W : Type 0} (env : Env W) where
  -- An operation, its result or exception dropped.
  abbrev pub run : Operation → Desk W → Desk W
  run (Operation.open_position g n i) d = (Entries.open_position env g n i d).1
  run (Operation.close_position p t) d = (Exits.close_position env p t d).1
  run (Operation.close_executed_stop p o) d = (Exits.close_executed_stop env p o d).1
  run (Operation.resolve_unfinished at) d = (Recovery.resolve_unfinished env at d).1
  run (Operation.backfill since until) d = (Commissions.backfill env since until d).1
  run (Operation.reconcile now) d = (Run.reconcile env now d).1
  run (Operation.shutdown signal) d = (Shutdown.shutdown env signal d).1
  run (Operation.place_protective_stop p i) d = (Stops.place_protective_stop env p i d).1
  run (Operation.replace_stop p i) d = (Stops.replace_stop env p i d).1
  run (Operation.adopt_existing_stop p o) d = (Stops.adopt_existing_stop env p o d).1
  run (Operation.cancel_orphaned_stop o) d = (Stops.cancel_orphaned_stop env o d).1

  pub run_all : List Operation → Desk W → Desk W
  run_all [] d = d
  run_all (op ∷ ops) d = run_all ops (run op d)

-- The market orders that an operation may send: one for an entry or an exit of the bot's own.
abbrev pub orders_allowed : Operation → ℕ
orders_allowed (Operation.open_position g n i) = 1
orders_allowed (Operation.close_position p t) = 1
orders_allowed _ = 0

abbrev pub all_allowed : List Operation → ℕ
all_allowed [] = 0
all_allowed (op ∷ ops) = orders_allowed op + all_allowed ops
