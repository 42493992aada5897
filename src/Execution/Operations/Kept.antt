-- ===== src/Execution/Operations/Kept.antt =====
-- What every sequence of operations keeps of the database and of the broker's world.
use bazarabot.Base.{List, [], ◌∷◌}
use bazarabot.Db.Store.{Database}
use bazarabot.Db.Preserved.{IsPreserved}
use bazarabot.Execution.Desk.{Env, Desk}
use bazarabot.Execution.Operations.{Operation, run, run_all}
use bazarabot.Execution.Kept.{IsQuiet, Submits, InDesk}
use bazarabot.Execution.Kept.Stops.{
  Keeps-place_protective_stop, Keeps-replace_stop, Keeps-adopt_existing_stop,
  Keeps-cancel_orphaned_stop,
}
use bazarabot.Execution.Kept.Entries.{Leads-open_position}
use bazarabot.Execution.Kept.Exits.{Leads-close_position, Keeps-close_executed_stop}
use bazarabot.Commissions.Kept.{Keeps-backfill}
use bazarabot.Reconcile.Kept.{Keeps-reconcile}
use bazarabot.App.Shutdown.{Keeps-shutdown}
use bazarabot.Execution.Kept.Recovery.{Keeps-resolve_unfinished}

module _ {W : Type 0} (env : Env W) (R : Database → Type 0) (kept : IsPreserved R) (Q : W → Type 0)
    (quiet : IsQuiet env.broker Q) (submits : Submits env.broker Q Q) where
  pub run_kept : (op : Operation) (d : Desk W) → InDesk R Q d → InDesk R Q (run env op d)
  run_kept (Operation.open_position g n i) d h =
      (Leads-open_position env R kept Q Q quiet quiet submits (λ w q. q) g n i).at d h
  run_kept (Operation.close_position p t) d h =
      (Leads-close_position env R kept Q Q quiet quiet submits (λ w q. q) p t).at d h
  run_kept (Operation.close_executed_stop p o) d h =
      (Keeps-close_executed_stop env R kept Q quiet p o).at d h
  run_kept (Operation.resolve_unfinished at) d h =
      (Keeps-resolve_unfinished env R kept Q quiet at).at d h
  run_kept (Operation.backfill since until) d h =
      (Keeps-backfill env R kept Q quiet since until).at d h
  run_kept (Operation.reconcile now) d h = (Keeps-reconcile env R kept Q quiet now).at d h
  run_kept (Operation.shutdown signal) d h = (Keeps-shutdown env R kept Q quiet signal).at d h
  run_kept (Operation.place_protective_stop p i) d h =
      (Keeps-place_protective_stop env R kept Q quiet p i).at d h
  run_kept (Operation.replace_stop p i) d h = (Keeps-replace_stop env R kept Q quiet p i).at d h
  run_kept (Operation.adopt_existing_stop p o) d h =
      (Keeps-adopt_existing_stop env R kept Q quiet p o).at d h
  run_kept (Operation.cancel_orphaned_stop o) d h =
      (Keeps-cancel_orphaned_stop env R kept Q quiet o).at d h

  pub run_all_kept :
      (ops : List Operation) (d : Desk W) → InDesk R Q d → InDesk R Q (run_all env ops d)
  unfolding run_all
  run_all_kept [] d h = h
  run_all_kept (op ∷ ops) d h = run_all_kept ops (run env op d) (run_kept op d h)
