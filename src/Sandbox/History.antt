-- ===== src/Sandbox/History.antt =====
-- A backtest as a sequence of moves: the bars of sandbox/backtest.py between the operations of the
-- bot on the simulated exchange.
use bazarabot.Base.{String, List, [], ◌∷◌}
use bazarabot.Base.Exec.Keeps.{Keeps}
use bazarabot.Models.{Datetime, OperationRecord, OrderRecord}
use bazarabot.Execution.Desk.{Desk, Env}
use bazarabot.Execution.Operations.{Operation, run}
use bazarabot.Execution.Operations.Kept.{run_kept}
use bazarabot.Execution.Operations.Soundness.{IsConsistent, IsConsistent-IsPreserved}
use bazarabot.Execution.Desk.{on_broker}
use bazarabot.Sandbox.Exchange.{Exchange, Phase}
use bazarabot.Sandbox.Fills.{Sim}
use bazarabot.Sandbox.Advance.{advance}
use bazarabot.Sandbox.Broker.{simulated}
use bazarabot.Sandbox.Positive.{AllHeld, Keeps-post_market_order}
use bazarabot.Sandbox.Kept.{simulated-IsQuiet, Keeps-advance}

pub data Move : Type 0 where
  bar : Datetime → Phase → Move
  operation : Operation → Move

-- The caller's settings, keys and time zone, with the exchange for the broker.
abbrev pub on_exchange :
    (String → Sim OrderRecord)
    → (Datetime → Datetime → Sim (List OperationRecord))
    → Env Exchange
    → Env Exchange
on_exchange by_broker_id operations env = record env { broker = simulated by_broker_id operations }

abbrev pub make : Env Exchange → Move → Desk Exchange → Desk Exchange
make env (Move.bar at phase) d = (on_broker (advance at phase) d).1
make env (Move.operation op) d = run env op d

unfoldable pub make_all : Env Exchange → List Move → Desk Exchange → Desk Exchange
make_all env [] d = d
make_all env (m ∷ ms) d = make_all env ms (make env m d)

module _ (by_broker_id : String → Sim OrderRecord)
    (operations : Datetime → Datetime → Sim (List OperationRecord)) (env : Env Exchange)
    (k : (id : String) → Keeps AllHeld (by_broker_id id))
    (l : (since until : Datetime) → Keeps AllHeld (operations since until)) where
  make_kept :
      (m : Move) (d : Desk Exchange)
      → IsConsistent d.store.db × AllHeld d.world
      → IsConsistent (make (on_exchange by_broker_id operations env) m d).store.db
        × AllHeld (make (on_exchange by_broker_id operations env) m d).world
  make_kept (Move.bar at phase) d h = (h.0, (Keeps-advance at phase).at d.world h.1)
  make_kept (Move.operation op) d h =
      run_kept (on_exchange by_broker_id operations env) IsConsistent IsConsistent-IsPreserved
        AllHeld (simulated-IsQuiet by_broker_id operations k l) Keeps-post_market_order op d h

  -- However bars and operations follow one another in a backtest, the tables stay consistent and
  -- every holding of the exchange stays of a positive number of lots, if both are so at the start and
  -- the two calls that the exchange has no method for keep the latter.
  pub make_all-AllHeld :
      (ms : List Move) (d : Desk Exchange)
      → IsConsistent d.store.db
      → AllHeld d.world
      → IsConsistent (make_all (on_exchange by_broker_id operations env) ms d).store.db
        × AllHeld (make_all (on_exchange by_broker_id operations env) ms d).world
  unfolding make_all
  make_all-AllHeld [] d h g = (h, g)
  make_all-AllHeld (m ∷ ms) d h g =
      let (h', g') = make_kept m d (h, g) in make_all-AllHeld ms _ h' g'
