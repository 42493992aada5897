-- ===== src/App/Shutdown.antt =====
-- `shutdown` of zarabot/app/shutdown.py, up to the closing of the connections. The flag that it
-- sets by `stop_entries` is read by the trading loop alone.
use bazarabot.Base.{ℕ, zero, suc, ◌+◌, List, [], ◌∷◌, length}
use bazarabot.Base.Exec.{pure, gets, modify, ◌>>=◌, ◌>>◌}
use bazarabot.Base.Exec.Keeps.{Keeps, Keeps-pure, Keeps-bind, Keeps-gets}
use bazarabot.Models.{OrderRecord}
use bazarabot.Db.Store.{Alert, Database, clock_now}
use bazarabot.Db.Store
use bazarabot.Db.Orders.Queries.{list_unresolved}
use bazarabot.Db.Positions.Queries.{list_open}
use bazarabot.Db.Preserved.{IsPreserved, Keeps-alert, Keeps-list_open, Keeps-list_unresolved}
use bazarabot.Execution.Desk.{Env, Desk, Action, on_db, put_store}
use bazarabot.Execution.Recovery.{resolve_unfinished}
use bazarabot.Execution.Kept.{IsQuiet, InDesk, Keeps-on_db}
use bazarabot.Execution.Kept.Recovery.{Keeps-resolve_unfinished}

-- `_WAIT_SECONDS` over `_POLL_SECONDS`
abbrev pub polls : ℕ
polls = 30

-- `asyncio.sleep(_POLL_SECONDS)`, as time that passes on the clock.
abbrev pub pause : {W : Type 0} → Desk W → Desk W
pause d = put_store (record d.store { clock = d.store.clock + 1_000_000 }) d

module _ {W : Type 0} (env : Env W) where
  -- The rest of the loop, after an attempt to settle what is pending.
  abbrev pub poll_again : Action W (Unit {0}) → List OrderRecord → Action W (Unit {0})
  poll_again next [] = pure tt
  poll_again next (order ∷ orders) = do modify pause; next

  abbrev pub settle_pending : Action W (Unit {0}) → List OrderRecord → Action W (Unit {0})
  settle_pending next [] = pure tt
  settle_pending next (order ∷ orders) = do
    at ← gets (λ d. clock_now d.store)
    resolve_unfinished env at
    left ← on_db list_unresolved
    poll_again next left

  -- The loop with `n` polls to go.
  unfoldable pub drain : ℕ → Action W (Unit {0})
  drain zero = pure tt
  drain (suc n) = do pending ← on_db list_unresolved; settle_pending (drain n) pending

  unfoldable pub shutdown : ℕ → Action W (Unit {0})
  shutdown signal = do
    drain polls
    remaining ← on_db list_unresolved
    opened ← on_db list_open
    on_db (Store.alert (Alert.shutting_down signal (length remaining) (length opened)))

module _ {W : Type 0} (env : Env W) (R : Database → Type 0) (kept : IsPreserved R) (Q : W → Type 0)
    (quiet : IsQuiet env.broker Q) where
  poll_again_kept :
      (next : Action W (Unit {0})) (left : List OrderRecord)
      → Keeps (InDesk R Q) next
      → Keeps (InDesk R Q) (poll_again env next left)
  poll_again_kept next [] k = Keeps-pure tt
  poll_again_kept next (order ∷ orders) k = record { at = λ d h. k.at (pause d) h }

  settle_pending_kept :
      (next : Action W (Unit {0})) (pending : List OrderRecord)
      → Keeps (InDesk R Q) next
      → Keeps (InDesk R Q) (settle_pending env next pending)
  settle_pending_kept next [] k = Keeps-pure tt
  settle_pending_kept next (order ∷ orders) k =
      Keeps-bind _ _ (Keeps-gets (λ d. clock_now d.store)) λ at.
        Keeps-bind _ _ (Keeps-resolve_unfinished env R kept Q quiet at) λ resolved.
          Keeps-bind _ _ (Keeps-on_db R Q _ (Keeps-list_unresolved R))
            λ left. poll_again_kept next left k

  Keeps-drain : (n : ℕ) → Keeps (InDesk R Q) (drain env n)
  unfolding drain
  Keeps-drain zero = Keeps-pure tt
  Keeps-drain (suc n) =
      Keeps-bind _ _ (Keeps-on_db R Q _ (Keeps-list_unresolved R))
        λ pending. settle_pending_kept (drain env n) pending (Keeps-drain n)

  pub Keeps-shutdown : (signal : ℕ) → Keeps (InDesk R Q) (shutdown env signal)
  unfolding shutdown
  Keeps-shutdown signal = Keeps-bind _ _ (Keeps-drain polls) λ _.
      Keeps-bind _ _ (Keeps-on_db R Q _ (Keeps-list_unresolved R)) λ remaining.
        Keeps-bind _ _ (Keeps-on_db R Q _ (Keeps-list_open R))
          λ opened. Keeps-on_db R Q _ (Keeps-alert R _)
