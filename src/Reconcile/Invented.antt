-- ===== src/Reconcile/Invented.antt =====
-- A position that the broker no longer holds is closed at the figures of a sale, or not at all.
use bazarabot.Base.{◌≡◌, ◌==◌, true, List, Option, none, some}
use bazarabot.Base.Members.{IsMember}
use bazarabot.Base.Exec.{Result, ok, pure, continue, handle}
use bazarabot.Base.Exec.Keeps.{Keeps}
use bazarabot.Models.{Datetime, ExitTrigger, OperationRecord, Position}
use bazarabot.Errors.{Error, is_unreachable}
use bazarabot.Db.Store.{Database, Store}
use bazarabot.Db.Positions
use bazarabot.Db.Positions.Closing.{exited}
use bazarabot.Db.Positions.Soundness.{ClosedAs}
use bazarabot.Execution.Desk.{Env, Desk, put_world}
use bazarabot.Reconcile.Sales.{close_by_feed, ResolvedSale, resolve_sale}

-- What the close rests on: an answer of the feed, the sale that it resolves to, with the time of a
-- sale of the position's instrument in the answer, and the row closed on its terms.
abbrev pub FromFeed : {W : Type 0} → Env W → Position → Datetime → Desk W → Database → Type 0
FromFeed env position moment d after =
    (operations : List OperationRecord) × (sale : ResolvedSale) × ((env.broker.get_operations
        position.entry_at moment d.world).0
      ≡ ok operations)
    × (resolve_sale position operations ≡ some sale)
    × ((item : OperationRecord) × IsMember item operations
        × (item.figi == position.figi ≡ true)
        × (item.occurred_at ≡ sale.occurred_at))
    × ClosedAs position.id (exited ExitTrigger.external sale.price sale.occurred_at position) after

module _ (position : Position) (sale : ResolvedSale) where
  abbrev AtSale : Database → Type 0
  AtSale = ClosedAs position.id (exited ExitTrigger.external sale.price sale.occurred_at position)

module _ {W : Type 0} (env : Env W) (position : Position) (moment : Datetime) (d : Desk W) where
  -- From an answer of the feed on.
  abbrev after_answer : Result Error (List OperationRecord) → W → Desk W
  after_answer answer w =
      let (found, d') =
        handle {A = Option (List OperationRecord)} is_unreachable (λ e. pure none)
          (continue answer (λ found. pure (some found)) (put_world w d)).0
          (continue answer (λ found. pure (some found)) (put_world w d)).1 in
      (continue found (close_by_feed env position) d').1
