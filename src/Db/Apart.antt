-- ===== src/Db/Apart.antt =====
-- A write on one table of the order path leaves the others as they are.
use mathlib.Core.Path.{subst}
use bazarabot.Base.{All, first, ◌∙◌, true, ℕ, String, ◌≡◌, refl, sym, ap}
use bazarabot.Models.{OrderStatus, Position, order_ok, position_ok, stop_order_ok}
use bazarabot.Db.Orders.{has_key}
use bazarabot.Db.Positions.Rows.{has_id}
use bazarabot.Db.Store.{Database}
use bazarabot.Db.Orders.Writes
use bazarabot.Db.Orders.Finality
use bazarabot.Db.Orders.Finality.{EndedAs}
use bazarabot.Db.Positions.Writes as PositionWrites
use bazarabot.Db.Positions.Soundness
use bazarabot.Db.Positions.Soundness.{ClosedAs}
use bazarabot.Db.StopOrders.Writes as StopWrites
use bazarabot.Db.StopOrders.Standing

pub orders_apart :
    {d d' : Database}
    → Writes.Write d d'
    → (d'.positions ≡ d.positions) × (d'.stop_orders ≡ d.stop_orders)
orders_apart Writes.Write.nothing = (refl, refl)
orders_apart (Writes.Write.inserted o a b c) = (refl, refl)
orders_apart (Writes.Write.updated k f o a b c e) = (refl, refl)

pub positions_apart :
    {d d' : Database}
    → PositionWrites.Write d d'
    → (d'.orders ≡ d.orders) × (d'.stop_orders ≡ d.stop_orders)
positions_apart PositionWrites.Write.nothing = (refl, refl)
positions_apart (PositionWrites.Write.inserted row e a b c g h) = (refl, refl)
positions_apart (PositionWrites.Write.updated id f row e a b c g h i) = (refl, refl)

pub stop_orders_apart :
    {d d' : Database}
    → StopWrites.Write d d'
    → (d'.orders ≡ d.orders) × (d'.positions ≡ d.positions)
stop_orders_apart StopWrites.Write.nothing = (refl, refl)
stop_orders_apart (StopWrites.Write.inserted r a b c) = (refl, refl)
stop_orders_apart (StopWrites.Write.updated k f r a b c e) = (refl, refl)

-- What is said of one table holds of every database with that table.
module _ (d d' : Database) where
  pub same_orders : d'.orders ≡ d.orders → Finality.IsSound d → Finality.IsSound d'
  same_orders e h = record {
    distinct = subst Finality.HasDistinctKeys (sym e) h.distinct;
    valid = subst (All (λ o. order_ok o ≡ true)) (sym e) h.valid;
  }

  pub same_positions : d'.positions ≡ d.positions → Soundness.IsSound d → Soundness.IsSound d'
  same_positions e h = record {
    one_open = subst Soundness.HasOneOpen (sym e) h.one_open;
    distinct = subst Soundness.HasDistinctIds (sym e) h.distinct;
    valid = subst (All (λ row. position_ok row.position ≡ true)) (sym e) h.valid;
  }

  pub same_stop_orders : d'.stop_orders ≡ d.stop_orders → Standing.IsSound d → Standing.IsSound d'
  same_stop_orders e h = record {
    distinct = subst Standing.HasDistinctKeys (sym e) h.distinct;
    one_live = subst Standing.HasOneLive (sym e) h.one_live;
    valid = subst (All (λ r. stop_order_ok r ≡ true)) (sym e) h.valid;
  }

  pub same_ended :
      (key : String) (status : OrderStatus)
      → d'.orders ≡ d.orders
      → EndedAs key status d
      → EndedAs key status d'
  same_ended key status e (o, found, s) = (o, ap (λ rows. first (has_key key) rows) e ∙ found, s)

  pub same_closed :
      (id : ℕ) (p : Position) → d'.positions ≡ d.positions → ClosedAs id p d → ClosedAs id p d'
  same_closed id p e (row, found, shut, terms) =
      (row, ap (λ rows. first (has_id id) rows) e ∙ found, shut, terms)
