-- ===== src/Execution/Outage.antt =====
-- `resolve_unfinished` of zarabot/execution/orders.py while the broker cannot be reached.
use bazarabot.Base.{◌≡◌, refl, ap, ◌∙◌, true, not, String, List, [], ◌∷◌, Option, none}
use bazarabot.Base.Exec.{Result, ok, err, raise_if, ◌>>=◌, ◌>>◌, continue}
use bazarabot.Models.{Datetime, OrderRecord}
use bazarabot.Errors.{Error, broker_unavailable, value_error}
use bazarabot.Db.Store.{Store}
use bazarabot.Db.Orders.Queries.{list_unresolved}
use bazarabot.Execution.Desk.{Broker, Env, Desk, on_db, put_store, put_world}
use bazarabot.Execution.Recovery.{
  resolve_answer, resolve_one, resolve_all, resolve_unfinished, with_resolved,
}

-- Every question about an order ends in `BrokerUnavailable`.
abbrev pub IsUnreachable : {W : Type 0} → Broker W → Type 0
IsUnreachable {W} broker =
    (key : String) (w : W) → broker.get_order_state key w ≡ (err broker_unavailable, w)

module _ {W : Type 0} (env : Env W) (down : IsUnreachable env.broker) (now : Datetime) where
  one_left : (order : OrderRecord) (d : Desk W) → resolve_one env order now d ≡ (ok none, d)
  unfolding resolve_one
  one_left order d =
      ap (λ r. resolve_answer env order now r.0 (put_world r.1 d)) (down order.key d.world)

  all_left : (orders : List OrderRecord) (d : Desk W) → resolve_all env now orders d ≡ (ok [], d)
  unfolding resolve_all
  all_left [] d = refl
  all_left (order ∷ orders) d =
      ap
        (λ (r : Result Error (Option OrderRecord) × Desk W).
          continue r.0
            (λ settled.
              resolve_all env now orders >>= λ rest. λ x. (ok (with_resolved env settled rest), x))
            r.1)
        (one_left order d)
      ∙ ap
          (λ (r : Result Error (List OrderRecord) × Desk W).
            continue r.0 (λ rest x. (ok (with_resolved env none rest), x)) r.1)
          (all_left orders d)

  -- While the broker cannot be reached, the recovery at an aware time resolves nothing and changes
  -- nothing: every order that the database lists stays as it is, for the next attempt.
  pub resolve_unfinished_unreachable :
      (orders : List OrderRecord) (d : Desk W)
      → now.aware ≡ true
      → list_unresolved d.store ≡ (ok orders, d.store)
      → resolve_unfinished env now d ≡ (ok [], d)
  unfolding resolve_unfinished
  resolve_unfinished_unreachable orders d aware listed =
      ap (λ b. (raise_if (not b) value_error >> (on_db list_unresolved >>= resolve_all env now)) d)
        aware
      ∙ ap
          (λ (r : Result Error (List OrderRecord) × Store).
            continue r.0 (resolve_all env now) (put_store r.1 d))
          listed
      ∙ all_left orders d
