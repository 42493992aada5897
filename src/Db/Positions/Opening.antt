-- ===== src/Db/Positions/Opening.antt =====
-- `open` and `adopt` of zarabot/db/positions.py as writes.
use bazarabot.Base.{
  get_or, false, ℕ, true, not, String, ◌≡◌, refl, sym, ◌∙◌, inl, inr, List, [], ◌∷◌, ◌++◌, Option,
  none, some, first, first-append_none, arith, Bool-cases, Option-cases, ◌<◌,
}
use bazarabot.Base.Int.{ℤ, pos, leb_ℤ}
use bazarabot.Base.Decimal.{Decimal}
use bazarabot.Base.Exec.{or_raise, ◌>>=◌, ◌>>◌}
use bazarabot.Base.Exec.Rules.{OnOk, OnOk-ok, OnOk-bind}
use bazarabot.Models.{Datetime, Instrument, OrderRecord, Position, Signal}
use bazarabot.Config.{Config}
use bazarabot.Errors.{position_state_error, value_error}
use bazarabot.Db.Store.{clock_now, Store, Call, PositionRow, PositionChange, rest_of}
use bazarabot.Db.Store.Atomicity.{transaction_keeps, raise_if_keeps}
use bazarabot.Db.Positions.Rows.{
  has_id, open_in, next_id, max_id, insert, insert_event, set_positions, load_present, order_exists,
}
use bazarabot.Db.Positions.{open_position, adopt, open_row, stop_at, target_at}
use bazarabot.Db.Positions.Writes.{Write, OnOk-load_present, same_valid}

-- Ids above all that are in use are free.
pub fresh_id : (id : ℕ) (rows : List PositionRow) → max_id rows < id → first (has_id id) rows ≡ none
fresh_id id [] h = refl
fresh_id id (row ∷ rows) h = ground (arith, fresh_id id rows)

module _ (row : ℕ → Position) (change : PositionChange) (s : Store) where
  abbrev new_row : PositionRow
  new_row = record { position = row (next_id s.db.positions); exit_commission = none }

  inserted_found :
      (row (next_id s.db.positions)).id ≡ next_id s.db.positions
      → first (has_id (next_id s.db.positions)) (s.db.positions ++ new_row ∷ []) ≡ some new_row
  inserted_found e =
      first-append_none (has_id (next_id s.db.positions)) s.db.positions (new_row ∷ [])
        (fresh_id (next_id s.db.positions) s.db.positions (omega arith))
      ∙ ground (arith, e)

  abbrev inserted_store : Store
  inserted_store = set_positions (λ rows. rows ++ new_row ∷ []) s

  OnOk-insert :
      {P : ℕ → Store → Type 0}
      → (first (open_in (row (next_id s.db.positions)).ticker) s.db.positions ≡ none
          → order_exists (row (next_id s.db.positions)).open_order_key s ≡ true
          → P (next_id s.db.positions) inserted_store)
      → OnOk P (insert row s)
  OnOk-insert h = elim (Bool-cases (leb_ℤ (row (next_id s.db.positions)).lots (pos 0))) [
    | inl none_at_all ↦ rw none_at_all (record { at = λ a e. cc })
    | inr some_lots ↦
        rw some_lots
          (elim (Option-cases
            (first (open_in (row (next_id s.db.positions)).ticker) s.db.positions)) [
              | inr (old, found) ↦ rw found (record { at = λ a e. cc })
              | inl free ↦
                  rw free
                    (elim (Bool-cases
                      (order_exists (row (next_id s.db.positions)).open_order_key s)) [
                        | inr unknown ↦ rw unknown (record { at = λ a e. cc })
                        | inl known ↦ rw known (OnOk-ok (next_id s.db.positions) _ (h free known))
                      ])
            ])
  ]

  -- An INSERT, its event, and the load that reads it back.
  insert-Write :
      (row (next_id s.db.positions)).id ≡ next_id s.db.positions
      → OnOk
          (λ _ t. Write s.db t.db)
          ((insert row >>= λ id. insert_event id change >> load_present id) s)
  insert-Write e = OnOk-bind (insert row) _ s (
      OnOk-insert λ free known. OnOk-load_present (next_id s.db.positions) _ λ row' found valid.
        Write.inserted new_row
          (record {
            position_id = next_id s.db.positions;
            occurred_at = (clock_now s);
            event = change;
          })
          e free known (same_valid (sym (inserted_found e) ∙ found) valid) (sym e))

pub adopt-Write :
    (cfg : Config) (instrument : Instrument) (lots : ℤ) (price : Decimal) (at : Datetime)
    (key : String) (s : Store)
    → Write s.db (adopt cfg instrument lots price at key s).1.db
unfolding adopt
adopt-Write cfg instrument lots price at key s =
    raise_if_keeps (Write s.db) (not at.aware) value_error _ s Write.nothing λ aware.
      raise_if_keeps (Write s.db) (leb_ℤ lots (pos 0)) position_state_error _ s Write.nothing
        λ positive. transaction_keeps (Write s.db) _ s Write.nothing (
          insert-Write
            (open_row instrument.ticker instrument.figi "ADOPTED" lots instrument.lot price at
              (stop_at cfg price) (target_at cfg price) true key)
            (PositionChange.adopted instrument.ticker lots price key (stop_at cfg price)
              (target_at cfg price))
            (record s { disk = rest_of s.disk }) refl)

or_raise_keeps :
    {A B : Type 0} (x : Option A) (m : A → Call B) (s : Store)
    → ((a : A) → Write s.db (m a s).1.db)
    → Write s.db ((or_raise x position_state_error >>= m) s).1.db
or_raise_keeps none m s h = Write.nothing
or_raise_keeps (some a) m s h = h a

pub open_position-Write :
    (signal : Signal) (order : OrderRecord) (instrument : Instrument) (stop target : Decimal)
    (at : Datetime) (s : Store)
    → Write s.db (open_position signal order instrument stop target at s).1.db
unfolding open_position
open_position-Write signal order instrument stop target at s =
    raise_if_keeps (Write s.db) (not at.aware) value_error _ s Write.nothing λ aware.
      raise_if_keeps (Write s.db) (not signal.generated_at.aware) value_error _ s Write.nothing
        λ generated. or_raise_keeps order.filled_price _ s λ price.
          transaction_keeps (Write s.db) _ s Write.nothing (
            insert-Write
              (open_row signal.ticker instrument.figi signal.strategy
                (get_or order.filled_lots order.lots) instrument.lot price at stop target false
                order.key)
              (PositionChange.opened signal.ticker (get_or order.filled_lots order.lots) price
                order.key stop target)
              (record s { disk = rest_of s.disk }) refl)
