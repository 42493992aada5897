-- ===== src/Db/Positions/Writes.antt =====
-- What each operation on positions can write, as a step relation on the database.
use bazarabot.Base.{
  ℕ, true, false, not, String, ◌≡◌, refl, inl, inr, sym, ap, ◌∙◌, List, [], ◌∷◌, ◌++◌, Option, none,
  some, first, first-update_where, map_option, update_where, Bool-cases, eqb, is_some,
}
use bazarabot.Base.Int.{ℤ, pos, leb_ℤ}
use bazarabot.Base.Exec.{continue, or_raise, raise_if, ◌>>◌}
use bazarabot.Base.Exec.Rules.{OnOk, OnOk-ok, OnOk-bind, OnOk-raise_if}
use bazarabot.Models.{Position, StopProtection, position_ok, protection_ok}
use bazarabot.Errors.{position_state_error, integrity_error}
use bazarabot.Db.Orders
use bazarabot.Db.Store.{clock_now, Database, Store, PositionRow, PositionChange, PositionEvent}
use bazarabot.Db.Store.Atomicity.{transaction_keeps, raise_if_keeps}
use bazarabot.Db.Positions.Rows.{
  has_id, is_open, open_in, row_to_position, load_present, next_id, insert_event, update,
}
use bazarabot.Db.Positions.{
  protected, set_stop_protection, schema_protection_ok, resized, update_lots,
}

-- The terms of a close, which are written once.
abbrev pub SameExit : Position → Position → Type 0
SameExit p q =
    (p.exit_trigger ≡ q.exit_trigger)
    × (p.exit_price ≡ q.exit_price)
    × (p.exit_at ≡ q.exit_at)
    × (p.status ≡ q.status)

abbrev pub with_event : PositionEvent → Database → Database
with_event e d = record d { position_events = d.position_events ++ e ∷ [] }

-- One write on the table `positions` together with its event, or none.
pub data Write (d : Database) : Database → Type 0 where
  nothing : Write d d
  inserted :
      (row : PositionRow) (e : PositionEvent)
      → row.position.id ≡ next_id d.positions
      → first (open_in row.position.ticker) d.positions ≡ none
      → is_some (first (Orders.has_key row.position.open_order_key) d.orders) ≡ true
      → position_ok row.position ≡ true
      → e.position_id ≡ row.position.id
      → Write d (with_event e (record d { positions = d.positions ++ row ∷ [] }))
  updated :
      (id : ℕ) (f : PositionRow → PositionRow) (row : PositionRow) (e : PositionEvent)
      → first (has_id id) d.positions ≡ some row
      → ((x : PositionRow)
          → ((f x).position.id ≡ x.position.id) × ((f x).position.ticker ≡ x.position.ticker))
      → ((x : PositionRow) → is_open (f x) ≡ true → is_open x ≡ true)
      → (is_open row ≡ false → SameExit (f row).position row.position)
      → position_ok (f row).position ≡ true
      → e.position_id ≡ id
      → Write d (with_event e (record d { positions = update_where (has_id id) f d.positions }))

module _ {P : Position → Store → Type 0} where
  checked_row :
      (found : Option PositionRow) (s : Store)
      → ((row : PositionRow)
          → found ≡ some row
          → position_ok row.position ≡ true
          → P row.position s)
      → OnOk P (continue (row_to_position found) (λ p. or_raise p position_state_error) s)
  checked_row none s h = record { at = λ o e. cc }
  checked_row (some row) s h = elim (Bool-cases (position_ok row.position)) [
    | inl valid ↦ rw valid (OnOk-ok row.position s (h row refl valid))
    | inr broken ↦ rw broken (record { at = λ o e. cc })
  ]

  -- A position that was loaded is that of a row in the table, and is valid.
  pub OnOk-load_present :
      (id : ℕ) (s : Store)
      → ((row : PositionRow)
          → first (has_id id) s.db.positions ≡ some row
          → position_ok row.position ≡ true
          → P row.position s)
      → OnOk P (load_present id s)
  unfolding load_present
  OnOk-load_present id s h = checked_row (first (has_id id) s.db.positions) s h

pub updated_found :
    (id : ℕ) (f : PositionRow → PositionRow) (row : PositionRow) (rows : List PositionRow)
    → first (has_id id) rows ≡ some row
    → ((x : PositionRow)
        → ((f x).position.id ≡ x.position.id) × ((f x).position.ticker ≡ x.position.ticker))
    → first (has_id id) (update_where (has_id id) f rows) ≡ some (f row)
updated_found id f row rows found keeps =
    first-update_where (has_id id) f rows (λ x. ap (λ k. eqb k id) (keeps x).0)
    ∙ ap (map_option f) found

pub same_valid :
    {a b : PositionRow}
    → some a ≡ some b
    → position_ok b.position ≡ true
    → position_ok a.position ≡ true
same_valid e h = cc

-- An UPDATE of the row with an id, its event, and the load that reads it back.
pub updated_row :
    (id : ℕ) (f : PositionRow → PositionRow) (row : PositionRow) (change : PositionChange)
    (s : Store)
    → first (has_id id) s.db.positions ≡ some row
    → ((x : PositionRow)
        → ((f x).position.id ≡ x.position.id) × ((f x).position.ticker ≡ x.position.ticker))
    → ((x : PositionRow) → is_open (f x) ≡ true → is_open x ≡ true)
    → (is_open row ≡ false → SameExit (f row).position row.position)
    → OnOk (λ _ t. Write s.db t.db) ((update id f >> (insert_event id change >> load_present id)) s)
updated_row id f row change s found keeps opens ends = OnOk-load_present id _ λ row' e valid.
    Write.updated id f row
      (record { position_id = id; occurred_at = (clock_now s); event = change }) found keeps opens
      ends (same_valid (sym (updated_found id f row s.db.positions found keeps) ∙ e) valid) refl

pub update_lots-Write : (id : ℕ) (lots : ℤ) (s : Store) → Write s.db (update_lots id lots s).1.db
unfolding update_lots
update_lots-Write id lots s =
    raise_if_keeps (Write s.db) (leb_ℤ lots (pos 0)) position_state_error _ s Write.nothing
      λ positive. transaction_keeps (Write s.db) _ s Write.nothing (
        OnOk-bind (load_present id) _ _ (
          OnOk-load_present id _ λ row found valid.
            OnOk-bind (raise_if (not (is_open row)) position_state_error) _ _ (
              OnOk-raise_if (not (is_open row)) position_state_error _ λ still_open.
                updated_row id (resized lots) row _ _ found (λ x. (refl, refl)) (λ x h. h)
                  (λ closed. cc))))

pub set_stop_protection-Write :
    (id : ℕ) (protection : StopProtection) (key : Option String) (s : Store)
    → Write s.db (set_stop_protection id protection key s).1.db
unfolding set_stop_protection
set_stop_protection-Write id protection key s =
    raise_if_keeps (Write s.db) (not (protection_ok protection key)) position_state_error _ s
      Write.nothing
      λ agree. transaction_keeps (Write s.db) _ s Write.nothing (
        OnOk-bind (load_present id) _ _ (
          OnOk-load_present id _ λ row found valid.
            OnOk-bind (raise_if (not (schema_protection_ok protection key)) integrity_error) _ _ (
              OnOk-raise_if (not (schema_protection_ok protection key)) integrity_error _ λ fits.
                updated_row id (protected protection key) row _ _ found (λ x. (refl, refl))
                  (λ x h. h) (λ closed. (refl, refl, refl, refl)))))
