-- ===== src/Db/StopOrders/Writes.antt =====
-- What each operation on stop orders can write, as a step relation on the database.
use bazarabot.Base.{
  ℕ, true, false, String, ◌≡◌, refl, List, [], ◌∷◌, ◌++◌, Option, none, some, first, update_where,
  arith, Bool-cases, sym, ◌∙◌, first-append_none, eq_refl, Option-cases, inl, inr, is_some, not,
}
use bazarabot.Base.Int.{ℤ}
use bazarabot.Base.Decimal.{Decimal}
use bazarabot.Base.Exec.{Result, ◌>>=◌, raise_if, or_raise, continue, ◌>>◌}
use bazarabot.Base.Exec.Rules.{OnOk, OnOk-ok, OnOk-bind, OnOk-raise_if}
use bazarabot.Models.{Datetime, StopOrderRecord, StopOrderStatus, stop_order_ok}
use bazarabot.Errors.{Error, order_state_error, value_error, duplicate_order_error}
use bazarabot.Db.Store.{clock_now, Database, Store, rest_of}
use bazarabot.Db.Store.Atomicity.{transaction_keeps, raise_if_keeps}
use bazarabot.Db.Positions.Rows.{has_id}
use bazarabot.Db.StopOrders.{
  is_terminal, has_key, live_for, row_to_stop, load, load_present, set_stop_orders, insert,
  placing_row, record_placing, activate, activated, settle, settled,
}

-- One write on the table `stop_orders`, or none.
pub data Write (d : Database) : Database → Type 0 where
  nothing : Write d d
  inserted :
      (r : StopOrderRecord)
      → first (has_key r.key) d.stop_orders ≡ none
      → first (live_for r.position_id) d.stop_orders ≡ none
      → stop_order_ok r ≡ true
      → Write d (record d { stop_orders = d.stop_orders ++ r ∷ [] })
  updated :
      (key : String) (f : StopOrderRecord → StopOrderRecord) (r : StopOrderRecord)
      → first (has_key key) d.stop_orders ≡ some r
      → is_terminal r.status ≡ false
      → ((x : StopOrderRecord) → ((f x).key ≡ x.key) × ((f x).position_id ≡ x.position_id))
      → ((x : StopOrderRecord) → stop_order_ok x ≡ true → stop_order_ok (f x) ≡ true)
      → Write d (record d { stop_orders = update_where (has_key key) f d.stop_orders })

module _ {P : StopOrderRecord → Store → Type 0} where
  checked_row :
      (row : Option StopOrderRecord) (s : Store)
      → ((r : StopOrderRecord) → row ≡ some r → stop_order_ok r ≡ true → P r s)
      → OnOk P (continue (row_to_stop row) (λ found. or_raise found order_state_error) s)
  checked_row none s h = record { at = λ r e. cc }
  checked_row (some r) s h = elim (Bool-cases (stop_order_ok r)) [
    | inl valid ↦ rw valid (OnOk-ok r s (h r refl valid))
    | inr broken ↦ rw broken (record { at = λ r e. cc })
  ]

  -- A row that was loaded is in the table.
  OnOk-load_present :
      (key : String) (s : Store)
      → ((r : StopOrderRecord)
          → first (has_key key) s.db.stop_orders ≡ some r
          → stop_order_ok r ≡ true
          → P r s)
      → OnOk P (load_present key s)
  unfolding load_present
  OnOk-load_present key s h = checked_row (first (has_key key) s.db.stop_orders) s h

settled_valid :
    (status : StopOrderStatus) (at : Datetime)
    → not at.aware ≡ false
    → (x : StopOrderRecord) → stop_order_ok x ≡ true
    → stop_order_ok (settled status at x) ≡ true
unfolding stop_order_ok
settled_valid status at aware x h = ground (arith, aware, h)

activated_valid :
    (stop_order_id : String) (x : StopOrderRecord)
    → stop_order_ok x ≡ true
    → stop_order_ok (activated stop_order_id x) ≡ true
unfolding stop_order_ok
activated_valid stop_order_id x h = h

pub settle-Write :
    (key : String) (status : StopOrderStatus) (at : Datetime) (s : Store)
    → Write s.db (settle key status at s).1.db
unfolding settle
settle-Write key status at s =
    raise_if_keeps (Write s.db) (not at.aware) value_error _ s Write.nothing λ aware.
      raise_if_keeps (Write s.db) (not (is_terminal status)) order_state_error _ s Write.nothing
        λ final. transaction_keeps (Write s.db) _ s Write.nothing (
          OnOk-bind (load_present key) _ _ (
            OnOk-load_present key _ λ r found valid.
              OnOk-bind (raise_if (is_terminal r.status) order_state_error) _ _ (
                OnOk-raise_if (is_terminal r.status) order_state_error _ λ live.
                  OnOk-load_present key _ λ _ _ _.
                    Write.updated key (settled status at) r found live (λ x. (refl, refl))
                      (settled_valid status at aware))))

pub activate-Write :
    (key stop_order_id : String) (s : Store) → Write s.db (activate key stop_order_id s).1.db
unfolding activate
activate-Write key stop_order_id s = transaction_keeps (Write s.db) _ s Write.nothing (
    OnOk-bind (load_present key) _ _ (
      OnOk-load_present key _ λ r found valid.
        OnOk-bind (raise_if (is_terminal r.status) order_state_error) _ _ (
          OnOk-raise_if (is_terminal r.status) order_state_error _ λ live.
            OnOk-load_present key _ λ _ _ _.
              Write.updated key (activated stop_order_id) r found live (λ x. (refl, refl))
                (activated_valid stop_order_id))))

same_valid :
    {a b : StopOrderRecord} → some a ≡ some b → stop_order_ok b ≡ true → stop_order_ok a ≡ true
same_valid e h = cc

inserted_found :
    (r : StopOrderRecord) (rows : List StopOrderRecord)
    → first (has_key r.key) rows ≡ none
    → first (has_key r.key) (rows ++ r ∷ []) ≡ some r
inserted_found r rows fresh =
    first-append_none (has_key r.key) rows (r ∷ []) fresh ∙ (rw (eq_refl r.key))

-- An INSERT succeeds only where the position has no standing stop.
OnOk-insert :
    {P : Unit {0} → Store → Type 0} (r : StopOrderRecord) (s : Store)
    → (first (live_for r.position_id) s.db.stop_orders ≡ none
        → P tt (set_stop_orders (λ rows. rows ++ r ∷ []) s))
    → OnOk P (insert r s)
OnOk-insert r s h = elim (Option-cases (first (live_for r.position_id) s.db.stop_orders)) [
  | inr (old, found) ↦ rw found (record { at = λ a e. cc })
  | inl free ↦ rw free (elim (Option-cases (first (has_id r.position_id) s.db.positions)) [
    | inl absent ↦ rw absent (record { at = λ a e. cc })
    | inr (row, there) ↦ rw there (OnOk-ok tt _ (h free))
  ])
]

insert-Write :
    (r : StopOrderRecord) (s : Store)
    → first (has_key r.key) s.db.stop_orders ≡ none
    → OnOk (λ _ t. Write s.db t.db) ((insert r >> load_present r.key) s)
insert-Write r s fresh = OnOk-bind (insert r) _ s (
    OnOk-insert r s λ free.
      OnOk-load_present r.key (set_stop_orders (λ rows. rows ++ r ∷ []) s) λ r' e valid.
        Write.inserted r fresh free
          (same_valid (sym (inserted_found r s.db.stop_orders fresh) ∙ e) valid))

-- A lookup of a key that must not be there.
OnOk-load_absent :
    {A : Type 0} {P : A → Store → Type 0} (key : String) (m : Store → Result Error A × Store)
    (s : Store)
    → (first (has_key key) s.db.stop_orders ≡ none → OnOk P (m s))
    → OnOk P ((do existing ← load key; raise_if (is_some existing) duplicate_order_error; m) s)
unfolding load
OnOk-load_absent key m s h = elim (Option-cases (first (has_key key) s.db.stop_orders)) [
  | inl absent ↦ rw absent (h absent)
  | inr (old, found) ↦ rw found (elim (Bool-cases (stop_order_ok old)) [
    | inl valid ↦ rw valid (record { at = λ a e. cc })
    | inr broken ↦ rw broken (record { at = λ a e. cc })
  ])
]

pub record_placing-Write :
    (key : String) (id : ℕ) (ticker : String) (lots : ℤ) (stop_price : Decimal) (s : Store)
    → Write s.db (record_placing key id ticker lots stop_price s).1.db
unfolding record_placing
record_placing-Write key id ticker lots stop_price s =
    transaction_keeps (Write s.db) _ s Write.nothing (
      OnOk-load_absent key _ (record s { disk = rest_of s.disk })
        λ fresh.
          insert-Write (placing_row key id ticker lots stop_price (clock_now s))
            (record s { disk = rest_of s.disk }) fresh)
