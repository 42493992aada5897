-- ===== src/Db/Orders/Writes.antt =====
-- What each operation on orders can write, as a step relation on the database.
use bazarabot.Base.{
  true, String, ◌≡◌, refl, inl, inr, List, [], ◌∷◌, ◌++◌, Option, none, some, first, update_where,
  ◌==◌, Bool-cases, Option-cases, not, is_some, first-append_none, eq_refl, first-update_where,
  map_option, sym, ap, ◌∙◌,
}
use bazarabot.Base.Exec.{raise_if, or_raise, continue, ◌>>◌}
use bazarabot.Base.Exec.Rules.{OnOk, OnOk-ok, OnOk-bind, OnOk-raise_if}
use bazarabot.Base.Int.{ℤ}
use bazarabot.Base.Decimal.{Decimal}
use bazarabot.Models.{
  Datetime, ExitTrigger, Intent, OrderRecord, OrderStatus, Side, order_ok, is_external,
}
use bazarabot.Db.Store.{clock_now, Database, Store}
use bazarabot.Db.Store.Atomicity.{transaction_keeps, raise_if_keeps}
use bazarabot.Errors.{order_state_error, value_error}
use bazarabot.Db.Orders.{
  is_terminal, has_key, settled, settle, row_to_order, load_present, set_orders, insert,
  submitting_row, record_submitting, record_commission, mark_commission_alerted, coalesce,
}

-- One write on the table `orders`, or none.
pub data Write (d : Database) : Database → Type 0 where
  nothing : Write d d
  inserted :
      (o : OrderRecord)
      → first (has_key o.key) d.orders ≡ none
      → order_ok o ≡ true
      → o.status ≡ OrderStatus.submitting
      → Write d (record d { orders = d.orders ++ o ∷ [] })
  updated :
      (key : String) (f : OrderRecord → OrderRecord) (o : OrderRecord)
      → first (has_key key) d.orders ≡ some o
      → ((x : OrderRecord) → (f x).key ≡ x.key)
      → order_ok (f o) ≡ true
      → (is_terminal o.status ≡ true → (f o).status ≡ o.status)
      → Write d (record d { orders = update_where (has_key key) f d.orders })

module _ {P : OrderRecord → Store → Type 0} where
  checked_row :
      (row : Option OrderRecord) (s : Store)
      → ((o : OrderRecord) → row ≡ some o → order_ok o ≡ true → P o s)
      → OnOk P (continue (row_to_order row) (λ found. or_raise found order_state_error) s)
  checked_row none s h = record { at = λ o e. cc }
  checked_row (some o) s h = elim (Bool-cases (order_ok o)) [
    | inl valid ↦ rw valid (OnOk-ok o s (h o refl valid))
    | inr broken ↦ rw broken (record { at = λ o e. cc })
  ]

  -- A row that was loaded is in the table and is valid.
  OnOk-load_present :
      (key : String) (s : Store)
      → ((o : OrderRecord) → first (has_key key) s.db.orders ≡ some o → order_ok o ≡ true → P o s)
      → OnOk P (load_present key s)
  unfolding load_present
  OnOk-load_present key s h = checked_row (first (has_key key) s.db.orders) s h

-- The row with the key, after an UPDATE of it.
pub updated_found :
    (key : String) (f : OrderRecord → OrderRecord) (o : OrderRecord) (rows : List OrderRecord)
    → first (has_key key) rows ≡ some o
    → ((x : OrderRecord) → (f x).key ≡ x.key)
    → first (has_key key) (update_where (has_key key) f rows) ≡ some (f o)
updated_found key f o rows found keeps =
    first-update_where (has_key key) f rows (λ x. ap (λ k. k == key) (keeps x))
    ∙ ap (map_option f) found

same_valid : {a b : OrderRecord} → some a ≡ some b → order_ok b ≡ true → order_ok a ≡ true
same_valid e h = cc

-- An UPDATE of the row with a key, followed by the load that reads it back.
updated_row :
    (key : String) (f : OrderRecord → OrderRecord) (o : OrderRecord) (s : Store)
    → first (has_key key) s.db.orders ≡ some o
    → ((x : OrderRecord) → (f x).key ≡ x.key)
    → (is_terminal o.status ≡ true → (f o).status ≡ o.status)
    → OnOk (λ _ t. Write s.db t.db) (load_present key (set_orders (update_where (has_key key) f) s))
updated_row key f o s found keeps ends =
    OnOk-load_present key (set_orders (update_where (has_key key) f) s) λ o' e valid.
      Write.updated key f o found keeps
        (same_valid (sym (updated_found key f o s.db.orders found keeps) ∙ e) valid) ends

pub settle-Write :
    (key : String) (status : OrderStatus) (lots : ℤ) (price commission : Option Decimal)
    (reason broker_id : Option String) (s : Store)
    → Write s.db (settle key status lots price commission reason broker_id s).1.db
unfolding settle
settle-Write key status lots price commission reason broker_id s =
    elim (Bool-cases (is_terminal status)) [
      | inr open_status ↦ rw open_status Write.nothing
      | inl final ↦ rw final (
          transaction_keeps (Write s.db) _ s Write.nothing (
            OnOk-bind (load_present key) _ _ (
              OnOk-load_present key _ λ o found valid.
                OnOk-bind (raise_if (is_terminal o.status) order_state_error) _ _ (
                  OnOk-raise_if (is_terminal o.status) order_state_error _ λ unsettled.
                    updated_row key
                      (settled status lots price commission reason broker_id (clock_now s)) o _
                      found (λ x. refl) (λ e. cc)))))
    ]

pub record_commission-Write :
    (key : String) (commission : Decimal) (s : Store)
    → Write s.db (record_commission key commission s).1.db
unfolding record_commission
record_commission-Write key commission s = transaction_keeps (Write s.db) _ s Write.nothing (
    OnOk-bind (load_present key) _ _ (
      OnOk-load_present key _ λ o found valid.
        OnOk-bind (raise_if (not (is_terminal o.status)) order_state_error) _ _ (
          OnOk-raise_if (not (is_terminal o.status)) order_state_error _ λ settled_before.
            updated_row key (λ x. record x { commission = some commission }) o _ found (λ x. refl)
              (λ e. refl))))

pub mark_commission_alerted-Write :
    (key : String) (at : Datetime) (s : Store) → Write s.db (mark_commission_alerted key at s).1.db
unfolding mark_commission_alerted
mark_commission_alerted-Write key at s =
    raise_if_keeps (Write s.db) (not at.aware) value_error _ s Write.nothing λ aware.
      transaction_keeps (Write s.db) _ s Write.nothing (
        OnOk-bind (load_present key) _ _ (
          OnOk-load_present key _ λ o found valid.
            updated_row key
              (λ x. record x { commission_alerted_at = coalesce x.commission_alerted_at (some at) })
              o _ found (λ x. refl) (λ e. refl)))

module _ {P : Unit {0} → Store → Type 0} (o : OrderRecord) (s : Store) where
  -- An INSERT succeeds only for a new key.
  OnOk-insert :
      (first (has_key o.key) s.db.orders ≡ none → P tt (set_orders (λ rows. rows ++ o ∷ []) s))
      → OnOk P (insert o s)
  OnOk-insert h = elim (Option-cases (first (has_key o.key) s.db.orders)) [
    | inl fresh ↦ rw fresh (OnOk-ok tt _ (h fresh))
    | inr (old, found) ↦ rw found (record { at = λ a e. cc })
  ]

-- The row with the key, after an INSERT of it.
pub inserted_found :
    (o : OrderRecord) (rows : List OrderRecord)
    → first (has_key o.key) rows ≡ none
    → first (has_key o.key) (rows ++ o ∷ []) ≡ some o
inserted_found o rows fresh =
    first-append_none (has_key o.key) rows (o ∷ []) fresh ∙ (rw (eq_refl o.key))

insert-Write :
    (o : OrderRecord) (s : Store)
    → o.status ≡ OrderStatus.submitting
    → OnOk (λ _ t. Write s.db t.db) ((insert o >> load_present o.key) s)
insert-Write o s new = OnOk-bind (insert o) _ s (
    OnOk-insert o s λ fresh.
      OnOk-load_present o.key (set_orders (λ rows. rows ++ o ∷ []) s) λ o' e valid.
        Write.inserted o fresh (same_valid (sym (inserted_found o s.db.orders fresh) ∙ e) valid)
          new)

pub record_submitting-Write :
    (key ticker : String) (side : Side) (lots : ℤ) (intent : Intent) (trigger : Option ExitTrigger)
    (s : Store)
    → Write s.db (record_submitting key ticker side lots intent trigger s).1.db
unfolding record_submitting
record_submitting-Write key ticker side lots Intent.exit none s = Write.nothing
record_submitting-Write key ticker side lots Intent.exit (some trigger) s =
    raise_if_keeps (Write s.db) (is_external trigger) value_error _ s Write.nothing λ own.
      transaction_keeps (Write s.db) _ s Write.nothing (
        insert-Write (submitting_row key ticker side lots Intent.exit (some trigger) (clock_now s))
          _ refl)
record_submitting-Write key ticker side lots Intent.entry trigger s =
    raise_if_keeps (Write s.db) (is_some trigger) value_error _ s Write.nothing λ own.
      transaction_keeps (Write s.db) _ s Write.nothing (
        insert-Write (submitting_row key ticker side lots Intent.entry trigger (clock_now s)) _
          refl)
