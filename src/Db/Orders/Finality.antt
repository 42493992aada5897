-- ===== src/Db/Orders/Finality.antt =====
-- Sequences of calls on zarabot/db/orders.py, and the soundness of its table.
use mathlib.Core.Path.{subst}
use bazarabot.Base.{
  Bool, true, false, String, ◌==◌, ◌≡◌, refl, ◌∙◌, ap, sym, List, [], ◌∷◌, ◌++◌, Option, none, some,
  first, update_where, All, All-append, first-append_some, first-append_none,
  first-update_where_other, update_where-none, arith, Bool-cases, inl, inr, eq_iff,
}
use bazarabot.Base.Int.{ℤ}
use bazarabot.Base.Decimal.{Decimal}
use bazarabot.Models.{Datetime, ExitTrigger, Intent, OrderRecord, OrderStatus, Side, order_ok}
use bazarabot.Db.Store.{Database, Store}
use bazarabot.Db.Orders
use bazarabot.Db.Orders.{is_terminal, has_key}
use bazarabot.Db.Orders.Writes.{
  Write, settle-Write, record_commission-Write, record_submitting-Write,
  mark_commission_alerted-Write, updated_found,
}

pub data OrderCall : Type 0 where
  record_submitting : String → String → Side → ℤ → Intent → Option ExitTrigger → OrderCall
  settle :
      String
      → OrderStatus
      → ℤ
      → Option Decimal
      → Option Decimal
      → Option String
      → Option String
      → OrderCall
  record_commission : String → Decimal → OrderCall
  mark_commission_alerted : String → Datetime → OrderCall

-- A call, its result or exception dropped.
abbrev pub perform : OrderCall → Store → Store
perform (OrderCall.record_submitting k t side n i x) s =
    (Orders.record_submitting k t side n i x s).1
perform (OrderCall.settle k st n p c r b) s = (Orders.settle k st n p c r b s).1
perform (OrderCall.record_commission k c) s = (Orders.record_commission k c s).1
perform (OrderCall.mark_commission_alerted k at) s = (Orders.mark_commission_alerted k at s).1

pub perform_all : List OrderCall → Store → Store
perform_all [] s = s
perform_all (c ∷ cs) s = perform_all cs (perform c s)

perform-Write : (c : OrderCall) (s : Store) → Write s.db (perform c s).db
perform-Write (OrderCall.record_submitting k t side n i x) s =
    record_submitting-Write k t side n i x s
perform-Write (OrderCall.settle k st n p c r b) s = settle-Write k st n p c r b s
perform-Write (OrderCall.record_commission k c) s = record_commission-Write k c s
perform-Write (OrderCall.mark_commission_alerted k at) s = mark_commission_alerted-Write k at s

-- The row with a key has ended with a status.
abbrev pub EndedAs : String → OrderStatus → Database → Type 0
EndedAs key status d =
    (o : OrderRecord) × (first (has_key key) d.orders ≡ some o) × (o.status ≡ status)

other_key :
    (k j : String) (x : OrderRecord) → (k == j) ≡ false → has_key k x ≡ true → has_key j x ≡ false
other_key k j x ne e = ground (arith, eq_iff k j, eq_iff x.key k, eq_iff x.key j)

same_status :
    {o x : OrderRecord} {status : OrderStatus}
    → some o ≡ some x
    → x.status ≡ status
    → o.status ≡ status
same_status e h = cc

pub Write-EndedAs :
    {d d' : Database} (key : String) (status : OrderStatus)
    → is_terminal status ≡ true
    → Write d d'
    → EndedAs key status d
    → EndedAs key status d'
Write-EndedAs key status t Write.nothing h = h
Write-EndedAs {d} key status t (Write.inserted o fresh valid new) (x, found, e) =
    (x, first-append_some (has_key key) d.orders (o ∷ []) x found, e)
Write-EndedAs {d} key status t (Write.updated k f o there keeps valid ends) (x, found, e) =
    elim (Bool-cases (k == key)) [
      | inl same ↦ same_key ((eq_iff k key).0 same)
      | inr differs ↦ (
        x,
        first-update_where_other (has_key k) (has_key key) f d.orders
              (λ y. ap (λ z. z == key) (keeps y)) (λ y. other_key k key y differs)
            ∙ found,
        e,
      )
    ]
  where
    same_key :
        k ≡ key → EndedAs key status (record d { orders = update_where (has_key k) f d.orders })
    same_key q =
        let there' : first (has_key key) d.orders ≡ some o =
          subst (λ j. first (has_key j) d.orders ≡ some o) q there in
        let ended : o.status ≡ status = same_status (sym there' ∙ found) e in
        subst (λ j. EndedAs key status (record d { orders = update_where (has_key j) f d.orders }))
          (sym q)
          (
            f o,
            updated_found key f o d.orders there' keeps,
            ends (subst (λ z. is_terminal z ≡ true) (sym ended) t) ∙ ended,
          )

-- Once an order is FILLED, REJECTED or CANCELLED, its row keeps that status whatever calls follow.
pub terminal_status_final :
    (key : String) (status : OrderStatus) (calls : List OrderCall) (s : Store)
    → is_terminal status ≡ true
    → EndedAs key status s.db
    → EndedAs key status (perform_all calls s).db
unfolding perform_all
terminal_status_final key status [] s t h = h
terminal_status_final key status (c ∷ cs) s t h =
    terminal_status_final key status cs (perform c s) t
      (Write-EndedAs key status t (perform-Write c s) h)

-- No two rows share a key.
abbrev pub HasDistinctKeys : List OrderRecord → Type 0
HasDistinctKeys [] = Unit
HasDistinctKeys (o ∷ rows) = (first (has_key o.key) rows ≡ none) × HasDistinctKeys rows

-- The table is sound: distinct keys, and rows that `OrderRecord` accepts.
pub record IsSound (d : Database) : Type 0 where
  pub distinct : HasDistinctKeys d.orders
  pub valid : All (λ o. order_ok o ≡ true) d.orders

distinct_inserted :
    (rows : List OrderRecord) (o : OrderRecord)
    → first (has_key o.key) rows ≡ none
    → HasDistinctKeys rows
    → HasDistinctKeys (rows ++ o ∷ [])
distinct_inserted [] o h d = (refl, tt)
distinct_inserted (x ∷ rows) o h d = ground (
  arith,
  eq_iff x.key o.key,
  eq_iff o.key x.key,
  first-append_none (has_key x.key) rows (o ∷ []),
  distinct_inserted rows o,
)

absent_updated :
    (key : String) (p : OrderRecord → Bool) (f : OrderRecord → OrderRecord)
    (rows : List OrderRecord)
    → ((x : OrderRecord) → (f x).key ≡ x.key)
    → first (has_key key) rows ≡ none
    → first (has_key key) (update_where p f rows) ≡ none
absent_updated key p f [] keeps h = refl
absent_updated key p f (x ∷ rows) keeps h =
    ground (arith, keeps x, absent_updated key p f rows keeps)

distinct_updated :
    (p : OrderRecord → Bool) (f : OrderRecord → OrderRecord) (rows : List OrderRecord)
    → ((x : OrderRecord) → (f x).key ≡ x.key)
    → HasDistinctKeys rows
    → HasDistinctKeys (update_where p f rows)
distinct_updated p f [] keeps d = tt
distinct_updated p f (x ∷ rows) keeps d =
    ground
      (arith, keeps x, absent_updated x.key p f rows keeps d.0, distinct_updated p f rows keeps d.1)

same_update :
    (f : OrderRecord → OrderRecord) {o x : OrderRecord}
    → some x ≡ some o
    → order_ok (f o) ≡ true
    → order_ok (f x) ≡ true
same_update f e h = cc

-- The row that an UPDATE reaches is the only one with its key.
valid_updated :
    (key : String) (f : OrderRecord → OrderRecord) (o : OrderRecord) (rows : List OrderRecord)
    → first (has_key key) rows ≡ some o
    → order_ok (f o) ≡ true
    → HasDistinctKeys rows
    → All (λ x. order_ok x ≡ true) rows
    → All (λ x. order_ok x ≡ true) (update_where (has_key key) f rows)
valid_updated key f o [] found ok_o d v = tt
valid_updated key f o (x ∷ rows) found ok_o d v = elim (Bool-cases (has_key key x)) [
  | inl here ↦
      let gone : first (has_key key) rows ≡ none =
        subst (λ k. first (has_key k) rows ≡ none) ((eq_iff x.key key).0 here) d.0 in
      rw (here, update_where-none (has_key key) f rows gone)
        (same_update f (rw here at found) ok_o, v.1)
  | inr there ↦ rw there (v.0, valid_updated key f o rows (rw there at found) ok_o d.1 v.1)
]

pub Write-IsSound : {d d' : Database} → Write d d' → IsSound d → IsSound d'
Write-IsSound Write.nothing h = h
Write-IsSound {d} (Write.inserted o fresh valid new) h = record {
  distinct = distinct_inserted d.orders o fresh h.distinct;
  valid = All-append (λ x. order_ok x ≡ true) d.orders (o ∷ []) h.valid (valid, tt);
}
Write-IsSound {d} (Write.updated k f o there keeps valid ends) h = record {
  distinct = distinct_updated (has_key k) f d.orders keeps h.distinct;
  valid = valid_updated k f o d.orders there valid h.distinct h.valid;
}

-- From a sound table every sequence of calls, refused or not, leads to a sound table.
pub orders_stay-IsSound :
    (calls : List OrderCall) (s : Store) → IsSound s.db → IsSound (perform_all calls s).db
unfolding perform_all
orders_stay-IsSound [] s h = h
orders_stay-IsSound (c ∷ cs) s h =
    orders_stay-IsSound cs (perform c s) (Write-IsSound (perform-Write c s) h)
