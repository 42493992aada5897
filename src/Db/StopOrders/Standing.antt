-- ===== src/Db/StopOrders/Standing.antt =====
-- Sequences of calls on zarabot/db/stop_orders.py, and the soundness of its table.
use mathlib.Core.Path.{subst}
use bazarabot.Base.{
  ℕ, true, false, String, ◌≡◌, refl, List, [], ◌∷◌, ◌++◌, none, some, first, update_where,
  update_where-none, first-append_none, arith, keep, All, All-append, All-update_where, Bool-cases,
  inl, inr, eq_iff,
}
use bazarabot.Models.{StopOrderRecord}
use bazarabot.Db.Store.{Database}
use bazarabot.Base.Int.{ℤ}
use bazarabot.Base.Decimal.{Decimal}
use bazarabot.Base.Exec.{ok}
use bazarabot.Models.{Datetime, StopOrderStatus, stop_order_ok}
use bazarabot.Db.Store.{Store}
use bazarabot.Db.StopOrders
use bazarabot.Db.StopOrders.{is_terminal, has_key, live_for, single, active_for_position}
use bazarabot.Db.StopOrders.Writes.{Write, record_placing-Write, activate-Write, settle-Write}

abbrev pub HasDistinctKeys : List StopOrderRecord → Type 0
HasDistinctKeys [] = Unit
HasDistinctKeys (r ∷ rows) = (first (has_key r.key) rows ≡ none) × HasDistinctKeys rows

-- At most one PLACING or ACTIVE row for each position.
abbrev pub HasOneLive : List StopOrderRecord → Type 0
HasOneLive [] = Unit
HasOneLive (r ∷ rows) =
    (is_terminal r.status ≡ false → first (live_for r.position_id) rows ≡ none) × HasOneLive rows

pub record IsSound (d : Database) : Type 0 where
  pub distinct : HasDistinctKeys d.stop_orders
  pub one_live : HasOneLive d.stop_orders
  pub valid : All (λ r. stop_order_ok r ≡ true) d.stop_orders

distinct_inserted :
    (rows : List StopOrderRecord) (r : StopOrderRecord)
    → first (has_key r.key) rows ≡ none
    → HasDistinctKeys rows
    → HasDistinctKeys (rows ++ r ∷ [])
distinct_inserted [] r h d = (refl, tt)
distinct_inserted (x ∷ rows) r h d = ground (
  arith,
  eq_iff x.key r.key,
  eq_iff r.key x.key,
  first-append_none (has_key x.key) rows (r ∷ []),
  distinct_inserted rows r,
)

one_live_inserted :
    (rows : List StopOrderRecord) (r : StopOrderRecord)
    → first (live_for r.position_id) rows ≡ none
    → HasOneLive rows
    → HasOneLive (rows ++ r ∷ [])
one_live_inserted [] r h d = (λ e. refl, tt)
one_live_inserted (x ∷ rows) r h d =
    ground
      (arith, first-append_none (live_for x.position_id) rows (r ∷ []), one_live_inserted rows r)

-- An UPDATE, by key, of a standing row.
module _ (key : String) (f : StopOrderRecord → StopOrderRecord) (r : StopOrderRecord)
    (standing : is_terminal r.status ≡ false)
    (keeps : (x : StopOrderRecord)
      → ((f x).key ≡ x.key) × ((f x).position_id ≡ x.position_id)) where
  absent_updated :
      (k : String) (rows : List StopOrderRecord)
      → first (has_key k) rows ≡ none
      → first (has_key k) (update_where (has_key key) f rows) ≡ none
  absent_updated k [] h = refl
  absent_updated k (x ∷ rows) h = ground (arith, keeps x, absent_updated k rows)

  distinct_updated :
      (rows : List StopOrderRecord)
      → HasDistinctKeys rows
      → HasDistinctKeys (update_where (has_key key) f rows)
  distinct_updated [] d = tt
  distinct_updated (x ∷ rows) d =
      ground (arith, keeps x, absent_updated x.key rows d.0, distinct_updated rows d.1)

  none_left :
      (x : StopOrderRecord) (rows : List StopOrderRecord)
      → has_key key x ≡ true
      → first (has_key x.key) rows ≡ none
      → update_where (has_key key) f rows ≡ rows
  none_left x rows here d =
      update_where-none (has_key key) f rows
        (subst (λ k. first (has_key k) rows ≡ none) ((eq_iff x.key key).0 here) d)

  none_live_updated :
      (id : ℕ) (rows : List StopOrderRecord)
      → first (has_key key) rows ≡ some r
      → HasDistinctKeys rows
      → first (live_for id) rows ≡ none
      → first (live_for id) (update_where (has_key key) f rows) ≡ none
  none_live_updated id [] found d h = refl
  none_live_updated id (x ∷ rows) found d h = elim (Bool-cases (has_key key x)) [
    | inl here ↦ rw (here, none_left x rows here d.0) (ground (arith, keeps x, here))
    | inr there ↦
        rw there (ground (arith, none_live_updated id rows (rw there at found) d.1, there))
  ]

  one_live_updated :
      (rows : List StopOrderRecord)
      → first (has_key key) rows ≡ some r
      → HasDistinctKeys rows
      → HasOneLive rows
      → HasOneLive (update_where (has_key key) f rows)
  one_live_updated [] found d h = tt
  one_live_updated (x ∷ rows) found d h = elim (Bool-cases (has_key key x)) [
    | inl here ↦ rw (here, none_left x rows here d.0) (λ e. ground (arith, keeps x, here, h.0), h.1)
    | inr there ↦ rw there (
      λ e. none_live_updated x.position_id rows (rw there at found) d.1 (h.0 e),
      one_live_updated rows (rw there at found) d.1 h.1,
    )
  ]

pub Write-IsSound : {d d' : Database} → Write d d' → IsSound d → IsSound d'
Write-IsSound Write.nothing h = h
Write-IsSound {d} (Write.inserted r fresh free good) h = record {
  distinct = distinct_inserted d.stop_orders r fresh h.distinct;
  one_live = one_live_inserted d.stop_orders r free h.one_live;
  valid = All-append (λ x. stop_order_ok x ≡ true) d.stop_orders (r ∷ []) h.valid (good, tt);
}
Write-IsSound {d} (Write.updated key f r found standing keeps stays) h = record {
  distinct = distinct_updated key f r standing keeps d.stop_orders h.distinct;
  one_live = one_live_updated key f r standing keeps d.stop_orders found h.distinct h.one_live;
  valid =
      All-update_where (λ x. stop_order_ok x ≡ true) (has_key key) f d.stop_orders
        (λ x _ v. stays x v) h.valid;
}

pub data StopCall : Type 0 where
  record_placing : String → ℕ → String → ℤ → Decimal → StopCall
  activate : String → String → StopCall
  settle : String → StopOrderStatus → Datetime → StopCall

-- A call, its result or exception dropped.
abbrev pub perform : StopCall → Store → Store
perform (StopCall.record_placing k id t n p) s = (StopOrders.record_placing k id t n p s).1
perform (StopCall.activate k i) s = (StopOrders.activate k i s).1
perform (StopCall.settle k st at) s = (StopOrders.settle k st at s).1

pub perform_all : List StopCall → Store → Store
perform_all [] s = s
perform_all (c ∷ cs) s = perform_all cs (perform c s)

perform-Write : (c : StopCall) (s : Store) → Write s.db (perform c s).db
perform-Write (StopCall.record_placing k id t n p) s = record_placing-Write k id t n p s
perform-Write (StopCall.activate k i) s = activate-Write k i s
perform-Write (StopCall.settle k st at) s = settle-Write k st at s

IsSound-after :
    (calls : List StopCall) (s : Store) → IsSound s.db → IsSound (perform_all calls s).db
unfolding perform_all
IsSound-after [] s h = h
IsSound-after (c ∷ cs) s h = IsSound-after cs (perform c s) (Write-IsSound (perform-Write c s) h)

none_kept :
    (id : ℕ) (rows : List StopOrderRecord)
    → first (live_for id) rows ≡ none
    → keep (live_for id) rows ≡ []
none_kept id [] h = refl
none_kept id (x ∷ rows) h = ground (arith, none_kept id rows)

-- Where each position has one live row, the rows of a position are one or none.
single_live :
    (id : ℕ) (rows : List StopOrderRecord)
    → HasOneLive rows
    → All (λ r. stop_order_ok r ≡ true) rows
    → single (keep (live_for id) rows) ≡ ok (first (live_for id) rows)
single_live id [] h v = refl
single_live id (x ∷ rows) h v = ground (arith, none_kept id rows, single_live id rows, h.0, v.0)

-- From a sound table, after any sequence of calls, refused or not, the table is sound, and so the
-- query for a position's standing stop answers with it, or with nothing: it never meets two.
pub one_standing_stop :
    (calls : List StopCall) (s : Store) (id : ℕ)
    → IsSound s.db
    → IsSound (perform_all calls s).db
      × (active_for_position id (perform_all calls s)
          ≡ (ok (first (live_for id) (perform_all calls s).db.stop_orders), perform_all calls s))
unfolding active_for_position
one_standing_stop calls s id h =
    let after : IsSound (perform_all calls s).db = IsSound-after calls s h in
    (after, rw (single_live id (perform_all calls s).db.stop_orders after.one_live after.valid))
