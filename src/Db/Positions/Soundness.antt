-- ===== src/Db/Positions/Soundness.antt =====
-- Sequences of calls on zarabot/db/positions.py, and the soundness of its table.
use mathlib.Core.Path.{subst}
use bazarabot.Base.{
  ℕ, Bool, true, false, String, ◌≡◌, refl, ◌∙◌, ap, sym, List, [], ◌∷◌, ◌++◌, Option, none, some,
  first, update_where, All, All-append, first-append_some, first-append_none,
  first-update_where_other, update_where-none, arith, Bool-cases, inl, inr, eq_iff, eqb,
}
use bazarabot.Base.Int.{ℤ}
use bazarabot.Base.Decimal.{Decimal}
use bazarabot.Models.{
  Datetime, ExitTrigger, Instrument, OrderRecord, Position, Signal, StopProtection, position_ok,
  is_open_status,
}
use bazarabot.Config.{Config}
use bazarabot.Db.Store.{Database, Store, PositionRow}
use bazarabot.Db.Positions
use bazarabot.Db.Positions.Rows.{has_id, is_open, open_in}
use bazarabot.Db.Positions.Writes.{
  Write, SameExit, updated_found, update_lots-Write, set_stop_protection-Write,
}
use bazarabot.Db.Positions.Booking.{close-Write, recompute_realised-Write}
use bazarabot.Db.Positions.Opening.{open_position-Write, adopt-Write, fresh_id}

pub data PositionCall : Type 0 where
  open_position : Signal → OrderRecord → Instrument → Decimal → Decimal → Datetime → PositionCall
  set_stop_protection : ℕ → StopProtection → Option String → PositionCall
  close : ℕ → ExitTrigger → Decimal → Datetime → Option OrderRecord → Option Decimal → PositionCall
  recompute_realised : ℕ → PositionCall
  adopt : Config → Instrument → ℤ → Decimal → Datetime → String → PositionCall
  update_lots : ℕ → ℤ → PositionCall

-- A call, its result or exception dropped.
abbrev pub perform : PositionCall → Store → Store
perform (PositionCall.open_position g o i x y t) s = (Positions.open_position g o i x y t s).1
perform (PositionCall.set_stop_protection n p k) s = (Positions.set_stop_protection n p k s).1
perform (PositionCall.close n t p at o fee) s = (Positions.close n t p at o fee s).1
perform (PositionCall.recompute_realised n) s = (Positions.recompute_realised n s).1
perform (PositionCall.adopt c i n p at k) s = (Positions.adopt c i n p at k s).1
perform (PositionCall.update_lots n m) s = (Positions.update_lots n m s).1

pub perform_all : List PositionCall → Store → Store
perform_all [] s = s
perform_all (c ∷ cs) s = perform_all cs (perform c s)

perform-Write : (c : PositionCall) (s : Store) → Write s.db (perform c s).db
perform-Write (PositionCall.open_position g o i x y t) s = open_position-Write g o i x y t s
perform-Write (PositionCall.set_stop_protection n p k) s = set_stop_protection-Write n p k s
perform-Write (PositionCall.close n t p at o fee) s = close-Write n t p at o fee s
perform-Write (PositionCall.recompute_realised n) s = recompute_realised-Write n s
perform-Write (PositionCall.adopt c i n p at k) s = adopt-Write c i n p at k s
perform-Write (PositionCall.update_lots n m) s = update_lots-Write n m s

-- At most one open row for each ticker.
abbrev pub HasOneOpen : List PositionRow → Type 0
HasOneOpen [] = Unit
HasOneOpen (row ∷ rows) =
    (is_open row ≡ true → first (open_in row.position.ticker) rows ≡ none) × HasOneOpen rows

abbrev pub HasDistinctIds : List PositionRow → Type 0
HasDistinctIds [] = Unit
HasDistinctIds (row ∷ rows) = (first (has_id row.position.id) rows ≡ none) × HasDistinctIds rows

pub record IsSound (d : Database) : Type 0 where
  pub one_open : HasOneOpen d.positions
  pub distinct : HasDistinctIds d.positions
  pub valid : All (λ row. position_ok row.position ≡ true) d.positions

one_open_inserted :
    (rows : List PositionRow) (row : PositionRow)
    → first (open_in row.position.ticker) rows ≡ none
    → HasOneOpen rows
    → HasOneOpen (rows ++ row ∷ [])
one_open_inserted [] row h d = (λ e. refl, tt)
one_open_inserted (x ∷ rows) row h d = ground (
  arith,
  eq_iff x.position.ticker row.position.ticker,
  eq_iff row.position.ticker x.position.ticker,
  first-append_none (open_in x.position.ticker) rows (row ∷ []),
  one_open_inserted rows row,
)

distinct_inserted :
    (rows : List PositionRow) (row : PositionRow)
    → first (has_id row.position.id) rows ≡ none
    → HasDistinctIds rows
    → HasDistinctIds (rows ++ row ∷ [])
distinct_inserted [] row h d = (refl, tt)
distinct_inserted (x ∷ rows) row h d =
    ground
      (arith, first-append_none (has_id x.position.id) rows (row ∷ []), distinct_inserted rows row)

-- An UPDATE that keeps ids and tickers and opens no row.
module _ (p : PositionRow → Bool) (f : PositionRow → PositionRow)
    (keeps : (x : PositionRow)
      → ((f x).position.id ≡ x.position.id) × ((f x).position.ticker ≡ x.position.ticker))
    (opens : (x : PositionRow) → is_open (f x) ≡ true → is_open x ≡ true) where
  absent_updated :
      (id : ℕ) (rows : List PositionRow)
      → first (has_id id) rows ≡ none
      → first (has_id id) (update_where p f rows) ≡ none
  absent_updated id [] h = refl
  absent_updated id (x ∷ rows) h = ground (arith, keeps x, absent_updated id rows)

  none_open_updated :
      (ticker : String) (rows : List PositionRow)
      → first (open_in ticker) rows ≡ none
      → first (open_in ticker) (update_where p f rows) ≡ none
  none_open_updated ticker [] h = refl
  none_open_updated ticker (x ∷ rows) h =
      ground (arith, keeps x, opens x, none_open_updated ticker rows)

  distinct_updated :
      (rows : List PositionRow) → HasDistinctIds rows → HasDistinctIds (update_where p f rows)
  distinct_updated [] d = tt
  distinct_updated (x ∷ rows) d =
      ground (arith, keeps x, absent_updated x.position.id rows d.0, distinct_updated rows d.1)

  one_open_updated :
      (rows : List PositionRow) → HasOneOpen rows → HasOneOpen (update_where p f rows)
  one_open_updated [] d = tt
  one_open_updated (x ∷ rows) d = (
    λ e. ground (arith, keeps x, opens x, none_open_updated x.position.ticker rows, d.0),
    one_open_updated rows d.1,
  )

same_update :
    (f : PositionRow → PositionRow) {a b : PositionRow}
    → some a ≡ some b
    → position_ok (f b).position ≡ true
    → position_ok (f a).position ≡ true
same_update f e h = cc

eqb_eq : (a b : ℕ) → eqb a b ≡ true → a ≡ b
eqb_eq a b h = ground arith

valid_updated :
    (id : ℕ) (f : PositionRow → PositionRow) (row : PositionRow) (rows : List PositionRow)
    → first (has_id id) rows ≡ some row
    → position_ok (f row).position ≡ true
    → HasDistinctIds rows
    → All (λ x. position_ok x.position ≡ true) rows
    → All (λ x. position_ok x.position ≡ true) (update_where (has_id id) f rows)
valid_updated id f row [] found fine d v = tt
valid_updated id f row (x ∷ rows) found fine d v = elim (Bool-cases (has_id id x)) [
  | inl here ↦
      let gone : first (has_id id) rows ≡ none =
        subst (λ k. first (has_id k) rows ≡ none) (eqb_eq x.position.id id here) d.0 in
      rw (here, update_where-none (has_id id) f rows gone)
        (same_update f (rw here at found) fine, v.1)
  | inr there ↦ rw there (v.0, valid_updated id f row rows (rw there at found) fine d.1 v.1)
]

pub Write-IsSound : {d d' : Database} → Write d d' → IsSound d → IsSound d'
Write-IsSound Write.nothing h = h
Write-IsSound {d} (Write.inserted row e id free known valid owner) h = record {
  one_open = one_open_inserted d.positions row free h.one_open;
  distinct =
      distinct_inserted d.positions row (fresh_id row.position.id d.positions (omega (arith, id)))
        h.distinct;
  valid =
      All-append (λ x. position_ok x.position ≡ true) d.positions (row ∷ []) h.valid (valid, tt);
}
Write-IsSound {d} (Write.updated id f row e found keeps opens ends valid owner) h = record {
  one_open = one_open_updated (has_id id) f keeps opens d.positions h.one_open;
  distinct = distinct_updated (has_id id) f keeps opens d.positions h.distinct;
  valid = valid_updated id f row d.positions found valid h.distinct h.valid;
}

-- From a sound table every sequence of calls, refused or not, leads to a sound table: one open
-- position per ticker, distinct ids, and rows that `Position` accepts, so that a stop order's key
-- stands exactly beside EXCHANGE protection.
pub positions_stay-IsSound :
    (calls : List PositionCall) (s : Store) → IsSound s.db → IsSound (perform_all calls s).db
unfolding perform_all
positions_stay-IsSound [] s h = h
positions_stay-IsSound (c ∷ cs) s h =
    positions_stay-IsSound cs (perform c s) (Write-IsSound (perform-Write c s) h)

-- The row with an id is closed, on the terms of `p`.
abbrev pub ClosedAs : ℕ → Position → Database → Type 0
ClosedAs id p d =
    (row : PositionRow) × (first (has_id id) d.positions ≡ some row)
    × (is_open row ≡ false)
    × SameExit row.position p

same_closed :
    (p : Position) {a b : PositionRow}
    → some a ≡ some b
    → is_open b ≡ false
    → SameExit b.position p
    → (is_open a ≡ false) × SameExit a.position p
same_closed p e h k = ground arith

SameExit-trans : (a b c : Position) → SameExit a b → SameExit b c → SameExit a c
SameExit-trans a b c h k = (h.0 ∙ k.0, h.1 ∙ k.1, h.2 ∙ k.2, h.3 ∙ k.3)

pub Write-ClosedAs :
    {d d' : Database} (id : ℕ) (p : Position) → Write d d' → ClosedAs id p d → ClosedAs id p d'
Write-ClosedAs id p Write.nothing h = h
Write-ClosedAs {d} id p (Write.inserted row e n free known valid owner) (x, found, shut, terms) =
    (x, first-append_some (has_id id) d.positions (row ∷ []) x found, shut, terms)
Write-ClosedAs {d} id p (Write.updated k f row e there keeps opens ends valid owner)
      (x, found, shut, terms) =
    elim (Bool-cases (eqb k id)) [
      | inl same ↦ same_id (eqb_eq k id same)
      | inr differs ↦ (
        x,
        first-update_where_other (has_id k) (has_id id) f d.positions
              (λ y. ap (λ z. eqb z id) (keeps y).0) (λ y h. ground arith)
            ∙ found,
        shut,
        terms,
      )
    ]
  where
    same_id :
        k ≡ id → ClosedAs id p (record d { positions = update_where (has_id k) f d.positions })
    same_id q =
        let there' : first (has_id id) d.positions ≡ some row =
          subst (λ j. first (has_id j) d.positions ≡ some row) q there in
        let (shut', terms') = same_closed p (sym there' ∙ found) shut terms in
        subst (λ j. ClosedAs id p (record d { positions = update_where (has_id j) f d.positions }))
          (sym q)
          (
            f row,
            updated_found id f row d.positions there' keeps,
            ap is_open_status (ends shut').3 ∙ shut',
            SameExit-trans (f row).position row.position p (ends shut') terms',
          )

-- A closed position stays in the table, closed, with the trigger, price and time of its close.
pub close_final :
    (id : ℕ) (p : Position) (calls : List PositionCall) (s : Store)
    → ClosedAs id p s.db
    → ClosedAs id p (perform_all calls s).db
unfolding perform_all
close_final id p [] s h = h
close_final id p (c ∷ cs) s h =
    close_final id p cs (perform c s) (Write-ClosedAs id p (perform-Write c s) h)
