-- ===== src/Db/Cooldowns/Newest.antt =====
-- Sequences of calls of `start` of zarabot/db/cooldowns.py.
use bazarabot.Base.{
  Bool, not, ap, leb, leb→le, leb→lt, Option-cases, ◌∙◌, ℕ, true, false, String, ◌==◌, ◌≡◌, refl,
  List, [], ◌∷◌, ◌++◌, Option, none, some, first, update_where, arith, Bool-cases, inl, inr, ◌≤◌,
  ◌<◌, ◌+◌, eq_iff, eq_refl, first-append_none, is_some,
}
use mathlib.Core.Path.{subst}
use bazarabot.Base.Exec.{Result, ok, err, raise_if, ◌>>◌}
use bazarabot.Errors.{Error, value_error}
use bazarabot.Db.Store.Atomicity.{transaction_keeps, raise_if_keeps}
use bazarabot.Models.{Datetime, minutes}
use bazarabot.Db.Store.{Call, Database, commit_or_rollback, Store, transaction, next_fails, rest_of}
use bazarabot.Db.Cooldowns.{
  runs, names, time_of, lookup, advance, set_cooldowns, start, started_at, is_active,
}

-- The recorded start is at `n` or later.
abbrev pub StartedSince : ℕ → Option Datetime → Type 0
StartedSince n o = (t : Datetime) × (o ≡ some t) × (n ≤ t.instant)

moved :
    (ticker : String) (at : Datetime) (rows : List (String × Datetime))
    → is_some (first (names ticker) rows) ≡ true
    → first (names ticker) (update_where (names ticker) (λ row. (ticker, at)) rows)
      ≡ some (ticker, at)
moved ticker at [] h = cc
moved ticker at (row ∷ rows) h = ground (arith, moved ticker at rows, eq_refl ticker)

added :
    (ticker : String) (at : Datetime) (rows : List (String × Datetime))
    → first (names ticker) rows ≡ none
    → first (names ticker) (rows ++ (ticker, at) ∷ []) ≡ some (ticker, at)
added ticker at rows h =
    first-append_none (names ticker) rows ((ticker, at) ∷ []) h ∙ (rw (eq_refl ticker))

kept_by_move :
    (k j : String) (at : Datetime) (rows : List (String × Datetime))
    → (k == j) ≡ false
    → first (names j) (update_where (names k) (λ row. (k, at)) rows) ≡ first (names j) rows
kept_by_move k j at [] h = refl
kept_by_move k j at (row ∷ rows) h =
    ground (arith, kept_by_move k j at rows h, eq_iff row.0 k, eq_iff row.0 j, eq_iff k j)

kept_by_insert :
    (k j : String) (at : Datetime) (rows : List (String × Datetime))
    → (k == j) ≡ false
    → first (names j) (rows ++ (k, at) ∷ []) ≡ first (names j) rows
kept_by_insert k j at [] h = rw h
kept_by_insert k j at (row ∷ rows) h = ground (arith, kept_by_insert k j at rows h)

since_none : (n : ℕ) (P : Type 0) → StartedSince n none → P
since_none n P (t, e, h) = cc

since_some : (n : ℕ) (t : Datetime) → StartedSince n (some t) → n ≤ t.instant
since_some n t (u, e, h) = ground (arith, e, h)

-- What one recorded start does to the row of its own ticker.
module _ (k : String) (at : Datetime) (n : ℕ) (s : Store) where
  moved_since :
      (row : String × Datetime)
      → first (names k) s.db.cooldowns ≡ some row
      → n ≤ at.instant
      → StartedSince n (lookup k (set_cooldowns (update_where (names k) (λ r. (k, at))) s))
  moved_since row found h = (at, ap time_of (moved k at s.db.cooldowns (rw found)), h)

  added_since :
      first (names k) s.db.cooldowns ≡ none
      → n ≤ at.instant
      → StartedSince n (lookup k (set_cooldowns (λ rows. rows ++ (k, at) ∷ []) s))
  added_since absent h = (at, ap time_of (added k at s.db.cooldowns absent), h)

  -- Afterwards the row is no earlier than the start that was recorded.
  advance_records : n ≤ at.instant → StartedSince n (lookup k (advance k at (lookup k s) s).1)
  advance_records h = elim (Option-cases (first (names k) s.db.cooldowns)) [
    | inl absent ↦ rw absent (added_since absent h)
    | inr (row, found) ↦ rw found (elim (Bool-cases (leb at.instant row.1.instant)) [
      | inl late ↦
          rw late (row.1, ap time_of found, omega (arith, h, leb→le at.instant row.1.instant late))
      | inr early ↦ rw early (moved_since row found h)
    ])
  ]

  -- And no earlier than it was.
  advance_own :
      StartedSince n (lookup k s) → StartedSince n (lookup k (advance k at (lookup k s) s).1)
  advance_own h = elim (Option-cases (first (names k) s.db.cooldowns)) [
    | inl absent ↦ since_none n _ (rw absent at h)
    | inr (row, found) ↦ rw found (elim (Bool-cases (leb at.instant row.1.instant)) [
      | inl late ↦ rw late h
      | inr early ↦ rw early (
          moved_since row found (
            omega
              (arith, since_some n row.1 (rw found at h), leb→lt at.instant row.1.instant early)))
    ])
  ]

  -- The rows of other tickers stay.
  advance_other :
      (j : String)
      → (k == j) ≡ false
      → StartedSince n (lookup j s)
      → StartedSince n (lookup j (advance k at (lookup k s) s).1)
  advance_other j differs (t, e, h) = (t, other_kept ∙ e, h)
    where
      other_kept : lookup j (advance k at (lookup k s) s).1 ≡ lookup j s
      other_kept = elim (Option-cases (first (names k) s.db.cooldowns)) [
        | inl absent ↦ rw absent (ap time_of (kept_by_insert k j at s.db.cooldowns differs))
        | inr (row, found) ↦ rw found (elim (Bool-cases (leb at.instant row.1.instant)) [
          | inl late ↦ rw late
          | inr early ↦ rw early (ap time_of (kept_by_move k j at s.db.cooldowns differs))
        ])
      ]

-- A call of `start`: the ticker and the instant.
abbrev pub perform : String × Datetime → Store → Store
perform (k, at) s = (start k at s).1

pub perform_all : List (String × Datetime) → Store → Store
perform_all [] s = s
perform_all (c ∷ cs) s = perform_all cs (perform c s)

advance_since :
    (k j : String) (at : Datetime) (n : ℕ) (s : Store)
    → StartedSince n (lookup j s)
    → StartedSince n (lookup j (advance k at (lookup k s) s).1)
advance_since k j at n s h = elim (Bool-cases (k == j)) [
  | inl same ↦
      subst
        (λ i.
          StartedSince n (lookup i s) → StartedSince n (lookup i (advance k at (lookup k s) s).1))
        ((eq_iff k j).0 same) (advance_own k at n s) h
  | inr differs ↦ advance_other k at n s j differs h
]

start_since :
    (k j : String) (at : Datetime) (n : ℕ) (s : Store)
    → StartedSince n (lookup j s)
    → StartedSince n (lookup j (start k at s).1)
unfolding start
start_since k j at n s h =
    raise_if_keeps (λ d. StartedSince n (time_of (first (names j) d.cooldowns))) (not at.aware)
      value_error _ s h
      λ aware.
        transaction_keeps (λ d. StartedSince n (time_of (first (names j) d.cooldowns))) _ s h
          (record { at = λ a e. advance_since k j at n (record s { disk = rest_of s.disk }) h })

all_since :
    (j : String) (n : ℕ) (calls : List (String × Datetime)) (s : Store)
    → StartedSince n (lookup j s)
    → StartedSince n (lookup j (perform_all calls s))
unfolding perform_all
all_since j n [] s h = h
all_since j n (c ∷ cs) s h = all_since j n cs (perform c s) (start_since c.0 j c.1 n s h)

-- What a call that returned has done, past its guard and past its transaction.
module _ (P : Store → Type 0) where
  past_guard :
      (b : Bool) (e : Error) (m : Call (Unit {0})) (s : Store)
      → ((raise_if b e >> m) s).0 ≡ ok tt
      → ((m s).0 ≡ ok tt → P (m s).1)
      → P ((raise_if b e >> m) s).1
  past_guard true e m s h k = cc
  past_guard false e m s h k = k h

  committed :
      (before : Database) (r : Result Error (Unit {0}) × Store)
      → (commit_or_rollback before r).0 ≡ ok tt
      → P r.1
      → P (commit_or_rollback before r).1
  committed before (ok a, s) e h = h
  committed before (err x, s) e h = cc

  past_commit :
      (m : Call (Unit {0})) (s : Store)
      → (transaction m s).0 ≡ ok tt
      → P (m (record s { disk = rest_of s.disk })).1
      → P (transaction m s).1
  unfolding transaction
  past_commit m s e h = elim (Bool-cases (next_fails s.disk)) [
    | inl fails ↦ cc (rw fails at e)
    | inr works ↦
        rw works (committed s.db (m (record s { disk = rest_of s.disk })) (rw works at e) h)
  ]

start_records :
    (k : String) (at : Datetime) (s : Store)
    → (start k at s).0 ≡ ok tt
    → StartedSince at.instant (lookup k (start k at s).1)
unfolding start
start_records k at s e =
    past_guard (λ t. StartedSince at.instant (lookup k t)) (not at.aware) value_error _ s e
      λ done.
        past_commit (λ t. StartedSince at.instant (lookup k t)) _ s done
          (advance_records k at at.instant (record s { disk = rest_of s.disk }) (omega arith))

since_runs :
    (o : Option Datetime) (n mins : ℕ) (now : Datetime)
    → StartedSince n o
    → now.instant < n + minutes mins
    → runs o now mins ≡ true
since_runs none n mins now h k = since_none n _ h
since_runs (some t) n mins now h k = ground (arith, since_some n t h)

-- What `is_active` answers for an aware `now`.
answer :
    (b : Bool) (e : Error) (m : Call Bool) (s : Store)
    → b ≡ false
    → ((raise_if b e >> m) s).0 ≡ (m s).0
answer b e m s h = rw h

-- Once an exit's cooldown is recorded, the ticker is in cooldown at every instant before `minutes`
-- have passed since the exit, whatever starts are recorded afterwards, also those that fail.
pub cooldown_lasts :
    (ticker : String) (at now : Datetime) (mins : ℕ) (later : List (String × Datetime)) (s : Store)
    → (start ticker at s).0 ≡ ok tt
    → now.aware ≡ true
    → now.instant < at.instant + minutes mins
    → (is_active ticker now mins (perform_all later (start ticker at s).1)).0 ≡ ok true
unfolding is_active started_at
cooldown_lasts ticker at now mins later s recorded aware early =
    answer (not now.aware) value_error _ (perform_all later (start ticker at s).1) (rw aware)
    ∙ ap ok (
        since_runs (lookup ticker (perform_all later (start ticker at s).1)) at.instant mins now
          (all_since ticker at.instant later (start ticker at s).1
            (start_records ticker at s recorded))
          early)
