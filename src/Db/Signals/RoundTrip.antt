-- ===== src/Db/Signals/RoundTrip.antt =====
-- Recording a signal and reading it back, in zarabot/db/signals.py.
use bazarabot.Base.{
  All, All-append, ◌≡◌, refl, sym, ap, ◌∙◌, Bool, true, false, ◌&&◌, List, [], ◌∷◌, ◌++◌, keep,
  sort_by, arith,
}
use mathlib.Core.Path.{subst}
use bazarabot.Base.Members.{
  IsMember, append-IsMember, sort_by-IsMember, keep-IsMember, sort_by-All, keep-All,
}
use bazarabot.Base.Exec.{ok, catch}
use bazarabot.Models.{Datetime, Date, RiskDecision, Side, Signal, risk_decision_ok, signal_ok}
use bazarabot.Db.Store.{Store, next_fails, transaction}
use bazarabot.Db.Signals.{
  stored_decision, with_rest, record_signal, read_signal, row_to_pair, rows_to_pairs, in_period,
  generated_first, list_for_period,
}

-- Readable by `_row_to_pair`.
abbrev pub IsReadable : Signal × RiskDecision → Type 0
IsReadable row = (signal_ok row.0 && risk_decision_ok row.1) ≡ true

-- An approval carries lots, a refusal its reason.
stored_decision_same : (d : RiskDecision) → risk_decision_ok d ≡ true → stored_decision d ≡ d
stored_decision_same d h = ground (arith, h)

row_read :
    (row : Signal × RiskDecision) → IsReadable row → row_to_pair row ≡ ok (read_signal row.0, row.1)
row_read (signal, decision) h = rw h

front_read :
    (row : Signal × RiskDecision) (rows pairs : List (Signal × RiskDecision))
    → IsReadable row
    → rows_to_pairs rows ≡ ok pairs
    → rows_to_pairs (row ∷ rows) ≡ ok ((read_signal row.0, row.1) ∷ pairs)
front_read row rows pairs h e =
    ap (λ r. with_rest r (rows_to_pairs rows)) (row_read row h)
    ∙ ap (with_rest (ok (read_signal row.0, row.1))) e

rows_to_pairs_ok :
    (rows : List (Signal × RiskDecision))
    → All IsReadable rows
    → (pairs : List (Signal × RiskDecision)) × (rows_to_pairs rows ≡ ok pairs)
rows_to_pairs_ok [] h = ([], refl)
rows_to_pairs_ok (row ∷ rows) h =
    let (pairs, e) = rows_to_pairs_ok rows h.1 in
    ((read_signal row.0, row.1) ∷ pairs, front_read row rows pairs h.0 e)

rows_to_pairs-IsMember :
    (row : Signal × RiskDecision) (rows : List (Signal × RiskDecision))
    → All IsReadable rows
    → IsMember row rows
    → (pairs : List (Signal × RiskDecision)) × (rows_to_pairs rows ≡ ok pairs)
      × IsMember (read_signal row.0, row.1) pairs
rows_to_pairs-IsMember row [] h m = elim m [ ]
rows_to_pairs-IsMember row (x ∷ rows) h (IsMember.here e) =
    let (pairs, read) = rows_to_pairs_ok rows h.1 in
    (
      (read_signal x.0, x.1) ∷ pairs,
      front_read x rows pairs h.0 read,
      IsMember.here (ap (λ (y : Signal × RiskDecision). (read_signal y.0, y.1)) e),
    )
rows_to_pairs-IsMember row (x ∷ rows) h (IsMember.further m) =
    let (pairs, read, found) = rows_to_pairs-IsMember row rows h.1 m in
    ((read_signal x.0, x.1) ∷ pairs, front_read x rows pairs h.0 read, IsMember.further found)

read_signal_same : (signal : Signal) → signal.side ≡ Side.buy → read_signal signal ≡ signal
read_signal_same signal h = ground (arith, h)

and_right : (a b : Bool) → (a && b) ≡ true → b ≡ true
and_right a b h = ground (arith, h)

recorded :
    (signal : Signal) (decision : RiskDecision) (s : Store)
    → next_fails s.disk ≡ false
    → risk_decision_ok decision ≡ true
    → (record_signal signal decision s).1.db.signals ≡ s.db.signals ++ (signal, decision) ∷ []
unfolding record_signal catch transaction
recorded signal decision s works valid = rw works (
    ap (λ (d : RiskDecision). s.db.signals ++ (signal, d) ∷ [])
      (stored_decision_same decision valid))

module _ (moscow_date : Datetime → Date) (start end : Date) (signal : Signal)
    (decision : RiskDecision) (s : Store) where
  -- A purchase signal and its decision, recorded by a database that works among rows that can be
  -- read, are among the pairs that `list_for_period` returns for a period with their day.
  pub record_signal-list_for_period :
      All IsReadable s.db.signals
      → next_fails s.disk ≡ false
      → signal.side ≡ Side.buy
      → (signal_ok signal && risk_decision_ok decision) ≡ true
      → in_period moscow_date start end (signal, decision) ≡ true
      → (pairs : List (Signal × RiskDecision)) × ((list_for_period moscow_date start end
            (record_signal signal decision s).1).0
          ≡ ok pairs)
        × IsMember (signal, decision) pairs
  unfolding list_for_period
  record_signal-list_for_period readable works bought valid inside =
      subst
        (λ rows.
          (pairs : List (Signal × RiskDecision)) × (rows_to_pairs
              (keep (in_period moscow_date start end) (sort_by generated_first rows))
            ≡ ok pairs)
          × IsMember (signal, decision) pairs)
        (sym (
          recorded signal decision s works
            (and_right (signal_ok signal) (risk_decision_ok decision) valid)))
        (subst
          (λ g.
            (pairs : List (Signal × RiskDecision)) × (rows_to_pairs (
                keep (in_period moscow_date start end)
                  (sort_by generated_first (s.db.signals ++ (signal, decision) ∷ [])))
              ≡ ok pairs)
            × IsMember (g, decision) pairs)
          (read_signal_same signal bought)
          (rows_to_pairs-IsMember (signal, decision) _
            (keep-All IsReadable _ _ (
              sort_by-All IsReadable generated_first _
                (All-append IsReadable s.db.signals _ readable (valid, tt))))
            (keep-IsMember _ (signal, decision) _ inside
              (sort_by-IsMember generated_first (signal, decision) _
                (append-IsMember (signal, decision) s.db.signals)))))
