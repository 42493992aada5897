-- ===== src/Commissions/Measured.antt =====
-- The measured zero of `_resolve` in zarabot/ops/commissions.py.
use mathlib.Core.Path.{subst}
use mathlib.Core.Option.{some-injective}
use bazarabot.Base.{
  All, ◌≡◌, refl, sym, Bool, true, false, String, List, [], ◌∷◌, some, ℕ, ◌≤◌, ◌+◌, keep, ltb,
  arith, if◌then◌else◌, Bool-cases, inl, inr,
}
use bazarabot.Base.Int.{pos}
use bazarabot.Base.Decimal.{Decimal, of_int}
use bazarabot.Models.{Datetime, OperationRecord, minutes}
use bazarabot.Commissions.{is_trade, fees_of, latest, has_settled, measured, from_trades, from_feed}

latest_covers :
    (acc : ℕ) (items : List OperationRecord)
    → (acc ≤ latest acc items) × All (λ i. i.occurred_at.instant ≤ latest acc items) items
latest_covers acc [] = (omega arith, tt)
latest_covers acc (i ∷ items) = elim (Bool-cases (ltb acc i.occurred_at.instant)) [
  | inl later ↦
      let (a, rest) = latest_covers i.occurred_at.instant items in
      subst at (sym later) (ground (arith, later, a), (a, rest))
  | inr earlier ↦
      let (a, rest) = latest_covers acc items in
      subst at (sym earlier) (a, (ground (arith, earlier, a), rest))
]
  where
    at : Bool → Type 0
    at b =
        let top = latest (if b then i.occurred_at.instant else acc) items in
        (acc ≤ top) × ((i.occurred_at.instant ≤ top) × All (λ x. x.occurred_at.instant ≤ top) items)

-- What holds of the members that are kept holds of each member that passes the test.
hold_of_kept :
    {A : Type 0} (P : A → Type 0) (p : A → Bool) (xs : List A)
    → All P (keep p xs)
    → All (λ x. p x ≡ true → P x) xs
hold_of_kept P p [] h = tt
hold_of_kept P p (x ∷ xs) h = elim (Bool-cases (p x)) [
  | inl passes ↦
      let both = subst (λ b. All P (if b then x ∷ keep p xs else keep p xs)) passes h in
      (λ e. both.0, hold_of_kept P p xs both.1)
  | inr fails ↦
      let rest = subst (λ b. All P (if b then x ∷ keep p xs else keep p xs)) fails h in
      (λ e. absurd (cc (e, fails)), hold_of_kept P p xs rest)
]

under :
    (moment : Datetime) (top : ℕ) (items : List OperationRecord)
    → top + minutes 5 ≤ moment.instant
    → All (λ i. i.occurred_at.instant ≤ top) items
    → All (λ i. i.occurred_at.instant + minutes 5 ≤ moment.instant) items
under moment top [] h k = tt
under moment top (i ∷ items) h k = (omega (arith, h, k.0), under moment top items h k.1)

no_fees :
    (settled : Bool) (c : Decimal)
    → measured [] settled ≡ some c
    → (settled ≡ true) × (c ≡ of_int (pos 0))
no_fees true c h = (refl, sym (some-injective (of_int (pos 0)) c h))
no_fees false c h = cc

trades_settled :
    (moment : Datetime) (trades : List OperationRecord) (c : Decimal)
    → from_trades [] moment trades ≡ some c
    → All (λ i. i.occurred_at.instant + minutes 5 ≤ moment.instant) trades × (c ≡ of_int (pos 0))
trades_settled moment [] c h = cc
trades_settled moment (t ∷ trades) c h =
    let (settled, zero_fee) =
      no_fees (has_settled moment (latest t.occurred_at.instant trades)) c h in
    let covered = latest_covers t.occurred_at.instant trades in
    (
      under moment (latest t.occurred_at.instant trades) (t ∷ trades) (ground (arith, settled))
          covered,
      zero_fee,
    )

-- A commission that is taken from a feed without a fee for the order is a zero, and every trade of
-- the order in the feed was then at least five minutes old: a fresh trade is never written off.
pub written_off_settled :
    (executions : List String) (operations : List OperationRecord) (moment : Datetime) (c : Decimal)
    → fees_of executions operations ≡ []
    → from_feed executions operations moment ≡ some c
    → (c ≡ of_int (pos 0))
      × All
          (λ i. is_trade executions i ≡ true → i.occurred_at.instant + minutes 5 ≤ moment.instant)
          operations
written_off_settled executions operations moment c free h =
    let trades = keep (is_trade executions) operations in
    let (old, zero_fee) =
      trades_settled moment trades c
        (subst (λ fees. from_trades fees moment trades ≡ some c) free h) in
    (zero_fee, hold_of_kept _ (is_trade executions) operations old)
