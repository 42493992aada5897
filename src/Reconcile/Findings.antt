-- ===== src/Reconcile/Findings.antt =====
-- What it means that `_stop_adjustments` of zarabot/broker/reconcile.py finds nothing.
use mathlib.Core.Path.{subst}
use bazarabot.Base.{
  All, ◌≡◌, refl, ap, ◌∙◌, Bool, true, false, not, List, [], ◌∷◌, ◌++◌, Option, keep, if◌then◌else◌,
  Bool-cases, inl, inr, arith,
}
use bazarabot.Base.Decimal.{Decimal}
use bazarabot.Base.Dict.{Dict, get}
use bazarabot.Models.{Position, StopOrderRecord, is_exchange}
use bazarabot.Reconcile.Holdings.{equal_lots}
use bazarabot.Reconcile.Stops.{
  take_out, keep_stop, is_mispriced_by, duplicates, judge_kept, stops_of, judge_position, judge_all,
  claimed, is_owned, orphans, stop_adjustments,
}

module _ {ℓ} {A : Type ℓ} where
  left_empty : (xs ys : List A) → xs ++ ys ≡ [] → xs ≡ []
  left_empty [] ys h = refl
  left_empty (x ∷ xs) ys h = cc

  right_empty : (xs ys : List A) → xs ++ ys ≡ [] → ys ≡ []
  right_empty [] ys h = h
  right_empty (x ∷ xs) ys h = cc

take_out_single :
    {A : Type 0} (p : A → Bool) (x : A) (xs : List A)
    → (take_out p x xs).1 ≡ []
    → (xs ≡ []) × ((take_out p x xs).0 ≡ x)
take_out_single p x [] h = (refl, refl)
take_out_single {A} p x (y ∷ ys) h = absurd (never (p x) (take_out p y ys).0 (take_out p y ys).1 h)
  where
    never :
        (b : Bool) (k : A) (others : List A)
        → (if◌then◌else◌ {A = A × List A} b (x, y ∷ ys) (k, x ∷ others)).1 ≡ []
        → ⊥
    never true k others e = cc
    never false k others e = cc

-- One stop stands for the position, of its size, and no further from its price than an increment
-- where the increment is known.
pub record IsProtected (stops : List StopOrderRecord) (increment : Option Decimal)
    (position : Position) : Type 0 where
  pub stop : StopOrderRecord
  pub only : stops_of position.ticker stops ≡ stop ∷ []
  pub size : equal_lots stop.lots position.lots ≡ true
  pub price : is_mispriced_by increment stop.stop_price position.stop_price ≡ false

passed :
    {A : Type 0} (a b : Bool) (x y : A) (z : List A)
    → (if a then x ∷ [] else if not b then y ∷ [] else z) ≡ []
    → (b ≡ true) × (a ≡ false)
passed a b x y z h = ground (arith, h)

kept_fits :
    (position : Position) (kept : StopOrderRecord) (increment : Option Decimal)
    → judge_kept position kept increment ≡ []
    → (equal_lots kept.lots position.lots ≡ true)
      × (is_mispriced_by increment kept.stop_price position.stop_price ≡ false)
unfolding judge_kept
kept_fits position kept increment h =
    passed (is_mispriced_by increment kept.stop_price position.stop_price)
      (equal_lots kept.lots position.lots) _ _ _ h

none_beside :
    (position : Position) (kept : StopOrderRecord) (others : List StopOrderRecord)
    → duplicates position kept others ≡ []
    → others ≡ []
none_beside position kept [] h = refl
none_beside position kept (other ∷ others) h = cc

keep_stop_single :
    (position : Position) (stop : StopOrderRecord) (stops : List StopOrderRecord)
    → (keep_stop position stop stops).1 ≡ []
    → (stops ≡ []) × ((keep_stop position stop stops).0 ≡ stop)
unfolding keep_stop
keep_stop_single position stop stops h = take_out_single _ stop stops h

judged-IsProtected :
    (position : Position) (stops found : List StopOrderRecord) (increment : Option Decimal)
    → stops_of position.ticker stops ≡ found
    → is_exchange position.stop_protection ≡ true
    → judge_position position found increment ≡ []
    → IsProtected stops increment position
judged-IsProtected position stops [] increment e exchange h = absurd (cc (rw exchange at h))
judged-IsProtected position stops (stop ∷ others) increment e exchange h =
    let kept = (keep_stop position stop others).0 in
    let alone = none_beside position kept _ (left_empty _ _ h) in
    let (nothing_else, same) = keep_stop_single position stop others alone in
    let (size, price) =
      kept_fits position kept increment (right_empty (duplicates position kept _) _ h) in
    record {
      stop = stop;
      only = e ∙ ap (λ xs. stop ∷ xs) nothing_else;
      size = subst (λ k. equal_lots k.lots position.lots ≡ true) same size;
      price =
          subst (λ k. is_mispriced_by increment k.stop_price position.stop_price ≡ false) same
            price;
    }

judged-All :
    (opened : List Position) (stops : List StopOrderRecord) (increments : Dict Decimal)
    → judge_all opened stops increments ≡ []
    → All
        (λ p. is_exchange p.stop_protection ≡ true → IsProtected stops (get p.ticker increments) p)
        opened
judged-All [] stops increments h = tt
judged-All (p ∷ opened) stops increments h = (
  λ exchange.
      judged-IsProtected p stops _ (get p.ticker increments) refl exchange (left_empty _ _ h),
  judged-All opened stops increments
      (right_empty (judge_position p (stops_of p.ticker stops) (get p.ticker increments)) _ h),
)

All-owned :
    (owned : StopOrderRecord → Bool) (stops : List StopOrderRecord)
    → orphans (keep (λ s. not (owned s)) stops) ≡ []
    → All (λ s. owned s ≡ true) stops
All-owned owned [] h = tt
All-owned owned (s ∷ stops) h = elim (Bool-cases (owned s)) [
  | inl yours ↦ (
    yours,
    All-owned owned stops (
        subst
          (λ b.
            orphans (
              if not b
              then s ∷ keep (λ x. not (owned x)) stops
              else keep (λ x. not (owned x)) stops)
            ≡ [])
          yours h),
  )
  | inr nobodys ↦ absurd (
      cons_empty (
        subst
          (λ b.
            orphans (
              if not b
              then s ∷ keep (λ x. not (owned x)) stops
              else keep (λ x. not (owned x)) stops)
            ≡ [])
          nobodys h))
]
  where
    cons_empty : orphans (s ∷ keep (λ x. not (owned x)) stops) ≡ [] → ⊥
    cons_empty e = cc

-- If nothing is found, then every open position that counts on the exchange has exactly one stop
-- there, of its own size, and less than an increment from its price where the increment is known;
-- and every stop at the broker belongs to a ticker with an open position or shares the identifier
-- of one that does.
pub no_findings-IsProtected :
    (opened : List Position) (stops : List StopOrderRecord) (increments : Dict Decimal)
    → stop_adjustments opened stops increments ≡ []
    → All
        (λ p. is_exchange p.stop_protection ≡ true → IsProtected stops (get p.ticker increments) p)
        opened
      × All (λ s. is_owned opened (claimed opened stops) s ≡ true) stops
unfolding stop_adjustments
no_findings-IsProtected opened stops increments h = (
  judged-All opened stops increments (left_empty _ _ h),
  All-owned (is_owned opened (claimed opened stops)) stops
      (right_empty (judge_all opened stops increments) _ h),
)
