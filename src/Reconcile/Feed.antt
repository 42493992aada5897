-- ===== src/Reconcile/Feed.antt =====
-- A sale in an answer of the operations feed: its time is that of one of the operations.
use bazarabot.Base.{
  ◌≡◌, refl, ap, inl, inr, arith, Bool, true, false, if◌then◌else◌, List, Option, none, some, [],
  ◌∷◌, ◌==◌, ◌∙◌, keep, ltb, leb, Bool-cases,
}
use bazarabot.Base.Members.{IsMember}
use bazarabot.Models.{OperationRecord, Position, Datetime}
use bazarabot.Reconcile.Sales.{
  ResolvedSale, resolve_sale, is_sale_of, latest_time, resolved, total_units,
}

-- The time of a sale is that of one of the operations.
module _ (position : Position) where
  latest-IsMember :
      (acc : OperationRecord) (items all : List OperationRecord)
      → IsMember acc all
      → ((item : OperationRecord) → IsMember item items → IsMember item all)
      → (item : OperationRecord) × IsMember item all
        × (item.occurred_at ≡ latest_time acc.occurred_at items)
  latest-IsMember acc [] all m sub = (acc, m, refl)
  latest-IsMember acc (x ∷ xs) all m sub =
      elim (Bool-cases (ltb acc.occurred_at.instant x.occurred_at.instant)) [
        | inl e ↦ rw e (
            latest-IsMember x xs all (sub x (IsMember.here refl))
              (λ i n. sub i (IsMember.further n)))
        | inr e ↦ rw e (latest-IsMember acc xs all m (λ i n. sub i (IsMember.further n)))
      ]

  kept-IsMember :
      (items : List OperationRecord) (item : OperationRecord)
      → IsMember item (keep (is_sale_of position) items)
      → IsMember item items × (is_sale_of position item ≡ true)
  kept-IsMember [] item m = elim m [ ]
  kept-IsMember (x ∷ xs) item m =
      by_test (is_sale_of position x) refl (λ n. kept-IsMember xs item n) m
    where
      by_test :
          (b : Bool)
          → is_sale_of position x ≡ b
          → (IsMember item (keep (is_sale_of position) xs)
              → IsMember item xs × (is_sale_of position item ≡ true))
          → IsMember item
              (if b then x ∷ keep (is_sale_of position) xs else keep (is_sale_of position) xs)
          → IsMember item (x ∷ xs) × (is_sale_of position item ≡ true)
      by_test true e rest (IsMember.here q) = (IsMember.here q, ap (is_sale_of position) q ∙ e)
      by_test true e rest (IsMember.further n) =
          let (there, sale) = rest n in (IsMember.further there, sale)
      by_test false e rest n = let (there, sale) = rest n in (IsMember.further there, sale)

  -- The time of the sale, given whether its units are none.
  sale_time_of :
      (b : Bool) (found sale : ResolvedSale)
      → (if b then none else some found) ≡ some sale
      → found.occurred_at ≡ sale.occurred_at
  sale_time_of true found sale h = absurd (cc h)
  sale_time_of false found sale h = ap occurred_or h
    where
      occurred_or : Option ResolvedSale → Datetime
      occurred_or none = found.occurred_at
      occurred_or (some s) = s.occurred_at

  sale_time :
      (sales operations : List OperationRecord) (sale : ResolvedSale)
      → resolved sales operations ≡ some sale
      → (item : OperationRecord) × IsMember item sales × (item.occurred_at ≡ sale.occurred_at)
  sale_time [] operations sale h = absurd (cc h)
  sale_time (x ∷ xs) operations sale h =
      let (item, m, e) =
        latest-IsMember x xs (x ∷ xs) (IsMember.here refl) (λ i n. IsMember.further n) in
      (item, m, e ∙ sale_time_of (leb (total_units (x ∷ xs)) 0) _ sale h)

  pub resolved_time :
      (operations : List OperationRecord) (sale : ResolvedSale)
      → resolve_sale position operations ≡ some sale
      → (item : OperationRecord) × IsMember item operations
        × (item.figi == position.figi ≡ true)
        × (item.occurred_at ≡ sale.occurred_at)
  unfolding resolve_sale
  resolved_time operations sale h =
      let (item, m, e) = sale_time (keep (is_sale_of position) operations) operations sale h in
      let (there, sold) = kept-IsMember operations item m in (item, there, ground arith, e)
