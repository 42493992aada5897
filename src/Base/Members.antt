-- ===== src/Base/Members.antt =====
-- Members of sorted and of filtered lists.
use mathlib.Core.Path.{subst}
use bazarabot.Base.{
  All, ◌≡◌, refl, Bool, true, false, List, [], ◌∷◌, ◌++◌, if◌then◌else◌, keep, place_by, sort_by,
}

module _ {ℓ} {A : Type ℓ} where
  pub data IsMember (a : A) : List A → Type ℓ where
    here : {x : A} {xs : List A} → a ≡ x → IsMember a (x ∷ xs)
    further : {x : A} {xs : List A} → IsMember a xs → IsMember a (x ∷ xs)

  pub append-IsMember : (a : A) (xs : List A) → IsMember a (xs ++ a ∷ [])
  append-IsMember a [] = here refl
  append-IsMember a (x ∷ xs) = further (append-IsMember a xs)

  pub either_list {κ} :
      (P : List A → Type κ) (b : Bool) (xs ys : List A) → P xs → P ys → P (if b then xs else ys)
  either_list P true xs ys h k = h
  either_list P false xs ys h k = k

module _ {ℓ} {A : Type ℓ} (before : A → A → Bool) where
  placed : (x : A) (ys : List A) → IsMember x (place_by before x ys)
  placed x [] = here refl
  placed x (y ∷ ys) = either_list (IsMember x) (before x y) _ _ (here refl) (further (placed x ys))

  stays : (a x : A) (ys : List A) → IsMember a ys → IsMember a (place_by before x ys)
  stays a x [] m = elim m [ ]
  stays a x (y ∷ ys) (here e) =
      either_list (IsMember a) (before x y) _ _ (further (here e)) (here e)
  stays a x (y ∷ ys) (further m) =
      either_list (IsMember a) (before x y) _ _ (further (further m)) (further (stays a x ys m))

  pub sort_by-IsMember : (a : A) (xs : List A) → IsMember a xs → IsMember a (sort_by before xs)
  sort_by-IsMember a [] m = elim m [ ]
  sort_by-IsMember a (x ∷ xs) (here e) =
      subst (λ y. IsMember a (place_by before y (sort_by before xs))) e
        (placed a (sort_by before xs))
  sort_by-IsMember a (x ∷ xs) (further m) = stays a x (sort_by before xs) (sort_by-IsMember a xs m)

module _ {ℓ} {A : Type ℓ} (p : A → Bool) where
  pub keep-IsMember : (a : A) (xs : List A) → p a ≡ true → IsMember a xs → IsMember a (keep p xs)
  keep-IsMember a [] h m = elim m [ ]
  keep-IsMember a (x ∷ xs) h (here e) = rw (subst (λ y. p y ≡ true) e h) (here e)
  keep-IsMember a (x ∷ xs) h (further m) =
      let rest = keep-IsMember a xs h m in either_list (IsMember a) (p x) _ _ (further rest) rest

module _ {ℓ κ} {A : Type ℓ} (P : A → Type κ) where
  placed_holds :
      (before : A → A → Bool) (x : A) (ys : List A) → P x → All P ys → All P (place_by before x ys)
  placed_holds before x [] h k = (h, tt)
  placed_holds before x (y ∷ ys) h k =
      either_list (All P) (before x y) _ _ (h, k) (k.0, placed_holds before x ys h k.1)

  pub sort_by-All : (before : A → A → Bool) (xs : List A) → All P xs → All P (sort_by before xs)
  sort_by-All before [] h = tt
  sort_by-All before (x ∷ xs) h =
      placed_holds before x (sort_by before xs) h.0 (sort_by-All before xs h.1)

  pub keep-All : (p : A → Bool) (xs : List A) → All P xs → All P (keep p xs)
  keep-All p [] h = tt
  keep-All p (x ∷ xs) h =
      let rest = keep-All p xs h.1 in either_list (All P) (p x) _ _ (h.0, rest) rest
