-- ===== src/Base/Dict.antt =====
-- Python's dict with texts for keys, as pairs in the order of insertion, and the order of texts.
use Prim.Native.Nat.{Ordering}
use Prim.Native.String.{compare}
use bazarabot.Base.{
  All, Bool, true, false, String, ◌==◌, List, [], ◌∷◌, Option, none, some, if◌then◌else◌,
}

abbrev pub Dict {ℓ} : Type ℓ → Type ℓ
Dict V = List (String × V)

-- `a <= b`: the order of the characters' numbers.
abbrev pub leb_text : String → String → Bool
leb_text a b = elim (compare a b) [ Ordering.gt ↦ false | _ ↦ true ]

module _ {ℓ} {V : Type ℓ} where
  -- `d.get(key)`
  abbrev pub get : String → Dict V → Option V
  get key [] = none
  get key ((k, v) ∷ rest) = if k == key then some v else get key rest

  -- `d[key] = value`: a key that is there keeps its place.
  abbrev pub set : String → V → Dict V → Dict V
  set key value [] = (key, value) ∷ []
  set key value ((k, v) ∷ rest) =
      if k == key then (key, value) ∷ rest else (k, v) ∷ set key value rest

  -- `del d[key]`, where it is there.
  abbrev pub remove : String → Dict V → Dict V
  remove key [] = []
  remove key ((k, v) ∷ rest) = if k == key then rest else (k, v) ∷ remove key rest

  abbrev pub values : Dict V → List V
  values [] = []
  values ((k, v) ∷ rest) = v ∷ values rest

-- What holds of every value stays true under the changes of a dict.
module _ {ℓ κ} {V : Type ℓ} (P : V → Type κ) where
  abbrev pub AllValues : Dict V → Type κ
  AllValues d = All (λ entry. P entry.1) d

  pub set-AllValues :
      (key : String) (v : V) (d : Dict V) → P v → AllValues d → AllValues (set key v d)
  set-AllValues key v [] h k = (h, tt)
  set-AllValues key v ((own, w) ∷ rest) h k = at (own == key) (set-AllValues key v rest h k.1)
    where
      at :
          (b : Bool)
          → AllValues (set key v rest)
          → AllValues (if b then (key, v) ∷ rest else (own, w) ∷ set key v rest)
      at true m = (h, k.1)
      at false m = (k.0, m)

  pub remove-AllValues : (key : String) (d : Dict V) → AllValues d → AllValues (remove key d)
  remove-AllValues key [] k = tt
  remove-AllValues key ((own, w) ∷ rest) k = at (own == key) (remove-AllValues key rest k.1)
    where
      at :
          (b : Bool)
          → AllValues (remove key rest)
          → AllValues (if b then rest else (own, w) ∷ remove key rest)
      at true m = k.1
      at false m = (k.0, m)

  abbrev pub IfPresent : Option V → Type κ
  IfPresent none = Unit
  IfPresent (some v) = P v

  pub get-AllValues : (key : String) (d : Dict V) → AllValues d → IfPresent (get key d)
  get-AllValues key [] k = tt
  get-AllValues key ((own, w) ∷ rest) k = at (own == key) (get-AllValues key rest k.1)
    where
      at : (b : Bool) → IfPresent (get key rest) → IfPresent (if b then some w else get key rest)
      at true m = k.0
      at false m = m
