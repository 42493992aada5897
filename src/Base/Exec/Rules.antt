-- ===== src/Base/Exec/Rules.antt =====
-- Rules for what holds when a method returns, and for what it keeps whether it returns or raises.
use mathlib.Core.Path.{◌≡◌, refl, ap, sym, subst}
use mathlib.Core.Bool.{Bool, true, false}
use bazarabot.Base.Exec.{Result, ok, err, Exec, continue, raise_if, ◌>>=◌}

-- If the outcome is a value, `P` holds of it and of the state.
pub record OnOk {S E A : Type 0} (P : A → S → Type 0) (r : Result E A × S) : Type 0 where
  pub at : (a : A) → r.0 ≡ ok a → P a r.1

abbrev value_or : {E A : Type 0} → A → Result E A → A
value_or d (ok a) = a
value_or d (err e) = d

module _ {S E : Type 0} where
  pub OnOk-ok : {A : Type 0} {P : A → S → Type 0} (a : A) (s : S) → P a s → OnOk {E = E} P (ok a, s)
  OnOk-ok {P = P} a s h = record { at = λ b e. subst (λ x. P x s) (ap (value_or a) e) h }

  pub OnOk-continue :
      {A B : Type 0} {P : B → S → Type 0} (f : A → Exec S E B) (r : Result E A × S)
      → OnOk (λ a s. OnOk P (f a s)) r
      → OnOk P (continue r.0 f r.1)
  OnOk-continue f (ok a, s) h = h.at a refl
  OnOk-continue f (err e, s) h = record { at = λ b x. cc }

  pub OnOk-bind :
      {A B : Type 0} {P : B → S → Type 0} (m : Exec S E A) (f : A → Exec S E B) (s : S)
      → OnOk (λ a t. OnOk P (f a t)) (m s)
      → OnOk P ((m >>= f) s)
  OnOk-bind m f s h = OnOk-continue f (m s) h

  pub OnOk-raise_if :
      {P : Unit {0} → S → Type 0} (b : Bool) (e : E) (s : S)
      → (b ≡ false → P tt s)
      → OnOk P (raise_if b e s)
  OnOk-raise_if true e s h = record { at = λ b x. cc }
  OnOk-raise_if false e s h = record { at = λ b x. h refl }

-- A method that leaves the state alone.
module _ {S E A : Type 0} where
  pub OnOk-read :
      {P : A → S → Type 0} (m : Exec S E A) (s : S)
      → (m s).1 ≡ s
      → ((a : A) → (m s).0 ≡ ok a → P a s)
      → OnOk P (m s)
  OnOk-read {P = P} m s same h = record { at = λ a e. subst (λ t. P a t) (sym same) (h a e) }
