-- ===== src/Base/Exec.antt =====
-- A method that changes a state and may raise: the state comes back beside the error too, since
-- what was written before a raise stays written.
pub mod Rules
pub mod Keeps
use mathlib.Core.Bool.{Bool, true, false}
use mathlib.Core.Option.{Option, none, some}
use bazarabot.Base.Tests.{if◌then◌else◌}

pub data Result {ℓ κ} (E : Type ℓ) (A : Type κ) : Type (ℓ ⊔ κ) where
  ok : A → Result E A
  err : E → Result E A

abbrev pub Exec : Type 0 → Type 0 → Type 0 → Type 0
Exec S E A = S → Result E A × S

module _ {S E A : Type 0} where
  abbrev pub pure : A → Exec S E A
  pure a s = (ok a, s)

  abbrev pub raise : E → Exec S E A
  raise e s = (err e, s)

  abbrev pub lift : Result E A → Exec S E A
  lift r s = (r, s)

  abbrev pub gets : (S → A) → Exec S E A
  gets f s = (ok (f s), s)

  abbrev pub or_raise : Option A → E → Exec S E A
  or_raise none e s = (err e, s)
  or_raise (some a) e s = (ok a, s)

abbrev pub continue : {S E A B : Type 0} → Result E A → (A → Exec S E B) → Exec S E B
continue (ok a) f s = f a s
continue (err e) f s = (err e, s)

infixl 5 ◌>>=◌ ◌>>◌
abbrev pub ◌>>=◌ : {S E A B : Type 0} → Exec S E A → (A → Exec S E B) → Exec S E B
◌>>=◌ m f s = let (r, s') = m s in continue r f s'

abbrev pub ◌>>◌ : {S E A B : Type 0} → Exec S E A → Exec S E B → Exec S E B
m >> k = m >>= λ _. k

-- `if c: raise e`
abbrev pub raise_if : {S E : Type 0} → Bool → E → Exec S E (Unit {0})
raise_if true e s = (err e, s)
raise_if false e s = (ok tt, s)

abbrev pub modify : {S E : Type 0} → (S → S) → Exec S E (Unit {0})
modify f s = (ok tt, f s)

-- `except` clauses: the handler runs in the state that the failure left.
abbrev pub handle : {S E A : Type 0} → (E → Bool) → (E → Exec S E A) → Result E A → Exec S E A
handle caught handler (ok a) s = (ok a, s)
handle caught handler (err e) s = if caught e then handler e s else (err e, s)

unfoldable pub catch : {S E A : Type 0} → (E → Bool) → Exec S E A → (E → Exec S E A) → Exec S E A
catch caught m handler s = let (r, s') = m s in handle caught handler r s'

-- A method on one part of the state.
abbrev pub within : {S T E A : Type 0} → (T → S) → (S → T → T) → Exec S E A → Exec T E A
within part put m t = let (r, s) = m (part t) in (r, put s t)
