-- ===== src/Base/Exec/Keeps.antt =====
-- What a method keeps or leads to, whether it returns or raises: one rule for each way to build it.
use mathlib.Core.Bool.{Bool, true, false}
use mathlib.Core.Option.{Option, none, some}
use bazarabot.Base.Tests.{if◌then◌else◌}
use bazarabot.Base.Exec.{
  Result, ok, err, Exec, pure, raise, lift, gets, or_raise, raise_if, ◌>>=◌, continue, handle,
  catch, modify,
}

-- From a state with `P` the method comes to one with `Q`.
pub record Leads {S E A : Type 0} (P Q : S → Type 0) (m : Exec S E A) : Type 0 where
  pub at : (s : S) → P s → Q (m s).1

abbrev pub Keeps : {S E A : Type 0} → (S → Type 0) → Exec S E A → Type 0
Keeps P m = Leads P P m

module _ {S E A : Type 0} {P : S → Type 0} where
  pub Keeps-pure : (a : A) → Keeps {E = E} P (pure a)
  Keeps-pure a = record { at = λ s h. h }

  pub Keeps-raise : (e : E) → Keeps {A = A} P (raise e)
  Keeps-raise e = record { at = λ s h. h }

  pub Keeps-gets : (f : S → A) → Keeps {E = E} P (gets f)
  Keeps-gets f = record { at = λ s h. h }

  pub Keeps-lift : (r : Result E A) → Keeps P (lift r)
  Keeps-lift r = record { at = λ s h. h }

  pub Keeps-or_raise : (o : Option A) (e : E) → Keeps P (or_raise o e)
  Keeps-or_raise none e = record { at = λ s h. h }
  Keeps-or_raise (some a) e = record { at = λ s h. h }

  pub Keeps-if :
      (b : Bool) (m n : Exec S E A) → Keeps P m → Keeps P n → Keeps P (if b then m else n)
  Keeps-if true m n km kn = km
  Keeps-if false m n km kn = kn

module _ {S E : Type 0} {P : S → Type 0} where
  pub Keeps-raise_if : (b : Bool) (e : E) → Keeps P (raise_if b e)
  Keeps-raise_if true e = record { at = λ s h. h }
  Keeps-raise_if false e = record { at = λ s h. h }

  pub Keeps-modify : (f : S → S) → ((s : S) → P s → P (f s)) → Keeps {E = E} P (modify f)
  Keeps-modify f h = record { at = h }

module _ {S E A B : Type 0} {P Q : S → Type 0} where
  continued :
      (r : Result E A) (f : A → Exec S E B) (s : S)
      → ((a : A) → Leads P Q (f a))
      → P s
      → ((s : S) → P s → Q s)
      → Q (continue r f s).1
  continued (ok a) f s k h weaken = (k a).at s h
  continued (err e) f s k h weaken = weaken s h

  -- A block that keeps `P` first, and then leads on.
  pub Leads-bind :
      (m : Exec S E A) (f : A → Exec S E B)
      → ((s : S) → P s → Q s)
      → Keeps P m
      → ((a : A) → Leads P Q (f a))
      → Leads P Q (m >>= f)
  Leads-bind m f weaken km kf = record {
    at = λ s h. continued (m s).0 f (m s).1 kf (km.at s h) weaken;
  }

module _ {S E A B : Type 0} {P : S → Type 0} where
  pub Keeps-bind :
      (m : Exec S E A) (f : A → Exec S E B)
      → Keeps P m
      → ((a : A) → Keeps P (f a))
      → Keeps P (m >>= f)
  Keeps-bind m f km kf = Leads-bind m f (λ s h. h) km kf

module _ {S E A B : Type 0} {P Q : S → Type 0} where
  -- A block that leads on first, and then keeps `Q`.
  pub Leads-then :
      (m : Exec S E A) (f : A → Exec S E B)
      → Leads P Q m
      → ((a : A) → Keeps Q (f a))
      → Leads P Q (m >>= f)
  Leads-then m f km kf = record {
    at = λ s h. continued (m s).0 f (m s).1 kf (km.at s h) (λ s h. h);
  }

module _ {S E A : Type 0} {P Q : S → Type 0} where
  pub Leads-if :
      (b : Bool) (m n : Exec S E A) → Leads P Q m → Leads P Q n → Leads P Q (if b then m else n)
  Leads-if true m n km kn = km
  Leads-if false m n km kn = kn

  pub Leads-weaken : (m : Exec S E A) → ((s : S) → P s → Q s) → Keeps P m → Leads P Q m
  Leads-weaken m weaken k = record { at = λ s h. weaken (m s).1 (k.at s h) }

module _ {S E A : Type 0} {P : S → Type 0} where
  chosen :
      (b : Bool) (m : Exec S E A) (e : E) (s : S)
      → Keeps P m
      → P s
      → P (if b then m s else (err e, s)).1
  chosen true m e s k h = k.at s h
  chosen false m e s k h = h

  handled :
      (caught : E → Bool) (handler : E → Exec S E A) (r : Result E A) (s : S)
      → ((e : E) → Keeps P (handler e))
      → P s
      → P (handle caught handler r s).1
  handled caught handler (ok a) s k h = h
  handled caught handler (err e) s k h = chosen (caught e) (handler e) e s (k e) h

module _ {S E A : Type 0} {P Q : S → Type 0} where
  pub Leads-catch :
      (caught : E → Bool) (m : Exec S E A) (handler : E → Exec S E A)
      → Leads P Q m
      → ((e : E) → Keeps Q (handler e))
      → Leads P Q (catch caught m handler)
  unfolding catch
  Leads-catch caught m handler km kh = record {
    at = λ s h. handled caught handler (m s).0 (m s).1 kh (km.at s h);
  }

pub ruleset keeps_rules = (
  Keeps-pure, Keeps-raise, Keeps-gets, Keeps-lift, Keeps-or_raise, Keeps-raise_if, Keeps-if,
  Keeps-bind, Leads-catch,
)
