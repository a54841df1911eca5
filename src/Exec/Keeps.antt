-- ===== src/Exec/Keeps.antt =====
-- Invariants of coroutines: one rule for each way to build one. The rules read the outcome too: a
-- postcondition `Q` of the result and the state, on return and on raise.
use faststream.Prelude.{Bool, true, false, if◌then◌else◌}
use faststream.Exceptions.{Exc, Result, ok, err}
use faststream.Exec.{Exec, pure, raise, lift, gets, continue, ◌>>=◌, attempt}

-- `m` keeps `P`, whether it returns or raises.
pub record Keeps {ℓ κ μ} {S : Type ℓ} {A : Type κ} (P : S → Type μ) (m : Exec S A)
    : Type (ℓ ⊔ μ) where
  pub at : (s : S) → P s → P (m s).1

module _ {ℓ κ μ} {S : Type ℓ} {A : Type κ} {P : S → Type μ} where
  pub Keeps-pure : (a : A) → Keeps P (pure {S = S} a)
  Keeps-pure a = record { at = λ s h. h }

  pub Keeps-raise : (e : Exc) → Keeps P (raise {S = S} {A = A} e)
  Keeps-raise e = record { at = λ s h. h }

  pub Keeps-lift : (r : Result A) → Keeps P (lift {S = S} r)
  Keeps-lift r = record { at = λ s h. h }

  pub Keeps-gets : (f : S → A) → Keeps P (gets f)
  Keeps-gets f = record { at = λ s h. h }

  pub Keeps-if : (b : Bool) (m n : Exec S A) → Keeps P m → Keeps P n → Keeps P (if b then m else n)
  Keeps-if true m n km kn = km
  Keeps-if false m n km kn = kn

  pub Keeps-attempt : (m : Exec S A) → Keeps P m → Keeps P (attempt m)
  Keeps-attempt m km = record { at = λ s h. km.at s h }

module _ {ℓ κ ν μ} {S : Type ℓ} {A : Type κ} {B : Type ν} {P : S → Type μ} where
  Keeps-continue :
      (r : Result A) (f : A → Exec S B) (s : S)
      → ((a : A) → Keeps P (f a))
      → P s
      → P (continue r f s).1
  Keeps-continue (ok a) f s kf h = (kf a).at s h
  Keeps-continue (err e) f s kf h = h

  pub Keeps-bind :
      (m : Exec S A) (f : A → Exec S B) → Keeps P m → ((a : A) → Keeps P (f a)) → Keeps P (m >>= f)
  Keeps-bind m f km kf = record { at = λ s h. Keeps-continue (m s).0 f (m s).1 kf (km.at s h) }

pub ruleset keeps_rules =
    (Keeps-pure, Keeps-raise, Keeps-lift, Keeps-gets, Keeps-if, Keeps-attempt, Keeps-bind)
