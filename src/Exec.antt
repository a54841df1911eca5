-- ===== src/Exec.antt =====
-- Coroutines that change a state and may raise, run to their end by one task. What was written
-- before a raise stays written, so the state comes back beside the exception too.
pub mod Keeps
use faststream.Prelude.{◌≡◌, refl, Bool, true, false, if◌then◌else◌}
use faststream.Exceptions.{Exc, Result, ok, err}

abbrev pub Exec {ℓ κ} : Type ℓ → Type κ → Type (ℓ ⊔ κ)
Exec S A = S → Result A × S

module _ {ℓ} {S : Type ℓ} where
  abbrev pub pure {κ} : {A : Type κ} → A → Exec S A
  pure a s = (ok a, s)

  abbrev pub raise {κ} : {A : Type κ} → Exc → Exec S A
  raise e s = (err e, s)

  abbrev pub lift {κ} : {A : Type κ} → Result A → Exec S A
  lift r s = (r, s)

  abbrev pub gets {κ} : {A : Type κ} → (S → A) → Exec S A
  gets f s = (ok (f s), s)

  abbrev pub modify : (S → S) → Exec S (Unit {0})
  modify f s = (ok tt, f s)

  abbrev pub continue {κ μ} : {A : Type κ} {B : Type μ} → Result A → (A → Exec S B) → Exec S B
  continue (ok a) f s = f a s
  continue (err e) f s = (err e, s)

  infixl 10 ◌>>=◌ ◌>>◌
  abbrev pub ◌>>=◌ {κ μ} : {A : Type κ} {B : Type μ} → Exec S A → (A → Exec S B) → Exec S B
  ◌>>=◌ m f s = continue (m s).0 f (m s).1

  abbrev pub ◌>>◌ {κ μ} : {A : Type κ} {B : Type μ} → Exec S A → Exec S B → Exec S B
  m >> n = m >>= λ _. n

  -- `try:`: the outcome as a value, to be dispatched on.
  abbrev pub attempt {κ} : {A : Type κ} → Exec S A → Exec S (Result A)
  attempt m s = (ok (m s).0, (m s).1)

-- A chain that returned: its first part returned.
pub continue-ok {ℓ κ μ} :
    {S : Type ℓ} {A : Type κ} {B : Type μ} (r : Result A) (f : A → Exec S B) (s : S) {b : B} {t : S}
    → continue r f s ≡ (ok b, t)
    → (a : A) × (r ≡ ok a) × (f a s ≡ (ok b, t))
continue-ok (ok a) f s h = (a, refl, h)
continue-ok (err e) f s h = cc
