-- ===== src/Application/Lifecycle.antt =====
-- What a start does, however it ends.
use faststream.Prelude.{ℕ, suc, ◌≤◌, ◌≡◌, ◌≢◌, true, false, some, List, [], get_elem?, length}
use faststream.Exceptions.{Exc, Result, ok, err, raised, assertion_error, startup_validation_error}
use faststream.Application.{AppState, Hook, Application, Ending, run_each}

module _ {U : Type 0} where
  -- From a place on, the items of a list are called in order, each in the state that the one before
  -- it left, those too that are appended on the way. The first that raises ends it.
  pub data Run (items : AppState U → List ℕ) (call : ℕ → Hook U)
      : ℕ → AppState U → Result (Unit {0}) → AppState U → Type 0 where
    done : (i : ℕ) (w : AppState U) → length (items w) ≤ i → Run items call i w (ok tt) w
    more :
        (i item : ℕ) (w w1 : AppState U) (r : Result (Unit {0})) (w2 : AppState U)
        → get_elem? (items w) i ≡ some item
        → call item w ≡ (ok tt, w1)
        → Run items call (suc i) w1 r w2
        → Run items call i w r w2
    broke :
        (i item : ℕ) (w w1 : AppState U) (e : Exc)
        → get_elem? (items w) i ≡ some item
        → call item w ≡ (err e, w1)
        → Run items call i w (err e) w1

  -- Something that every call keeps, under which the list does not grow beyond a bound.
  pub record Keeps (bound : ℕ) (P : AppState U → Type 0) (items : AppState U → List ℕ)
      (call : ℕ → Hook U) : Type 0 where
    pub bounded : (w : AppState U) → P w → length (items w) ≤ bound
    pub kept : (item : ℕ) (w : AppState U) → P w → P (call item w).1

  -- An ending of a loop as the relation says, in a state that has `P`.
  record Ended (bound : ℕ) (P : AppState U → Type 0) (items : AppState U → List ℕ)
      (call : ℕ → Hook U) (i : ℕ) (w : AppState U) (e : Ending U) : Type 0 where
    result : Result (Unit {0})
    after : AppState U
    ending : e ≡ some (result, after)
    run : Run items call i w result after
    holds : P after

  module _ (app : Application U) where
    -- The ways in which a start ends: a startup hook raised, an error of validation or another one,
    -- there was no broker, a broker raised, or the hooks after the brokers were run, to their end or
    -- to the first that raised.
    pub data Start (w : AppState U) : Result (Unit {0}) → AppState U → Type 0 where
      refused :
          (e : Exc) (w1 : AppState U)
          → Run (λ v. v.on_startup_calling) app.hook 0 w (err e) w1
          → app.is_validation_error e ≡ true
          → Start w (err (raised startup_validation_error)) w1
      hook_failed :
          (e : Exc) (w1 : AppState U)
          → Run (λ v. v.on_startup_calling) app.hook 0 w (err e) w1
          → app.is_validation_error e ≡ false
          → Start w (err e) w1
      no_broker :
          (w1 : AppState U)
          → Run (λ v. v.on_startup_calling) app.hook 0 w (ok tt) w1
          → w1.brokers ≡ []
          → Start w (err (raised assertion_error)) w1
      broker_failed :
          (e : Exc) (w1 w2 : AppState U)
          → Run (λ v. v.on_startup_calling) app.hook 0 w (ok tt) w1
          → w1.brokers ≢ []
          → Run (λ v. v.brokers) app.start_broker 0 w1 (err e) w2
          → Start w (err e) w2
      ended :
          (w1 w2 : AppState U) (r : Result (Unit {0})) (w3 : AppState U)
          → Run (λ v. v.on_startup_calling) app.hook 0 w (ok tt) w1
          → w1.brokers ≢ []
          → Run (λ v. v.brokers) app.start_broker 0 w1 (ok tt) w2
          → Run (λ v. v.after_startup_calling) app.hook 0 w2 r w3
          → Start w r w3

    -- An ending of a start, or of the rest of one.
    abbrev pub Starts : AppState U → Ending U → Type 0
    Starts w e = (r : Result (Unit {0})) × (w' : AppState U) × (e ≡ some (r, w')) × Start w r w'

    module _ (bound : ℕ) (P : AppState U → Type 0)
        (hooks : Keeps bound P (λ v. v.on_startup_calling) app.hook)
        (brokers : Keeps bound P (λ v. v.brokers) app.start_broker)
        (hooks_after : Keeps bound P (λ v. v.after_startup_calling) app.hook) where
      abbrev after_startup : AppState U → Ending U
      after_startup w2 = run_each (λ v. v.after_startup_calling) app.hook (suc bound) 0 w2
